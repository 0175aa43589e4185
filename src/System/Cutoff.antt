-- ===== src/System/Cutoff.antt =====
-- What a committed migration of apps/control/src/security/security-migration.ts means for the codes
-- and sessions that it found.
pub mod Ends
pub mod Blocked
use remote_agent_devbox.Common.{
  ℕ, ◌+◌, ◌≡◌, refl, sym, ◌∙◌, true, false, Bool, none, some, inl, inr, Bool-cases, List, ◌∷◌, ◌==◌,
  ◌&&◌, String, string_eq, if◌then◌else◌, exists, find_row, update, arith, Result, ok,
  Ensures-weaken, Ensures_at_ok, changed-update, frozen-update, exists_false-All, All_at_row,
}
use mathlib.Core.Option.{some-injective}
use remote_agent_devbox.Schema.Workspace.{Uuid, Date, Workspace}
use remote_agent_devbox.Schema.Security.{InstanceSecurityMetadata}
use remote_agent_devbox.Schema.Approval.{ApprovalRequest, ApprovalStatus}
use remote_agent_devbox.Schema.Git.{GitOperation, GitOperationState}
use remote_agent_devbox.Schema.Ide.{IdeAccessCode, IdeAccessSession}
use remote_agent_devbox.Schema.Database.{Database}
use remote_agent_devbox.Approvals.{is_active}
use remote_agent_devbox.GitOperations.{NewGitOperation}
use remote_agent_devbox.GitOperations
use remote_agent_devbox.GitOperations.Binding.{create_bound-Binds}
use remote_agent_devbox.IdeAccess.{
  RedeemCodeInput, is_live_code, is_live_session, redeem_code, resolve_session,
}
use remote_agent_devbox.SecurityMigration.{
  CommitInput, SecurityMigrationResult, invalidate_all, is_pushing, is_cancellable, cancelled,
  is_stoppable, stopped, staled, commit, migrated, count_all,
}
use remote_agent_devbox.SecurityMigration.Effects.{Committed, commit-Committed}
use remote_agent_devbox.System.{Action, run}
use remote_agent_devbox.System.Codes.{invalidate}
use remote_agent_devbox.System.Codes.Laws.{Burnt, run-Burnt}
use remote_agent_devbox.System.Sessions.{revoke}
use remote_agent_devbox.System.Sessions.Laws.{Revoked, run-Revoked}
use remote_agent_devbox.System.Requests.{Settled, run-Settled}
use remote_agent_devbox.System.Operations.Ended.{is_final, run-Kept}
use remote_agent_devbox.System.Once.{Refused, redeem-Burnt, resolve-Revoked}

invalidated_code :
    (at : Date) (digest : String) (old : IdeAccessCode) (xs : List IdeAccessCode)
    → find_row (λ c. c.code_digest == digest) xs ≡ some old
    → (code : IdeAccessCode) × Burnt digest code (update is_live_code (invalidate at) xs)
invalidated_code at digest old xs row = elim (Bool-cases (is_live_code old)) [
  | inl live ↦ (
    invalidate at old,
    record {
      row = changed-update _ is_live_code (invalidate at) xs (λ _. refl) row live;
      dead = unfold is_live_code in ground arith;
    },
  )
  | inr dead ↦ (
    old,
    record {
      row = frozen-update _ is_live_code (invalidate at) xs (λ _. refl) row dead;
      dead = dead;
    },
  )
]

Revoked-session :
    (at : Date) (digest : String) (old : IdeAccessSession) (xs : List IdeAccessSession)
    → find_row (λ s. s.session_digest == digest) xs ≡ some old
    → (session : IdeAccessSession) × Revoked digest session (update is_live_session (revoke at) xs)
Revoked-session at digest old xs row = elim (Bool-cases (is_live_session old)) [
  | inl live ↦ (
    revoke at old,
    record {
      row = changed-update _ is_live_session (revoke at) xs (λ _. refl) row live;
      dead = unfold is_live_session in ground arith;
    },
  )
  | inr dead ↦ (
    old,
    record {
      row = frozen-update _ is_live_session (revoke at) xs (λ _. refl) row dead;
      dead = dead;
    },
  )
]

module _ (a b : Uuid) (input : CommitInput) (db : Database) {result : SecurityMigrationResult}
    {db' : Database} (done : commit a b input db ≡ (ok result, db')) where
  -- After a security migration has been committed, no IDE access code that was in the database
  -- before it can be redeemed: after any further requests, redeeming it throws and changes
  -- nothing.
  pub commit_ends_codes :
      (actions : List Action) (old : IdeAccessCode) (again : RedeemCodeInput)
      → find_row (λ c. c.code_digest == again.code_digest) db.ide_access_codes ≡ some old
      → Refused IdeAccessSession (redeem_code again) (run actions db')
  unfolding invalidate_all
  commit_ends_codes actions old again row =
      let (_, _, _, c) = Ensures_at_ok _ db (commit-Committed a b input db) done in
      let (code, burnt) =
        invalidated_code input.completed_at again.code_digest old db.ide_access_codes row in
      redeem-Burnt again code (run actions db')
        (run-Burnt again.code_digest code actions db' (rw c.written burnt))

  -- After a security migration has been committed, no IDE session that was in the database before
  -- it is resolved: after any further requests, resolving it throws and changes nothing.
  pub commit_ends_sessions :
      (actions : List Action) (old : IdeAccessSession) (digest : String) (now : Date)
      → find_row (λ s. s.session_digest == digest) db.ide_access_sessions ≡ some old
      → Refused IdeAccessSession (resolve_session digest now) (run actions db')
  unfolding invalidate_all
  commit_ends_sessions actions old digest now row =
      let (_, _, _, c) = Ensures_at_ok _ db (commit-Committed a b input db) done in
      let (session, ended) =
        Revoked-session input.completed_at digest old db.ide_access_sessions row in
      resolve-Revoked digest now session (run actions db')
        (run-Revoked digest session actions db' (rw c.written ended))
