-- ===== src/System/Once.antt =====
-- Codes and sessions of packages/ide-access/src/repository.ts that have been used or replaced.
use remote_agent_devbox.Common.{
  ◌≡◌, refl, sym, ◌∙◌, ap, true, false, none, some, inl, inr, Bool-cases, exists, ◌∷◌, List, ◌==◌,
  ◌&&◌, String, string_eq, find_row, update, arith, ok, Ensures, Exec, Ensures-weaken,
  Ensures_at_ok, changed-update, frozen-update, frozen-cons,
}
use mathlib.Core.Option.{some-injective}
use remote_agent_devbox.Schema.Workspace.{Uuid, Date, Workspace}
use remote_agent_devbox.Schema.Ide.{IdeAccessCode, IdeAccessSession}
use remote_agent_devbox.Schema.Database.{Database}
use remote_agent_devbox.IdeAccess.{
  IssueCodeInput, RedeemCodeInput, is_live_code, is_live_session, is_redeemable, new_session,
  issue_code, redeem_code, resolve_session,
}
use remote_agent_devbox.IdeAccess.Effects.{
  issue_code-Issued, redeem_code-Redeemed, resolve_session-Resolved,
}
use remote_agent_devbox.System.{Action, run}
use remote_agent_devbox.System.Codes.{of_workspace, invalidate, consume, fresh_digest}
use remote_agent_devbox.System.Codes.Laws.{Burnt, run-Burnt}
use remote_agent_devbox.System.Sessions
use remote_agent_devbox.System.Sessions.{revoke}
use remote_agent_devbox.System.Sessions.Laws.{Revoked, run-Revoked}

-- An operation throws and changes nothing.
abbrev pub Refused : (A : Type 0) → Exec Database A → Database → Type 0
Refused A m db = Ensures {A = A} (λ _ _. ⊥) (λ _ db'. db' ≡ db) m db

live_and_dead :
    (now : Date) (digest : String) (code found : IdeAccessCode) (xs : List IdeAccessCode)
    → Burnt digest code xs
    → find_row (λ c. c.code_digest == digest) xs ≡ some found
    → is_redeemable now found ≡ true
    → ⊥
unfolding is_redeemable
live_and_dead now digest code found xs b row live =
    let e : code ≡ found = some-injective code found (sym b.row ∙ row) in
    let dead : is_live_code found ≡ false = rw (← e) b.dead in ground arith

new_session_workspace :
    (input : RedeemCodeInput) (code : IdeAccessCode) (w : Workspace)
    → (new_session input code w).workspace_id ≡ code.workspace_id
unfolding new_session
new_session_workspace input code w = refl

pub redeem-Burnt :
    (input : RedeemCodeInput) (code : IdeAccessCode) (db : Database)
    → Burnt input.code_digest code db.ide_access_codes
    → Refused IdeAccessSession (redeem_code input) db
redeem-Burnt input code db b =
    Ensures-weaken _ _
      (λ session db' (found, c, r).
        live_and_dead input.redeemed_at input.code_digest code found db.ide_access_codes b
          r.code_row r.redeemable)
      (λ _ _ x. x) (redeem_code-Redeemed input db)

usable_and_Revoked :
    (now : Date) (digest : String) (session found : IdeAccessSession) (xs : List IdeAccessSession)
    → Revoked digest session xs
    → find_row (λ s. s.session_digest == digest) xs ≡ some found
    → found.revoked_at ≡ none
    → ⊥
unfolding is_live_session
usable_and_Revoked now digest session found xs b row live =
    let e : session ≡ found = some-injective session found (sym b.row ∙ row) in
    let dead : is_live_session found ≡ false = rw (← e) b.dead in ground arith

pub resolve-Revoked :
    (digest : String) (now : Date) (session : IdeAccessSession) (db : Database)
    → Revoked digest session db.ide_access_sessions
    → Refused IdeAccessSession (resolve_session digest now) db
resolve-Revoked digest now session db b =
    Ensures-weaken _ _
      (λ found db' (_, (c, r)).
        usable_and_Revoked now digest session found db.ide_access_sessions b r.session_row
          r.unrevoked)
      (λ _ _ x. x) (resolve_session-Resolved digest now db)

consumed_row :
    (input : RedeemCodeInput) (code : IdeAccessCode) (xs : List IdeAccessCode)
    → find_row (λ c. c.code_digest == input.code_digest) xs ≡ some code
    → is_redeemable input.redeemed_at code ≡ true
    → Burnt input.code_digest
        (consume input.redeemed_at code)
        (update (λ c. c.id == code.id && is_live_code c) (consume input.redeemed_at) xs)
unfolding is_redeemable
consumed_row input code xs row live = record {
  row =
      changed-update _ (λ c. c.id == code.id && is_live_code c) (consume input.redeemed_at) xs
        (λ _. refl) row (ground arith);
  dead = unfold is_live_code in ground arith;
}

-- Once an IDE access code has been redeemed, every later attempt to redeem it, after any further
-- requests, throws and changes nothing.
pub redeem_once :
    (input : RedeemCodeInput) (db : Database) {session : IdeAccessSession} {db' : Database}
    → redeem_code input db ≡ (ok session, db')
    → (actions : List Action) (again : RedeemCodeInput) → again.code_digest ≡ input.code_digest
    → Refused IdeAccessSession (redeem_code again) (run actions db')
redeem_once input db {session} {db'} h actions again same =
    let (code, c, r) = Ensures_at_ok _ db (redeem_code-Redeemed input db) h in
    let burnt : Burnt input.code_digest (consume input.redeemed_at code) db'.ide_access_codes =
      rw (r.written) (consumed_row input code db.ide_access_codes r.code_row r.redeemable) in
    redeem-Burnt again (consume input.redeemed_at code) (run actions db')
      (rw same (run-Burnt input.code_digest _ actions db' burnt))

replaced_row :
    (at : Date) (workspace : Uuid) (digest : String) (old new : IdeAccessCode)
    (xs : List IdeAccessCode)
    → find_row (λ c. c.code_digest == digest) xs ≡ some old
    → old.workspace_id ≡ workspace
    → exists
        (λ c. c.code_digest == new.code_digest)
        (update (of_workspace workspace) (invalidate at) xs)
      ≡ false
    → (dead : IdeAccessCode) × Burnt digest dead
        (new ∷ update (of_workspace workspace) (invalidate at) xs)
replaced_row at workspace digest old new xs row same fresh = elim (Bool-cases (is_live_code old)) [
  | inl live ↦ (
    invalidate at old,
    record {
      row =
          frozen-cons (λ c. c.code_digest) digest new _
            (changed-update _ (of_workspace workspace) (invalidate at) xs (λ _. refl) row
              (ground arith))
            fresh;
      dead = unfold is_live_code in ground arith;
    },
  )
  | inr dead ↦ (
    old,
    record {
      row =
          frozen-cons (λ c. c.code_digest) digest new _
            (frozen-update _ (of_workspace workspace) (invalidate at) xs (λ _. refl) row
              (ground arith))
            fresh;
      dead = dead;
    },
  )
]

-- Once a new IDE access code has been issued for a workspace, no code that the workspace had
-- before can be redeemed, after any further requests.
pub issue_replaces :
    (input : IssueCodeInput) (db : Database) {code : IdeAccessCode} {db' : Database}
    → issue_code input db ≡ (ok code, db')
    → (actions : List Action) (old : IdeAccessCode) (again : RedeemCodeInput)
    → find_row (λ c. c.code_digest == again.code_digest) db.ide_access_codes ≡ some old
    → old.workspace_id ≡ input.workspace_id
    → Refused IdeAccessSession (redeem_code again) (run actions db')
issue_replaces input db {code} {db'} h actions old again row same =
    let (c, i) = Ensures_at_ok _ db (issue_code-Issued input db) h in
    let (dead, burnt) =
      replaced_row input.created_at input.workspace_id again.code_digest old code
        db.ide_access_codes row same (fresh_digest _ code i.accepted) in
    redeem-Burnt again dead (run actions db')
      (run-Burnt again.code_digest dead actions db' (rw (i.written) burnt))

Revoked-row :
    (at : Date) (workspace : Uuid) (digest : String) (old new : IdeAccessSession)
    (xs : List IdeAccessSession)
    → find_row (λ s. s.session_digest == digest) xs ≡ some old
    → old.workspace_id ≡ workspace
    → exists
        (λ s. s.session_digest == new.session_digest)
        (update (Sessions.of_workspace workspace) (revoke at) xs)
      ≡ false
    → (dead : IdeAccessSession) × Revoked digest dead
        (new ∷ update (Sessions.of_workspace workspace) (revoke at) xs)
Revoked-row at workspace digest old new xs row same fresh =
    elim (Bool-cases (is_live_session old)) [
      | inl live ↦ (
        revoke at old,
        record {
          row =
              frozen-cons (λ s. s.session_digest) digest new _
                (changed-update _ (Sessions.of_workspace workspace) (revoke at) xs (λ _. refl) row
                  (ground arith))
                fresh;
          dead = unfold is_live_session in ground arith;
        },
      )
      | inr dead ↦ (
        old,
        record {
          row =
              frozen-cons (λ s. s.session_digest) digest new _
                (frozen-update _ (Sessions.of_workspace workspace) (revoke at) xs (λ _. refl) row
                  (ground arith))
                fresh;
          dead = dead;
        },
      )
    ]

-- Once a code of a workspace has been redeemed, no session that the workspace had before is
-- resolved, after any further requests.
pub redeem_revokes :
    (input : RedeemCodeInput) (db : Database) {session : IdeAccessSession} {db' : Database}
    → redeem_code input db ≡ (ok session, db')
    → (actions : List Action) (old : IdeAccessSession) (digest : String) (now : Date)
    → find_row (λ s. s.session_digest == digest) db.ide_access_sessions ≡ some old
    → old.workspace_id ≡ session.workspace_id
    → Refused IdeAccessSession (resolve_session digest now) (run actions db')
redeem_revokes input db {session} {db'} h actions old digest now row same =
    let (code, c, r) = Ensures_at_ok _ db (redeem_code-Redeemed input db) h in
    let (dead, revoked_) =
      Revoked-row input.redeemed_at code.workspace_id digest old session db.ide_access_sessions row
        (same
          ∙ ap (λ (s : IdeAccessSession). s.workspace_id) r.session_row
          ∙ new_session_workspace input code c.workspace)
        (Sessions.fresh_digest _ session r.accepted) in
    resolve-Revoked digest now dead (run actions db')
      (run-Revoked digest dead actions db' (rw (r.written) revoked_))
