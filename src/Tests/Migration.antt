-- ===== src/Tests/Migration.antt =====
-- A security migration on concrete data.
use remote_agent_devbox.Common.{
  ◌≡◌, ◌+◌, refl, none, inl, All, true, false, some, List, [], ◌∷◌, ok, ◌==◌, nat_eq, string_eq,
  find_row, exists, update, select, ◌>>=◌,
}
use remote_agent_devbox.Schema.Security.{InstanceSecurityMetadata}
use remote_agent_devbox.Schema.Approval.{ApprovalRequest, ApprovalStatus, approval_status_eq}
use remote_agent_devbox.Approvals.{is_active, meets_checks}
use remote_agent_devbox.Schema.Ide.{IdeAccessSession}
use remote_agent_devbox.Schema.Git.{GitOperationState}
use remote_agent_devbox.Schema.Database.{Database}
use remote_agent_devbox.GitOperations.{new_row, no_values}
use remote_agent_devbox.IdeAccess.{redeem_code, resolve_session}
use remote_agent_devbox.SecurityMigration.{SecurityMigrationResult, commit, count_all, migrated}
use remote_agent_devbox.System.{Action, run}
use remote_agent_devbox.System.Once.{Refused}
use remote_agent_devbox.System.Cutoff.{commit_ends_codes, commit_ends_sessions}
use remote_agent_devbox.System.Cutoff.Ends.{AtRest, commit_rotates}
use remote_agent_devbox.System.Cutoff.Blocked.{commit_blocked, approved_blocks}
use remote_agent_devbox.System.Requests.Checked.{Checked}
use remote_agent_devbox.Tests.Data.{
  metadata, code, session, approval, code_digest, session_digest, issue_input, redeem_input,
  new_operation, maintained, migration,
}

abbrev before : Database
before = record (maintained []) {
  approval_requests = record approval { status = ApprovalStatus.denied } ∷ [];
}

abbrev after : Database
after = (commit "first event" "second event" migration before).1

abbrev outcome : SecurityMigrationResult
outcome = count_all before (
    migrated migration (record metadata {
      maintenance_mode = true;
      maintenance_reason = some "migration";
      maintenance_started_at = some 80;
      updated_at = 80;
    }))

done : commit "first event" "second event" migration before ≡ (ok outcome, after)
unfolding commit approval_status_eq is_active count_all migrated ◌>>=◌ nat_eq find_row string_eq
    exists update select new_row
done = refl

abbrev later : List Action
later =
    Action.issue_code issue_input
    ∷ Action.transition_operation "operation" GitOperationState.pending GitOperationState.validating
        no_values
    ∷ Action.approve "approval" "owner" 95
    ∷ []

code_row : find_row (λ c. c.code_digest == code_digest) before.ide_access_codes ≡ some code
unfolding find_row string_eq
code_row = refl

session_row :
    find_row (λ s. s.session_digest == session_digest) before.ide_access_sessions ≡ some session
unfolding find_row string_eq
session_row = refl

commit_ends_codes_example :
    Refused IdeAccessSession
      (redeem_code (redeem_input code_digest "next session"))
      (run later after)
commit_ends_codes_example =
    commit_ends_codes "first event" "second event" migration before done later code
      (redeem_input code_digest "next session") code_row

commit_ends_sessions_example :
    Refused IdeAccessSession (resolve_session session_digest 95) (run later after)
commit_ends_sessions_example =
    commit_ends_sessions "first event" "second event" migration before done later session
      session_digest 95 session_row

commit_rotates_example :
    All AtRest after.workspaces
    × (m : InstanceSecurityMetadata) × (m' : InstanceSecurityMetadata) × (before.metadata ≡ some m)
    × (m.maintenance_mode ≡ true)
    × (after.metadata ≡ some m')
    × (m'.security_epoch ≡ m.security_epoch + 1)
    × (m'.deployment_tier ≡ 3)
    × (m'.security_posture_hash ≡ migration.target_posture_hash)
    × (m'.maintenance_mode ≡ false)
commit_rotates_example = commit_rotates "first event" "second event" migration before done

-- The request is pending; the table's constraints hold of its row.
abbrev waiting : ApprovalRequest
waiting = record approval { status = ApprovalStatus.pending; decided_by = none; decided_at = none }

abbrev with_waiting : Database
with_waiting = record before { approval_requests = waiting ∷ [] }

abbrev with_approved : Database
with_approved = record before { approval_requests = approval ∷ [] }

waiting_row : find_row (λ r. r.id == "approval") with_waiting.approval_requests ≡ some waiting
unfolding find_row string_eq
waiting_row = refl

waiting-Checked : Checked with_waiting.approval_requests
unfolding meets_checks
waiting-Checked = (refl, tt)

approved_row : find_row (λ r. r.id == "approval") with_approved.approval_requests ≡ some approval
unfolding find_row string_eq
approved_row = refl

approved-Checked : Checked with_approved.approval_requests
unfolding meets_checks
approved-Checked = (refl, tt)

commit_blocked_example :
    Refused SecurityMigrationResult (commit "first event" "second event" migration) with_waiting
commit_blocked_example =
    commit_blocked "first event" "second event" migration "approval" waiting with_waiting
      waiting-Checked waiting_row (inl refl)

abbrev decisions : List Action
decisions = Action.deny "approval" "owner" 95 ∷ Action.create_operation new_operation ∷ []

approved_blocks_example :
    Refused SecurityMigrationResult
      (commit "first event" "second event" migration)
      (run decisions with_approved)
approved_blocks_example =
    approved_blocks "first event" "second event" migration "approval" approval decisions
      with_approved approved-Checked approved_row refl
