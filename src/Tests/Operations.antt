-- ===== src/Tests/Operations.antt =====
-- Approvals, git operations and leases on concrete data.
use remote_agent_devbox.Common.{
  exists, false, ◌≡◌, ◌≤◌, refl, none, some, List, [], ◌∷◌, ◌==◌, string_eq, find_row, select,
  Ensures, arith,
}
use remote_agent_devbox.Schema.Approval.{ApprovalRequest, ApprovalStatus, approval_status_eq}
use remote_agent_devbox.Schema.Git.{GitOperation, GitOperationState}
use remote_agent_devbox.Schema.Database.{Database}
use remote_agent_devbox.Approvals.{NewApprovalRequest, is_active, decide}
use remote_agent_devbox.Approvals.Decisions.{Decision, decide-Decision}
use remote_agent_devbox.GitOperations.{no_values, create_bound}
use remote_agent_devbox.GitOperations.Binding.{Binding, Created, create_bound-Creates}
use remote_agent_devbox.System.{Action, run}
use remote_agent_devbox.System.Epoch.{Follows, run-Follows}
use remote_agent_devbox.System.Requests.{Settled, run-Settled}
use remote_agent_devbox.System.Requests.Active.{active_requests, run-active_requests}
use remote_agent_devbox.System.Operations.History.{Traced, run-Traced}
use remote_agent_devbox.System.Operations.Single.{operations_on, run-operations_on}
use remote_agent_devbox.System.Operations.Ended.{run-Kept}
use remote_agent_devbox.Tests.Data.{
  database, approval, metadata, posture, review_digest, profile_digest, new_operation, migration,
}

-- The operation of `new_operation`, in this state.
abbrev pub operation_in : GitOperationState → GitOperation
operation_in state = record {
  id = "operation";
  workspace_id = "workspace";
  repository_id = "repository";
  review_snapshot_id = "review";
  approval_id = "approval";
  branch_name = "rad/change-1";
  target_commit = new_operation.target_commit;
  expected_remote_head = none;
  review_digest = review_digest;
  validator_profile_digest = profile_digest;
  security_epoch = 4;
  state = state;
  stale_reason = none;
  error_code = none;
  error_message = none;
  pull_request_number = none;
  pull_request_url = none;
  created_at = 50;
  started_at = none;
  completed_at = none;
}

abbrev pub with_operation : GitOperationState → Database
with_operation state = record database { git_operations = operation_in state ∷ [] }

-- The operation starts, and the instance is migrated.
abbrev history : List Action
history =
    Action.transition_operation "operation" GitOperationState.pending GitOperationState.validating
      no_values
    ∷ Action.create_operation new_operation
    ∷ Action.enter_maintenance "migration" 80
    ∷ Action.commit_migration "first event" "second event" migration
    ∷ []

create_bound-Creates_example :
    Ensures
      (λ op db'.
        Binding new_operation database
        × Created new_operation op
        × (exists (λ r. r.approval_id == "approval") database.git_operations ≡ false)
        × (db' ≡ record database { git_operations = op ∷ [] }))
      (λ _ db'. db' ≡ database)
      (create_bound new_operation)
      database
create_bound-Creates_example = create_bound-Creates new_operation database

operation_row :
    (s : GitOperationState)
    → find_row (λ r. r.id == "operation") (with_operation s).git_operations ≡ some (operation_in s)
unfolding find_row string_eq
operation_row s = refl

run-Traced_example :
    Traced
      (operation_in GitOperationState.pending)
      (run history (with_operation GitOperationState.pending)).git_operations
run-Traced_example =
    run-Traced (operation_in GitOperationState.pending) history
      (with_operation GitOperationState.pending) (operation_row GitOperationState.pending)

run-Kept_example :
    find_row
      (λ r. r.id == "operation")
      (run history (with_operation GitOperationState.conflict)).git_operations
    ≡ some (operation_in GitOperationState.conflict)
run-Kept_example =
    run-Kept (operation_in GitOperationState.conflict) history
      (with_operation GitOperationState.conflict) refl (operation_row GitOperationState.conflict)

one_operation :
    operations_on "approval" (with_operation GitOperationState.pending).git_operations ≤ 1
unfolding operations_on string_eq select
one_operation = omega arith

run-operations_on_example :
    operations_on "approval" (run history (with_operation GitOperationState.pending)).git_operations
    ≤ 1
run-operations_on_example =
    run-operations_on "approval" history (with_operation GitOperationState.pending) one_operation

abbrev request : NewApprovalRequest
request = record {
  id = "second approval";
  workspace_id = "workspace";
  review_snapshot_id = "review";
  review_digest = review_digest;
  validator_profile_digest = profile_digest;
  security_epoch = 4;
  deployment_tier = 2;
  security_posture_hash = posture;
  requested_by = "owner";
  requested_at = 45;
  expires_at = 900045;
}

abbrev denied : ApprovalRequest
denied = record approval { status = ApprovalStatus.denied }

abbrev with_denied : Database
with_denied = record database { approval_requests = denied ∷ [] }

abbrev with_pending : Database
with_pending = record database {
  approval_requests =
      record approval { status = ApprovalStatus.pending; decided_by = none; decided_at = none }
      ∷ [];
}

decide-Decision_example :
    Ensures
      (Decision "approval" ApprovalStatus.approved "owner" 40 with_pending)
      (λ _ db'. db' ≡ with_pending)
      (decide "approval" ApprovalStatus.approved "owner" 40)
      with_pending
decide-Decision_example = decide-Decision "approval" ApprovalStatus.approved "owner" 40 with_pending

one_active : active_requests "review" database.approval_requests ≤ 1
unfolding active_requests is_active string_eq approval_status_eq select
one_active = omega arith

run-active_requests_example :
    active_requests "review" (run (Action.create_approval request ∷ []) database).approval_requests
    ≤ 1
run-active_requests_example =
    run-active_requests "review" (Action.create_approval request ∷ []) database one_active

settled : Settled "approval" denied with_denied.approval_requests
unfolding find_row string_eq is_active approval_status_eq
settled = record { row = refl; inactive = refl }

run-Settled_example :
    Settled "approval" denied
      (run
        (Action.approve "approval" "owner" 40 ∷ Action.create_approval request ∷ [])
        with_denied).approval_requests
run-Settled_example =
    run-Settled "approval" denied
      (Action.approve "approval" "owner" 40 ∷ Action.create_approval request ∷ []) with_denied
      settled

run-Follows_example : Follows metadata (run history database).metadata
run-Follows_example = run-Follows metadata history database refl
