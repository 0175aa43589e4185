-- ===== src/GitOperations.antt =====
-- packages/git-operations: the state machine of operation.ts, and the repositories of git operations
-- and credential leases of repository.ts. The modules below prove.
pub mod Binding
pub mod Effects
use remote_agent_devbox.Common.{
  ℕ, ◌<◌, String, ◌<>◌, Bool, true, false, not, ◌&&◌, ◌||◌, Option, none, some, List, [], ◌∷◌, ltb,
  leb, ◌==◌, ◌!=◌, member, option_eq, string_eq, nat_eq, if◌then◌else◌, find_row, exists, update,
  returning, Error, rad, other, Exec, pure, gets, modify, required, required_where, assert,
  transaction, ◌>>=◌, ◌>>◌,
}
use remote_agent_devbox.Names.{is_object_id, is_git_ref_name}
use remote_agent_devbox.Schema.Workspace.{Uuid, Date, Repository, Workspace}
use remote_agent_devbox.Schema.Security.{InstanceSecurityMetadata}
use remote_agent_devbox.Schema.Artifact.{Sha256Digest, ReviewSnapshot}
use remote_agent_devbox.Schema.Approval.{ApprovalRequest, ApprovalStatus, approval_status_eq}
use remote_agent_devbox.Schema.Git.{
  GitOperation, GitOperationState, git_state_eq, CredentialLease, CredentialLeaseState,
  lease_state_eq,
}
use remote_agent_devbox.Schema.Database.{Database}

abbrev state_text : GitOperationState → String
state_text GitOperationState.pending = "PENDING"
state_text GitOperationState.validating = "VALIDATING"
state_text GitOperationState.waiting_credential = "WAITING_CREDENTIAL"
state_text GitOperationState.pushing = "PUSHING"
state_text GitOperationState.succeeded = "SUCCEEDED"
state_text GitOperationState.failed = "FAILED"
state_text GitOperationState.conflict = "CONFLICT"
state_text GitOperationState.cancelled = "CANCELLED"
state_text GitOperationState.stale = "STALE"

allowed_transitions : GitOperationState → List GitOperationState
allowed_transitions GitOperationState.pending =
    GitOperationState.validating ∷ GitOperationState.cancelled ∷ GitOperationState.stale
    ∷ GitOperationState.failed ∷ []
allowed_transitions GitOperationState.validating =
    GitOperationState.waiting_credential ∷ GitOperationState.cancelled ∷ GitOperationState.stale
    ∷ GitOperationState.failed ∷ []
allowed_transitions GitOperationState.waiting_credential =
    GitOperationState.pushing ∷ GitOperationState.cancelled ∷ GitOperationState.stale
    ∷ GitOperationState.failed ∷ []
allowed_transitions GitOperationState.pushing =
    GitOperationState.succeeded ∷ GitOperationState.failed ∷ GitOperationState.conflict
    ∷ GitOperationState.stale ∷ []
allowed_transitions _ = []

-- canTransitionGitOperation
unfoldable pub can_transition_git_operation : GitOperationState → GitOperationState → Bool
unfolding allowed_transitions git_state_eq
can_transition_git_operation from to = member to (allowed_transitions from)

pub record NewGitOperation : Type 0 where
  pub id : Uuid
  pub workspace_id : Uuid
  pub repository_id : Uuid
  pub review_snapshot_id : Uuid
  pub approval_id : Uuid
  pub branch_name : String
  pub target_commit : String
  pub expected_remote_head : Option String
  pub review_digest : Sha256Digest
  pub validator_profile_digest : Sha256Digest
  pub security_epoch : ℕ
  pub created_at : Date

-- `Partial<Pick<GitOperation, …>>`: `none` is a field that is not given, `some none` is null.
pub record GitOperationValues : Type 0 where
  pub stale_reason : Option (Option String)
  pub error_code : Option (Option String)
  pub error_message : Option (Option String)
  pub pull_request_number : Option (Option ℕ)
  pub pull_request_url : Option (Option String)
  pub started_at : Option (Option Date)
  pub completed_at : Option (Option Date)

abbrev pub no_values : GitOperationValues
no_values = record {
  stale_reason = none;
  error_code = none;
  error_message = none;
  pull_request_number = none;
  pull_request_url = none;
  started_at = none;
  completed_at = none;
}

-- A field of `set({ ...values })`.
abbrev given {ℓ} : {A : Type ℓ} → Option A → A → A
given none old = old
given (some new) old = new

-- `set({ ...values, state: nextState })`
unfoldable pub set_values : GitOperationValues → GitOperationState → GitOperation → GitOperation
set_values values next r = record r {
  state = next;
  stale_reason = given values.stale_reason r.stale_reason;
  error_code = given values.error_code r.error_code;
  error_message = given values.error_message r.error_message;
  pull_request_number = given values.pull_request_number r.pull_request_number;
  pull_request_url = given values.pull_request_url r.pull_request_url;
  started_at = given values.started_at r.started_at;
  completed_at = given values.completed_at r.completed_at;
}

-- The row of `values({ ...input, state: "PENDING" })`.
unfoldable pub new_row : NewGitOperation → GitOperation
new_row input = record {
  id = input.id;
  workspace_id = input.workspace_id;
  repository_id = input.repository_id;
  review_snapshot_id = input.review_snapshot_id;
  approval_id = input.approval_id;
  branch_name = input.branch_name;
  target_commit = input.target_commit;
  expected_remote_head = input.expected_remote_head;
  review_digest = input.review_digest;
  validator_profile_digest = input.validator_profile_digest;
  security_epoch = input.security_epoch;
  state = GitOperationState.pending;
  stale_reason = none;
  error_code = none;
  error_message = none;
  pull_request_number = none;
  pull_request_url = none;
  created_at = input.created_at;
  started_at = none;
  completed_at = none;
}

-- git_operations_remote_head_check
abbrev remote_head_fits : Option String → Bool
remote_head_fits none = true
remote_head_fits (some head) = is_object_id head

-- The constraints of the table `git_operations` that a new row must meet.
unfoldable pub git_operations_accepts : Database → GitOperation → Bool
git_operations_accepts db row =
    not (exists (λ r. r.id == row.id) db.git_operations)
    && not (exists (λ r. r.approval_id == row.approval_id) db.git_operations)
    && exists (λ (w : Workspace). w.id == row.workspace_id) db.workspaces
    && exists (λ (r : Repository). r.id == row.repository_id) db.repositories
    && exists (λ (r : ReviewSnapshot). r.id == row.review_snapshot_id) db.review_snapshots
    && exists (λ (a : ApprovalRequest). a.id == row.approval_id) db.approval_requests
    && ltb 0 row.security_epoch
    && remote_head_fits row.expected_remote_head
    && is_object_id row.target_commit

-- The approval is there, approved, not expired, and bound to what the operation names.
unfoldable pub approval_binds : NewGitOperation → ApprovalRequest → Bool
unfolding approval_status_eq
approval_binds input approval =
    approval.status == ApprovalStatus.approved
    && not (leb approval.expires_at input.created_at)
    && approval.review_snapshot_id == input.review_snapshot_id
    && approval.workspace_id == input.workspace_id
    && approval.review_digest == input.review_digest
    && approval.validator_profile_digest == input.validator_profile_digest
    && approval.security_epoch == input.security_epoch

unfoldable pub review_binds : NewGitOperation → ReviewSnapshot → Bool
review_binds input review =
    review.repository_id == input.repository_id
    && review.workspace_id == input.workspace_id
    && review.target_commit == input.target_commit
    && review.review_digest == input.review_digest
    && review.validator_profile_digest == input.validator_profile_digest
    && review.security_epoch == input.security_epoch

unfoldable pub metadata_current : ApprovalRequest → InstanceSecurityMetadata → Bool
metadata_current approval metadata =
    metadata.security_epoch == approval.security_epoch
    && metadata.deployment_tier == approval.deployment_tier
    && metadata.security_posture_hash == approval.security_posture_hash

-- gitOperations.createBound; every throw inside the transaction rolls it back
create_bound_body : NewGitOperation → Exec Database GitOperation
create_bound_body input = do
  approvals ← gets (λ db. db.approval_requests)
  approval ←
      required_where (approval_binds input) (find_row (λ r. r.id == input.approval_id) approvals) (
        rad "APPROVAL_BINDING_INVALID"
          "Approval is expired, unapproved, or does not match the Git operation")
  reviews ← gets (λ db. db.review_snapshots)
  required_where (review_binds input) (find_row (λ r. r.id == input.review_snapshot_id) reviews)
      (rad "GIT_REVIEW_MISMATCH" "Git operation does not match its review")
  metadata ← gets (λ db. db.metadata)
  required_where (metadata_current approval) metadata
      (rad "GIT_SECURITY_CONTEXT_STALE" "Approval security context is no longer current")
  accepted ← gets (λ db. git_operations_accepts db (new_row input))
  assert accepted (other "git_operations constraint violated")
  modify (λ db. record db { git_operations = new_row input ∷ db.git_operations })
  pure (new_row input)

-- A text that is absent, or empty, is not tested.
abbrev optional_object_id : Option String → Bool
optional_object_id none = true
optional_object_id (some head) = head == "" || is_object_id head

unfoldable pub create_bound : NewGitOperation → Exec Database GitOperation
unfolding create_bound_body git_operations_accepts approval_binds review_binds metadata_current
    new_row transaction
create_bound input = do
  assert (is_git_ref_name input.branch_name) (other "Invalid Git reference name")
  assert (is_object_id input.target_commit)
      (rad "GIT_TARGET_INVALID" "Target commit object ID is invalid")
  assert (optional_object_id input.expected_remote_head)
      (rad "REMOTE_HEAD_INVALID" "Expected remote head object ID is invalid")
  transaction (create_bound_body input)

unfoldable pub get : Uuid → Database → Option GitOperation
get id db = find_row (λ r. r.id == id) db.git_operations

unfoldable pub find_by_approval : Uuid → Database → Option GitOperation
find_by_approval approval_id db = find_row (λ r. r.approval_id == approval_id) db.git_operations

-- UPDATE … WHERE id = id AND state = expected
abbrev pub in_state : Uuid → GitOperationState → GitOperation → Bool
in_state id expected r = r.id == id && r.state == expected

unfoldable pub transition :
    Uuid → GitOperationState → GitOperationState → GitOperationValues → Exec Database GitOperation
unfolding can_transition_git_operation set_values
transition id expected next values = do
  assert (can_transition_git_operation expected next) (
      rad "GIT_OPERATION_TRANSITION_INVALID" (
        "Git operation cannot transition from "
        <> state_text expected
        <> " to "
        <> state_text next))
  updated ← gets (λ db. returning (in_state id expected) (set_values values next) db.git_operations)
  modify (λ db. record db {
    git_operations = update (in_state id expected) (set_values values next) db.git_operations;
  })
  required updated
      (rad "GIT_OPERATION_STATE_CONFLICT" ("Git operation " <> id <> " changed concurrently"))
