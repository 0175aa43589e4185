-- ===== src/GitOperations/Binding.antt =====
-- `createBound`: what a new git operation is bound to.
use mathlib.Core.Path.{subst}
use remote_agent_devbox.Common.{
  ◌<◌, ◌≡◌, refl, true, false, none, some, exists, Ensures-weaken, ◌∷◌, ◌==◌, string_eq, find_row,
  arith, Ensures, on_gets, on_required_where, on_assert, on_modify, end_pure, end_transaction,
}
use remote_agent_devbox.Schema.Security.{InstanceSecurityMetadata}
use remote_agent_devbox.Schema.Artifact.{ReviewSnapshot}
use remote_agent_devbox.Schema.Approval.{ApprovalRequest, ApprovalStatus}
use remote_agent_devbox.Schema.Git.{GitOperation, GitOperationState}
use remote_agent_devbox.Schema.Database.{Database}
use remote_agent_devbox.GitOperations.{
  NewGitOperation, new_row, git_operations_accepts, create_bound_body, create_bound, approval_binds,
  review_binds, metadata_current,
}

-- What `input` names agrees with the approval, the review and the instance's metadata.
pub record IsBound (input : NewGitOperation) (db : Database) (approval : ApprovalRequest)
    (review : ReviewSnapshot) (metadata : InstanceSecurityMetadata) : Type 0 where
  pub approval_row : find_row (λ r. r.id == input.approval_id) db.approval_requests ≡ some approval
  pub approved : approval.status ≡ ApprovalStatus.approved
  pub unexpired : input.created_at < approval.expires_at
  pub approval_review : approval.review_snapshot_id ≡ input.review_snapshot_id
  pub approval_workspace : approval.workspace_id ≡ input.workspace_id
  pub approval_profile : approval.validator_profile_digest ≡ input.validator_profile_digest
  pub approval_digest : approval.review_digest ≡ input.review_digest
  pub approval_epoch : approval.security_epoch ≡ input.security_epoch
  pub review_row :
      find_row (λ r. r.id == input.review_snapshot_id) db.review_snapshots ≡ some review
  pub review_target : review.target_commit ≡ input.target_commit
  pub review_repository : review.repository_id ≡ input.repository_id
  pub review_workspace : review.workspace_id ≡ input.workspace_id
  pub review_profile : review.validator_profile_digest ≡ input.validator_profile_digest
  pub review_epoch : review.security_epoch ≡ input.security_epoch
  pub review_digest : review.review_digest ≡ input.review_digest
  pub metadata_row : db.metadata ≡ some metadata
  pub metadata_epoch : metadata.security_epoch ≡ input.security_epoch
  pub metadata_tier : metadata.deployment_tier ≡ approval.deployment_tier
  pub metadata_hash : metadata.security_posture_hash ≡ approval.security_posture_hash

-- The rows that `input` is bound to.
pub record Binding (input : NewGitOperation) (db : Database) : Type 0 where
  pub approval : ApprovalRequest
  pub review : ReviewSnapshot
  pub metadata : InstanceSecurityMetadata
  pub bound : IsBound input db approval review metadata

-- The operation that is returned is new, pending, and the only change.
abbrev pub Binds : NewGitOperation → Database → GitOperation → Database → Type 0
Binds input db op db' =
    Binding input db
    × (op ≡ new_row input)
    × (git_operations_accepts db op ≡ true)
    × (db' ≡ record db { git_operations = op ∷ db.git_operations })

create_bound_body-Binds :
    (input : NewGitOperation) (db : Database)
    → Ensures (Binds input db) (λ _ _. Unit) (create_bound_body input) db
unfolding create_bound_body approval_binds review_binds metadata_current
create_bound_body-Binds input db = on_gets _ _ (
    on_required_where _ _ _ _ tt λ a ea pa. on_gets _ _ (
      on_required_where _ _ _ _ tt λ r er pr. on_gets _ _ (
        on_required_where _ _ _ _ tt λ m em pm. on_gets _ _ (
          on_assert _ _ _ (λ _. tt)
            λ accepted. on_modify _ _ (
              end_pure _ (
                record { approval = a; review = r; metadata = m; bound = ground arith },
                refl,
                accepted,
                refl,
              ))))))

pub create_bound-Binds :
    (input : NewGitOperation) (db : Database)
    → Ensures (Binds input db) (λ _ db'. db' ≡ db) (create_bound input) db
unfolding create_bound
create_bound-Binds input db =
    on_assert _ _ _ (λ _. refl)
      λ _.
        on_assert _ _ _ (λ _. refl)
          λ _.
            on_assert _ _ _ (λ _. refl)
              λ _. end_transaction _ _ (λ _. refl) (create_bound_body-Binds input db)

-- The operation is what the input names, and has not begun.
pub record Created (input : NewGitOperation) (op : GitOperation) : Type 0 where
  pub id : op.id ≡ input.id
  pub workspace : op.workspace_id ≡ input.workspace_id
  pub repository : op.repository_id ≡ input.repository_id
  pub review : op.review_snapshot_id ≡ input.review_snapshot_id
  pub approval : op.approval_id ≡ input.approval_id
  pub branch : op.branch_name ≡ input.branch_name
  pub target : op.target_commit ≡ input.target_commit
  pub remote_head : op.expected_remote_head ≡ input.expected_remote_head
  pub digest : op.review_digest ≡ input.review_digest
  pub profile : op.validator_profile_digest ≡ input.validator_profile_digest
  pub epoch : op.security_epoch ≡ input.security_epoch
  pub waits : op.state ≡ GitOperationState.pending
  pub not_started : op.started_at ≡ none
  pub not_completed : op.completed_at ≡ none

created : (input : NewGitOperation) (op : GitOperation) → op ≡ new_row input → Created input op
unfolding new_row
created input op same = record {
  id = rw same refl;
  workspace = rw same refl;
  repository = rw same refl;
  review = rw same refl;
  approval = rw same refl;
  branch = rw same refl;
  target = rw same refl;
  remote_head = rw same refl;
  digest = rw same refl;
  profile = rw same refl;
  epoch = rw same refl;
  waits = rw same refl;
  not_started = rw same refl;
  not_completed = rw same refl;
}

none_on_approval :
    (input : NewGitOperation) (db : Database) (op : GitOperation)
    → op ≡ new_row input
    → git_operations_accepts db op ≡ true
    → exists (λ r. r.approval_id == input.approval_id) db.git_operations ≡ false
unfolding git_operations_accepts new_row
none_on_approval input db op same accepted =
    let ok_row : git_operations_accepts db (new_row input) ≡ true =
      subst (λ o. git_operations_accepts db o ≡ true) same accepted in
    ground (arith, ok_row)

-- Creating a git operation returns a pending operation of what the input names, whose row is the
-- only change, and does so only where no operation stands on the approval, the approval is
-- approved and unexpired, the approval and the review agree with the operation column by column,
-- and the instance's epoch, tier and posture are the approval's; when it throws, nothing has
-- changed.
pub create_bound-Creates :
    (input : NewGitOperation) (db : Database)
    → Ensures
        (λ op db'.
          Binding input db
          × Created input op
          × (exists (λ r. r.approval_id == input.approval_id) db.git_operations ≡ false)
          × (db' ≡ record db { git_operations = op ∷ db.git_operations }))
        (λ _ db'. db' ≡ db)
        (create_bound input)
        db
create_bound-Creates input db =
    Ensures-weaken _ _
      (λ op db' (binding, same, accepted, written).
        (binding, created input op same, none_on_approval input db op same accepted, written))
      (λ _ _ kept. kept) (create_bound-Binds input db)
