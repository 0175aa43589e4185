-- ===== src/Approvals.antt =====
-- packages/approvals: `PostgresApprovalRepository` of repository.ts. The modules below prove.
pub mod Effects
pub mod Decisions
use remote_agent_devbox.Common.{
  ℕ, String, ◌<>◌, Bool, true, false, not, ◌&&◌, ◌||◌, Option, none, some, List, [], ◌∷◌, ltb, leb,
  ◌==◌, ◌!=◌, member, string_eq, nat_eq, if◌then◌else◌, find_row, exists, update, returning, Error,
  rad, other, Exec, pure, gets, modify, required, required_where, assert, transaction, ◌>>=◌, ◌>>◌,
}
use remote_agent_devbox.Schema.Workspace.{Uuid, Date, Workspace}
use remote_agent_devbox.Schema.Security.{InstanceSecurityMetadata}
use remote_agent_devbox.Schema.Artifact.{Sha256Digest, ReviewSnapshot}
use remote_agent_devbox.Schema.Approval.{
  ApprovalRequest, ApprovalStatus, ApprovalStaleReason, approval_status_eq,
}
use remote_agent_devbox.Schema.Database.{Database}

pub record NewApprovalRequest : Type 0 where
  pub id : Uuid
  pub workspace_id : Uuid
  pub review_snapshot_id : Uuid
  pub review_digest : Sha256Digest
  pub validator_profile_digest : Sha256Digest
  pub security_epoch : ℕ
  pub deployment_tier : ℕ
  pub security_posture_hash : Sha256Digest
  pub requested_by : Uuid
  pub requested_at : Date
  pub expires_at : Date

-- The row of `values({ ...input, status: "PENDING", staleReason: null })`.
unfoldable pub new_row : NewApprovalRequest → ApprovalRequest
new_row input = record {
  id = input.id;
  workspace_id = input.workspace_id;
  review_snapshot_id = input.review_snapshot_id;
  review_digest = input.review_digest;
  validator_profile_digest = input.validator_profile_digest;
  security_epoch = input.security_epoch;
  deployment_tier = input.deployment_tier;
  security_posture_hash = input.security_posture_hash;
  status = ApprovalStatus.pending;
  stale_reason = none;
  requested_by = input.requested_by;
  requested_at = input.requested_at;
  expires_at = input.expires_at;
  decided_by = none;
  decided_at = none;
}

-- inArray(status, ["PENDING", "APPROVED"])
unfoldable pub is_active : ApprovalRequest → Bool
unfolding approval_status_eq
is_active a = member a.status (ApprovalStatus.pending ∷ ApprovalStatus.approved ∷ [])

-- approval_requests_decision_check
abbrev decision_fits : ApprovalStatus → Option Uuid → Option Date → Bool
decision_fits ApprovalStatus.pending none none = true
decision_fits ApprovalStatus.approved (some by) (some at) = true
decision_fits ApprovalStatus.denied (some by) (some at) = true
decision_fits ApprovalStatus.stale none (some at) = true
decision_fits _ _ _ = false

-- approval_requests_stale_reason_check
abbrev stale_reason_fits : ApprovalStatus → Option ApprovalStaleReason → Bool
stale_reason_fits ApprovalStatus.stale (some reason) = true
stale_reason_fits ApprovalStatus.stale none = false
stale_reason_fits _ none = true
stale_reason_fits _ (some reason) = false

-- The constraints of the table `approval_requests` that an update of the status can break. A new row
-- and a decision meet them.
unfoldable pub meets_checks : ApprovalRequest → Bool
meets_checks a =
    decision_fits a.status a.decided_by a.decided_at && stale_reason_fits a.status a.stale_reason

-- The constraints of the table `approval_requests` that a new row must meet.
unfoldable pub approval_requests_accepts : Database → ApprovalRequest → Bool
unfolding is_active
approval_requests_accepts db row =
    not (exists (λ r. r.id == row.id) db.approval_requests)
    && not (
        exists (λ r. r.review_snapshot_id == row.review_snapshot_id && is_active r)
          db.approval_requests)
    && exists (λ (w : Workspace). w.id == row.workspace_id) db.workspaces
    && exists (λ (r : ReviewSnapshot). r.id == row.review_snapshot_id) db.review_snapshots
    && ltb 0 row.security_epoch
    && leb 1 row.deployment_tier
    && leb row.deployment_tier 3
    && ltb row.requested_at row.expires_at

-- The instance's metadata is what the input says.
unfoldable pub metadata_matches : NewApprovalRequest → InstanceSecurityMetadata → Bool
metadata_matches input metadata =
    metadata.security_epoch == input.security_epoch
    && metadata.deployment_tier == input.deployment_tier
    && metadata.security_posture_hash == input.security_posture_hash

-- approvalMatchesReview
unfoldable pub approval_matches_review : NewApprovalRequest → ReviewSnapshot → Bool
approval_matches_review input review =
    review.workspace_id == input.workspace_id
    && review.review_digest == input.review_digest
    && review.validator_profile_digest == input.validator_profile_digest
    && review.security_epoch == input.security_epoch
    && review.deployment_tier == input.deployment_tier
    && review.security_posture_hash == input.security_posture_hash

create_bound_body : NewApprovalRequest → Exec Database ApprovalRequest
create_bound_body input = do
  metadata ← gets (λ db. db.metadata)
  required_where (metadata_matches input) metadata
      (rad "SECURITY_CONTEXT_CHANGED" "Security context changed before approval creation")
  reviews ← gets (λ db. db.review_snapshots)
  required_where (approval_matches_review input)
      (find_row (λ r. r.id == input.review_snapshot_id) reviews)
      (rad "APPROVAL_REVIEW_MISMATCH"
        "Approval binding does not match the immutable Review Snapshot")
  accepted ← gets (λ db. approval_requests_accepts db (new_row input))
  assert accepted (other "approval_requests constraint violated")
  modify (λ db. record db { approval_requests = new_row input ∷ db.approval_requests })
  pure (new_row input)

unfoldable pub create_bound : NewApprovalRequest → Exec Database ApprovalRequest
unfolding create_bound_body metadata_matches approval_matches_review approval_requests_accepts
    new_row transaction
create_bound input = transaction (create_bound_body input)

unfoldable pub get : Uuid → Database → Option ApprovalRequest
get id db = find_row (λ r. r.id == id) db.approval_requests

unfoldable pub find_active_by_review : Uuid → Database → Option ApprovalRequest
unfolding is_active
find_active_by_review review_snapshot_id db =
    find_row (λ r. r.review_snapshot_id == review_snapshot_id && is_active r) db.approval_requests

abbrev metadata_differs : ApprovalRequest → Option InstanceSecurityMetadata → Bool
metadata_differs approval none = true
metadata_differs approval (some m) =
    m.security_epoch != approval.security_epoch
    || m.deployment_tier != approval.deployment_tier
    || m.security_posture_hash != approval.security_posture_hash

-- The tests of `findStaleReason` on the review, in their order.
abbrev review_stale_reason : ApprovalRequest → Option ReviewSnapshot → Option ApprovalStaleReason
review_stale_reason approval none = some ApprovalStaleReason.artifact_changed
review_stale_reason approval (some review) =
    if review.review_digest != approval.review_digest
    then some ApprovalStaleReason.artifact_changed
    else if review.validator_profile_digest != approval.validator_profile_digest
    then some ApprovalStaleReason.validator_changed
    else if review.security_epoch != approval.security_epoch
        || review.deployment_tier != approval.deployment_tier
        || review.security_posture_hash != approval.security_posture_hash
    then some ApprovalStaleReason.security_posture_changed
    else none

unfoldable pub find_stale_reason : ApprovalRequest → Database → Option ApprovalStaleReason
find_stale_reason approval db =
    if metadata_differs approval db.metadata
    then some ApprovalStaleReason.security_posture_changed
    else review_stale_reason approval
        (find_row (λ r. r.id == approval.review_snapshot_id) db.review_snapshots)

-- `set(staleReason ? {…} : {…})`
unfoldable pub decided :
    Option ApprovalStaleReason → ApprovalStatus → Uuid → Date → ApprovalRequest → ApprovalRequest
decided (some reason) decision by at r = record r {
  status = ApprovalStatus.stale;
  stale_reason = some reason;
  decided_at = some at;
  decided_by = none;
}
decided none decision by at r = record r {
  status = decision;
  stale_reason = none;
  decided_at = some at;
  decided_by = some by;
}

abbrev status_text : ApprovalStatus → String
status_text ApprovalStatus.pending = "PENDING"
status_text ApprovalStatus.approved = "APPROVED"
status_text ApprovalStatus.denied = "DENIED"
status_text ApprovalStatus.stale = "STALE"

-- The reason for which a decision at this time makes the request stale.
unfoldable pub stale_reason_at : Date → ApprovalRequest → Database → Option ApprovalStaleReason
unfolding find_stale_reason
stale_reason_at at approval db =
    if leb approval.expires_at at
    then some ApprovalStaleReason.expired
    else find_stale_reason approval db

-- UPDATE … WHERE id = id AND status = 'PENDING'
abbrev pub pending_with : Uuid → ApprovalRequest → Bool
pending_with id r = r.id == id && r.status == ApprovalStatus.pending

decide_body : Uuid → ApprovalStatus → Uuid → Date → Exec Database ApprovalRequest
decide_body id decision decided_by decided_at = do
  row ← gets (get id)
  approval ← required row (rad "APPROVAL_NOT_FOUND" ("Approval " <> id <> " not found"))
  assert (approval.status == ApprovalStatus.pending) (
      rad "APPROVAL_STATE_CONFLICT"
        ("Approval " <> id <> " cannot be decided from " <> status_text approval.status))
  reason ← gets (stale_reason_at decided_at approval)
  updated ← gets (λ db.
      returning (pending_with id) (decided reason decision decided_by decided_at)
        db.approval_requests)
  modify (λ db. record db {
    approval_requests =
        update (pending_with id) (decided reason decision decided_by decided_at)
          db.approval_requests;
  })
  required updated (rad "APPROVAL_STATE_CONFLICT" ("Approval " <> id <> " changed concurrently"))

unfoldable pub decide : Uuid → ApprovalStatus → Uuid → Date → Exec Database ApprovalRequest
unfolding decide_body get stale_reason_at decided approval_status_eq transaction
decide id decision decided_by decided_at =
    transaction (decide_body id decision decided_by decided_at)

unfoldable pub approve : Uuid → Uuid → Date → Exec Database ApprovalRequest
unfolding decide
approve id decided_by decided_at = decide id ApprovalStatus.approved decided_by decided_at

unfoldable pub deny : Uuid → Uuid → Date → Exec Database ApprovalRequest
unfolding decide
deny id decided_by decided_at = decide id ApprovalStatus.denied decided_by decided_at
