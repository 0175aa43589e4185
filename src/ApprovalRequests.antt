-- ===== src/ApprovalRequests.antt =====
-- apps/control/src/approvals/approval-service.ts: `ApprovalService`, over the repositories of approvals,
-- reviews and metadata. The module below proves.
pub mod Repeated
use remote_agent_devbox.Common.{
  ℕ, String, ◌<>◌, ◌+◌, ◌*◌, Bool, ◌&&◌, ◌==◌, string_eq, nat_eq, Option, none, some, rad, Exec,
  pure, gets, assert, required, ◌>>=◌, ◌>>◌,
}
use remote_agent_devbox.Schema.Workspace.{Uuid, Date}
use remote_agent_devbox.Schema.Security.{InstanceSecurityMetadata}
use remote_agent_devbox.Schema.Artifact.{ReviewSnapshot}
use remote_agent_devbox.Schema.Approval.{ApprovalRequest}
use remote_agent_devbox.Schema.Database.{Database}
use remote_agent_devbox.Metadata.{assert_available}
use remote_agent_devbox.Artifacts.Reviews.{Platform, get_review}
use remote_agent_devbox.Approvals.{NewApprovalRequest, create_bound, find_active_by_review}
use remote_agent_devbox.Approvals

-- What `randomUUID()` and `this.now()` return.
pub record Readings : Type 0 where
  pub id : Uuid
  pub requested_at : Date

-- The review is of the instance's current security context.
unfoldable pub current_context : InstanceSecurityMetadata → ReviewSnapshot → Bool
current_context metadata review =
    metadata.security_epoch == review.security_epoch
    && metadata.deployment_tier == review.deployment_tier
    && metadata.security_posture_hash == review.security_posture_hash

-- The argument of `createBound`.
unfoldable pub binding : ℕ → Readings → Uuid → ReviewSnapshot → NewApprovalRequest
binding ttl_seconds now requested_by review = record {
  id = now.id;
  workspace_id = review.workspace_id;
  review_snapshot_id = review.id;
  review_digest = review.review_digest;
  validator_profile_digest = review.validator_profile_digest;
  security_epoch = review.security_epoch;
  deployment_tier = review.deployment_tier;
  security_posture_hash = review.security_posture_hash;
  requested_by = requested_by;
  requested_at = now.requested_at;
  expires_at = now.requested_at + ttl_seconds * 1000;
}

module _ (platform : Platform) (ttl_seconds : ℕ) where
  -- The request that is active, or a new one.
  unfoldable pub existing_or_new :
      Readings → Uuid → Uuid → Option ApprovalRequest → Exec Database ApprovalRequest
  unfolding get_review current_context binding create_bound
  existing_or_new now review_snapshot_id requested_by (some existing) = pure existing
  existing_or_new now review_snapshot_id requested_by none = do
    found ← get_review platform review_snapshot_id
    review ←
        required found (rad "REVIEW_NOT_FOUND" ("Review " <> review_snapshot_id <> " not found"))
    row ← gets (λ db. db.metadata)
    metadata ← required row (rad "SECURITY_CONTEXT_MISSING" "Instance security metadata is missing")
    assert (current_context metadata review) (
        rad "REVIEW_SECURITY_CONTEXT_STALE"
          "Review Snapshot does not match the current security context")
    create_bound (binding ttl_seconds now requested_by review)

  unfoldable pub request : Readings → Uuid → Uuid → Exec Database ApprovalRequest
  unfolding assert_available find_active_by_review existing_or_new
  request now review_snapshot_id requested_by = do
    assert_available "Approval request"
    existing ← gets (find_active_by_review review_snapshot_id)
    existing_or_new now review_snapshot_id requested_by existing

unfoldable pub approve : Uuid → Uuid → Date → Exec Database ApprovalRequest
unfolding assert_available
approve id decided_by now = do
  assert_available "Approval decision"
  Approvals.approve id decided_by now

unfoldable pub deny : Uuid → Uuid → Date → Exec Database ApprovalRequest
deny id decided_by now = Approvals.deny id decided_by now
