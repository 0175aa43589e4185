-- ===== src/Schema/Approval.antt =====
-- Approval requests: packages/approvals/src/approval.ts.
use remote_agent_devbox.Common.{ℕ, Option, Eq}
use remote_agent_devbox.Schema.Workspace.{Uuid, Date}
use remote_agent_devbox.Schema.Artifact.{Sha256Digest}

pub data ApprovalStatus : Type 0 where
  pending approved denied stale : ApprovalStatus

unfoldable pub ApprovalStatus-discrete : Discrete ApprovalStatus
ApprovalStatus-discrete = hlevel

instance unfoldable pub approval_status_eq : Eq ApprovalStatus
unfolding ApprovalStatus-discrete
approval_status_eq = record { dec = ApprovalStatus-discrete }

pub data ApprovalStaleReason : Type 0 where
  expired artifact_changed policy_changed validator_changed : ApprovalStaleReason
  security_posture_changed remote_state_changed : ApprovalStaleReason

-- The operation type is always CREATE_PULL_REQUEST, and is left out.
pub record ApprovalRequest : Type 0 where
  pub id : Uuid
  pub workspace_id : Uuid
  pub review_snapshot_id : Uuid
  pub review_digest : Sha256Digest
  pub validator_profile_digest : Sha256Digest
  pub security_epoch : ℕ
  pub deployment_tier : ℕ
  pub security_posture_hash : Sha256Digest
  pub status : ApprovalStatus
  pub stale_reason : Option ApprovalStaleReason
  pub requested_by : Uuid
  pub requested_at : Date
  pub expires_at : Date
  pub decided_by : Option Uuid
  pub decided_at : Option Date
