-- ===== src/Schema/Git.antt =====
-- Git operations and credential leases: packages/git-operations/src/operation.ts.
use remote_agent_devbox.Common.{ℕ, String, Option, Eq}
use remote_agent_devbox.Schema.Workspace.{Uuid, Date}
use remote_agent_devbox.Schema.Artifact.{Sha256Digest}

pub data GitOperationState : Type 0 where
  pending validating waiting_credential pushing : GitOperationState
  succeeded failed conflict cancelled stale : GitOperationState

pub data CredentialLeaseState : Type 0 where
  reserved issued consumed expired failed uncertain : CredentialLeaseState

unfoldable pub GitOperationState-discrete : Discrete GitOperationState
GitOperationState-discrete = hlevel

unfoldable pub CredentialLeaseState-discrete : Discrete CredentialLeaseState
CredentialLeaseState-discrete = hlevel

instance unfoldable pub git_state_eq : Eq GitOperationState
unfolding GitOperationState-discrete
git_state_eq = record { dec = GitOperationState-discrete }

instance unfoldable pub lease_state_eq : Eq CredentialLeaseState
unfolding CredentialLeaseState-discrete
lease_state_eq = record { dec = CredentialLeaseState-discrete }

pub record GitOperation : Type 0 where
  pub id : Uuid
  pub workspace_id : Uuid
  pub repository_id : Uuid
  pub review_snapshot_id : Uuid
  pub approval_id : Uuid
  pub branch_name : String
  pub target_commit : String
  pub expected_remote_head : Option String
  pub review_digest : Sha256Digest
  pub validator_profile_digest : Sha256Digest
  pub security_epoch : ℕ
  pub state : GitOperationState
  pub stale_reason : Option String
  pub error_code : Option String
  pub error_message : Option String
  pub pull_request_number : Option ℕ
  pub pull_request_url : Option String
  pub created_at : Date
  pub started_at : Option Date
  pub completed_at : Option Date

pub record CredentialLease : Type 0 where
  pub id : Uuid
  pub operation_id : Uuid
  pub repository_id : Uuid
  pub security_epoch : ℕ
  pub state : CredentialLeaseState
  pub issued_at : Option Date
  pub expires_at : Option Date
  pub consumed_at : Option Date
  pub failure_reason : Option String
  pub created_at : Date
