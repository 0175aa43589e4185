-- ===== src/Schema/Security.antt =====
-- The instance's security metadata (packages/workspace-state/src/repository.ts and schema.ts).
use remote_agent_devbox.Common.{ℕ, String, Bool, Option}
use remote_agent_devbox.Schema.Workspace.{Date}

pub record InstanceSecurityMetadata : Type 0 where
  pub deployment_tier : ℕ
  pub security_epoch : ℕ
  pub security_posture_hash : String
  pub maintenance_mode : Bool
  pub maintenance_reason : Option String
  pub maintenance_started_at : Option Date
  pub updated_at : Date
