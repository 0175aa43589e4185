-- ===== src/Schema/Ide.antt =====
-- IDE access codes and sessions: the tables of packages/ide-access/src/repository.ts.
use remote_agent_devbox.Common.{ℕ, String, Option}
use remote_agent_devbox.Schema.Workspace.{Uuid, Date}

pub record IdeAccessCode : Type 0 where
  pub id : Uuid
  pub workspace_id : Uuid
  pub code_digest : String
  pub deployment_tier : ℕ
  pub security_epoch : ℕ
  pub workspace_state_version : ℕ
  pub created_at : Date
  pub expires_at : Date
  pub consumed_at : Option Date
  pub invalidated_at : Option Date

pub record IdeAccessSession : Type 0 where
  pub id : Uuid
  pub workspace_id : Uuid
  pub session_digest : String
  pub deployment_tier : ℕ
  pub security_epoch : ℕ
  pub workspace_state_version : ℕ
  pub created_at : Date
  pub expires_at : Date
  pub revoked_at : Option Date
