-- ===== src/Schema/Audit.antt =====
-- Audit events: packages/audit-events/src/event.ts.
use remote_agent_devbox.Common.{ℕ, String, Bool, Option, List}
use remote_agent_devbox.Schema.Workspace.{Uuid, Date}

pub data AuditSeverity : Type 0 where
  info warning high critical : AuditSeverity

-- A detail is a text, a whole number, a truth value or null.
pub data AuditDetail : Type 0 where
  text : String → AuditDetail
  number : ℕ → AuditDetail
  bool : Bool → AuditDetail
  null : AuditDetail

pub record NewAuditEvent : Type 0 where
  pub id : Uuid
  pub event_type : String
  pub severity : AuditSeverity
  pub actor_id : Option Uuid
  pub subject_type : String
  pub subject_id : Option String
  pub security_epoch : ℕ
  pub deployment_tier : ℕ
  pub details : List (String × AuditDetail)
  pub occurred_at : Date

-- The database numbers the events in the order in which they are appended.
pub record AuditEvent : Type 0 where
  pub sequence : ℕ
  pub event : NewAuditEvent
