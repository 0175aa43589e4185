-- ===== src/Schema/Database.antt =====
-- The tables. A row that is inserted stands in front: the audit events are numbered and
-- listed by that order.
use remote_agent_devbox.Common.{Option, List}
use remote_agent_devbox.Schema.Workspace.{Repository, Workspace}
use remote_agent_devbox.Schema.Security.{InstanceSecurityMetadata}
use remote_agent_devbox.Schema.Outbox.{OutboxCommand}
use remote_agent_devbox.Schema.Artifact.{GitArtifact, ReviewSnapshot}
use remote_agent_devbox.Schema.Approval.{ApprovalRequest}
use remote_agent_devbox.Schema.Git.{GitOperation, CredentialLease}
use remote_agent_devbox.Schema.Ide.{IdeAccessCode, IdeAccessSession}
use remote_agent_devbox.Schema.Audit.{AuditEvent}
use remote_agent_devbox.Schema.Task.{AgentTask}

-- The primary key of `instance_metadata` has one value, so the table holds at most one row.
pub record Database : Type 0 where
  pub metadata : Option InstanceSecurityMetadata
  pub repositories : List Repository
  pub workspaces : List Workspace
  pub outbox_commands : List OutboxCommand
  pub git_artifacts : List GitArtifact
  pub review_snapshots : List ReviewSnapshot
  pub approval_requests : List ApprovalRequest
  pub git_operations : List GitOperation
  pub credential_leases : List CredentialLease
  pub ide_access_codes : List IdeAccessCode
  pub ide_access_sessions : List IdeAccessSession
  pub agent_tasks : List AgentTask
  pub audit_events : List AuditEvent
