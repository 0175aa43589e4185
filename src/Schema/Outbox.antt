-- ===== src/Schema/Outbox.antt =====
-- The commands of the outbox: packages/outbox/src/command.ts.
use remote_agent_devbox.Common.{ℕ, String, Option, Eq}
use remote_agent_devbox.Schema.Workspace.{Uuid, Date, DesiredWorkspaceState}

pub data OutboxCommandType : Type 0 where
  provision start suspend stop destroy : OutboxCommandType

pub data OutboxCommandState : Type 0 where
  pending processing succeeded failed : OutboxCommandState

unfoldable pub OutboxCommandState-discrete : Discrete OutboxCommandState
OutboxCommandState-discrete = hlevel

instance unfoldable pub outbox_state_eq : Eq OutboxCommandState
unfolding OutboxCommandState-discrete
outbox_state_eq = record { dec = OutboxCommandState-discrete }

-- The payload is the desired state; the aggregate is always a workspace.
pub record OutboxCommand : Type 0 where
  pub id : Uuid
  pub aggregate_id : Uuid
  pub command_type : OutboxCommandType
  pub payload : DesiredWorkspaceState
  pub state : OutboxCommandState
  pub attempts : ℕ
  pub last_error : Option String
  pub created_at : Date
  pub available_at : Date
  pub processed_at : Option Date
