-- ===== src/Schema/Task.antt =====
-- Agent tasks: packages/agents/src/task.ts.
use remote_agent_devbox.Common.{String, Option, Eq}
use remote_agent_devbox.Schema.Workspace.{Uuid, Date}

pub data TaskStatus : Type 0 where
  pending running completed failed : TaskStatus

unfoldable pub TaskStatus-discrete : Discrete TaskStatus
TaskStatus-discrete = hlevel

instance unfoldable pub task_status_eq : Eq TaskStatus
unfolding TaskStatus-discrete
task_status_eq = record { dec = TaskStatus-discrete }

pub record AgentTask : Type 0 where
  pub id : Uuid
  pub workspace_id : Uuid
  pub requested_by : String
  pub prompt : String
  pub status : TaskStatus
  pub result : Option String
  pub error : Option String
  pub created_at : Date
  pub started_at : Option Date
  pub completed_at : Option Date
