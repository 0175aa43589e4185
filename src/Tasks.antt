-- ===== src/Tasks.antt =====
-- packages/agents: `PostgresAgentTaskRepository` of task-repository.ts. The modules below prove.
pub mod Effects
use remote_agent_devbox.Common.{
  String, ◌<>◌, Bool, not, ◌&&◌, Option, none, some, List, [], ◌∷◌, ◌==◌, string_eq, find_row,
  exists, update, returning, Error, rad, other, Exec, pure, gets, modify, required, assert, ◌>>=◌,
  ◌>>◌,
}
use remote_agent_devbox.Schema.Workspace.{Uuid, Date}
use remote_agent_devbox.Schema.Task.{AgentTask, TaskStatus, task_status_eq}
use remote_agent_devbox.Schema.Database.{Database}

pub record NewAgentTask : Type 0 where
  pub id : Uuid
  pub workspace_id : Uuid
  pub requested_by : String
  pub prompt : String

unfoldable pub new_row : NewAgentTask → Date → AgentTask
new_row input created_at = record {
  id = input.id;
  workspace_id = input.workspace_id;
  requested_by = input.requested_by;
  prompt = input.prompt;
  status = TaskStatus.pending;
  result = none;
  error = none;
  created_at = created_at;
  started_at = none;
  completed_at = none;
}

-- `created_at` is the database's clock.
unfoldable pub create : NewAgentTask → Date → Exec Database AgentTask
unfolding new_row
create input created_at = do
  accepted ← gets (λ db. not (exists (λ t. t.id == input.id) db.agent_tasks))
  assert accepted (other "agent_tasks constraint violated")
  modify (λ db. record db { agent_tasks = new_row input created_at ∷ db.agent_tasks })
  pure (new_row input created_at)

unfoldable pub get : Uuid → Database → Option AgentTask
get id db = find_row (λ t. t.id == id) db.agent_tasks

abbrev status_text : TaskStatus → String
status_text TaskStatus.pending = "PENDING"
status_text TaskStatus.running = "RUNNING"
status_text TaskStatus.completed = "COMPLETED"
status_text TaskStatus.failed = "FAILED"

-- UPDATE … WHERE id = id AND status = expected
abbrev in_status : Uuid → TaskStatus → AgentTask → Bool
in_status id expected t = t.id == id && t.status == expected

unfoldable pub transition : Uuid → TaskStatus → (AgentTask → AgentTask) → Exec Database AgentTask
unfolding task_status_eq
transition id expected set_values = do
  updated ← gets (λ db. returning (in_status id expected) set_values db.agent_tasks)
  modify
      (λ db. record db { agent_tasks = update (in_status id expected) set_values db.agent_tasks })
  required updated
      (rad "TASK_STATE_CONFLICT" ("Task " <> id <> " is no longer " <> status_text expected))

-- `now` is `new Date()`.
unfoldable pub mark_running : Uuid → Date → Exec Database AgentTask
unfolding transition
mark_running id now =
    transition id TaskStatus.pending
      (λ t. record t { started_at = some now; error = none; status = TaskStatus.running })

unfoldable pub mark_completed : Uuid → String → Date → Exec Database AgentTask
unfolding transition
mark_completed id result now = transition id TaskStatus.running (λ t. record t {
  result = some result;
  completed_at = some now;
  error = none;
  status = TaskStatus.completed;
})

unfoldable pub mark_failed : Uuid → String → Date → Exec Database AgentTask
unfolding transition
mark_failed id error now =
    transition id TaskStatus.running
      (λ t. record t { error = some error; completed_at = some now; status = TaskStatus.failed })
