-- ===== src/Tasks/Effects.antt =====
-- What the operations on agent tasks do to the database, on every branch.
use remote_agent_devbox.Common.{
  ◌≡◌, refl, some, none, String, ◌∷◌, Ensures, Swapped, on_gets, on_assert, on_modify, end_pure,
  end_swap,
}
use remote_agent_devbox.Schema.Workspace.{Uuid, Date}
use remote_agent_devbox.Schema.Task.{AgentTask, TaskStatus}
use remote_agent_devbox.Schema.Database.{Database}
use remote_agent_devbox.Tasks.{
  NewAgentTask, new_row, create, in_status, transition, mark_running, mark_completed, mark_failed,
}

abbrev pub Moved :
    Uuid → TaskStatus → (AgentTask → AgentTask) → Database → AgentTask → Database → Type 0
Moved id from f db =
    Swapped (λ d. d.agent_tasks) (λ rows d. record d { agent_tasks = rows }) (in_status id from) f
      db

abbrev pub started : Date → AgentTask → AgentTask
started now t = record t { started_at = some now; error = none; status = TaskStatus.running }

abbrev pub completed : String → Date → AgentTask → AgentTask
completed result now t = record t {
  result = some result;
  completed_at = some now;
  error = none;
  status = TaskStatus.completed;
}

abbrev pub failed : String → Date → AgentTask → AgentTask
failed error now t = record t {
  error = some error;
  completed_at = some now;
  status = TaskStatus.failed;
}

module _ (id : Uuid) (now : Date) (db : Database) where
  transition-Moved :
      (from : TaskStatus) (f : AgentTask → AgentTask)
      → Ensures (Moved id from f db) (λ _ db'. db' ≡ db) (transition id from f) db
  unfolding transition
  transition-Moved from f =
      end_swap (λ d. d.agent_tasks) (λ rows d. record d { agent_tasks = rows }) (λ _. refl) _ _ _ db

  pub mark_running-Moved :
      Ensures
        (Moved id TaskStatus.pending (started now) db)
        (λ _ db'. db' ≡ db)
        (mark_running id now)
        db
  unfolding mark_running
  mark_running-Moved = transition-Moved TaskStatus.pending (started now)

  pub mark_completed-Moved :
      (result : String)
      → Ensures
          (Moved id TaskStatus.running (completed result now) db)
          (λ _ db'. db' ≡ db)
          (mark_completed id result now)
          db
  unfolding mark_completed
  mark_completed-Moved result = transition-Moved TaskStatus.running (completed result now)

  pub mark_failed-Moved :
      (error : String)
      → Ensures
          (Moved id TaskStatus.running (failed error now) db)
          (λ _ db'. db' ≡ db)
          (mark_failed id error now)
          db
  unfolding mark_failed
  mark_failed-Moved error = transition-Moved TaskStatus.running (failed error now)

pub create_effect :
    (input : NewAgentTask) (at : Date) (db : Database)
    → Ensures
        (λ t db'. (t ≡ new_row input at) × (db' ≡ record db { agent_tasks = t ∷ db.agent_tasks }))
        (λ _ db'. db' ≡ db)
        (create input at)
        db
unfolding create
create_effect input at db =
    on_gets _ _ (on_assert _ _ _ (λ _. refl) λ accepted. on_modify _ _ (end_pure _ (refl, refl)))
