-- ===== src/Tests/Queue.antt =====
-- The outbox, the workspaces, the tasks and the instance's metadata on concrete data.
use remote_agent_devbox.Common.{
  ℕ, ◌≡◌, refl, none, some, [], ◌∷◌, Ensures, Exec, ok, err, other, find_row, update, string_eq,
}
use remote_agent_devbox.Schema.Workspace.{DesiredWorkspaceState}
use remote_agent_devbox.Schema.Outbox.{
  OutboxCommand, OutboxCommandType, OutboxCommandState, outbox_state_eq,
}
use remote_agent_devbox.Schema.Database.{Database}
use remote_agent_devbox.Outbox.{processing_with}
use remote_agent_devbox.Outbox.Dispatcher.{Readings, dispatch_command, dispatch_available}
use remote_agent_devbox.Outbox.Settles.{
  settled_by, Drained, dispatch_command_settles, dispatch_available-Drained,
}
use remote_agent_devbox.Tests.Data.{database}

abbrev queued : Database
queued = record database {
  outbox_commands =
      record {
        id = "command";
        aggregate_id = "workspace";
        command_type = OutboxCommandType.stop;
        payload = DesiredWorkspaceState.stopped;
        state = OutboxCommandState.pending;
        attempts = 0;
        last_error = none;
        created_at = 50;
        available_at = 50;
        processed_at = none;
      }
      ∷ [];
}

-- A handler that throws and writes nothing.
abbrev failing : OutboxCommand → Exec Database (Unit {0})
failing command db = (err (other "docker is down"), db)

abbrev readings : ℕ → Readings
readings n = record { claimed_at = 60; succeeded_at = 61; retry_from = 62; failed_at = 63 }

-- The command of `queued`, in its fourth attempt.
abbrev fourth : OutboxCommand
fourth = record {
  id = "command";
  aggregate_id = "workspace";
  command_type = OutboxCommandType.stop;
  payload = DesiredWorkspaceState.stopped;
  state = OutboxCommandState.processing;
  attempts = 4;
  last_error = none;
  created_at = 50;
  available_at = 50;
  processed_at = none;
}

abbrev running : Database
running = record database { outbox_commands = fourth ∷ [] }

fourth_row : find_row (processing_with "command") running.outbox_commands ≡ some fourth
unfolding find_row string_eq outbox_state_eq
fourth_row = refl

dispatch_command_settles_example : dispatch_command failing 5 (readings 0) fourth running ≡ (
  ok tt,
  record running {
    outbox_commands =
        update
          (processing_with "command")
          (settled_by 5 (readings 0) fourth (err (other "docker is down")))
          running.outbox_commands;
  },
)
dispatch_command_settles_example =
    dispatch_command_settles failing 5 (readings 0) fourth running fourth_row

dispatch_available-Drained_example :
    Ensures (Drained readings 0 25) (λ _ _. ⊥) (dispatch_available failing 5 readings 25) queued
dispatch_available-Drained_example =
    dispatch_available-Drained failing 5 (λ _ _. refl) readings 25 queued
