-- ===== src/Coordinator.antt =====
-- apps/control/src/workspace/outbox-coordinator.ts: the handler of outbox commands and the coordinator.
use remote_agent_devbox.Common.{ℕ, Option, none, some, Exec, pure, gets, ◌>>=◌, ◌>>◌}
use remote_agent_devbox.Schema.Workspace.{Uuid, Date, Workspace, DesiredWorkspaceState}
use remote_agent_devbox.Schema.Outbox.{OutboxCommand}
use remote_agent_devbox.Schema.Database.{Database}
use remote_agent_devbox.Workspaces.{get_workspace}
use remote_agent_devbox.Outbox.{request_workspace_state}
use remote_agent_devbox.Outbox.Dispatcher
use remote_agent_devbox.Outbox.Dispatcher.{dispatch_available}
use remote_agent_devbox.Lifecycle.{SandboxSupervisor, reconcile}

-- What `randomUUID()` and each `now()` return, here and in the dispatcher.
pub record Readings : Type 0 where
  pub command_id : Uuid
  pub requested_at : Date
  pub rounds : ℕ → Dispatcher.Readings

-- `found ?? requested.workspace`
abbrev or_requested : Option Workspace → Workspace → Workspace
or_requested none requested = requested
or_requested (some found) requested = found

module _ (supervisor : SandboxSupervisor) where
  -- WorkspaceOutboxHandler
  unfoldable pub handle : OutboxCommand → Exec Database (Unit {0})
  unfolding reconcile
  handle command = reconcile supervisor command.aggregate_id >>= λ _. pure tt

  -- OutboxWorkspaceCoordinator, whose dispatcher has these bounds of attempts and commands
  unfoldable pub request_through_outbox :
      ℕ → ℕ → Readings → Uuid → DesiredWorkspaceState → Exec Database Workspace
  unfolding handle request_workspace_state dispatch_available get_workspace
  request_through_outbox maximum_attempts limit now workspace_id desired = do
    requested ← request_workspace_state now.command_id workspace_id desired now.requested_at
    dispatch_available handle maximum_attempts now.rounds limit
    found ← gets (get_workspace workspace_id)
    pure (or_requested found requested.0)
