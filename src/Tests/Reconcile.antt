-- ===== src/Tests/Reconcile.antt =====
-- The reconciler on concrete data.
use remote_agent_devbox.Common.{
  ◌≡◌, refl, some, [], ◌∷◌, ok, Ensures, find_row, update, returning, exists, select, string_eq,
  nat_eq, ◌>>=◌,
}
use remote_agent_devbox.Schema.Workspace.{Workspace, DesiredWorkspaceState, ObservedWorkspaceState}
use remote_agent_devbox.Workspaces.{get_workspace, set_observed_state}
use remote_agent_devbox.Outbox.{claim_next, mark_succeeded}
use remote_agent_devbox.Lifecycle.{ActualSandboxState, SandboxSupervisor, reconcile}
use remote_agent_devbox.Lifecycle.Goal.{goal, Reached, reconcile-Reached}
use remote_agent_devbox.Coordinator.{Readings, request_through_outbox}
use remote_agent_devbox.Tests.Data.{database, workspace}

-- A supervisor whose sandbox runs, and whose calls succeed.
abbrev steady : SandboxSupervisor
steady = record {
  inspect = λ w db. (ok ActualSandboxState.running, db);
  create = λ w db. (ok tt, db);
  start = λ w db. (ok tt, db);
  stop = λ w db. (ok tt, db);
  destroy = λ w db. (ok tt, db);
}

abbrev outbox_readings : Readings
outbox_readings = record {
  command_id = "command";
  requested_at = 10;
  rounds = λ n. record { claimed_at = 20; succeeded_at = 30; retry_from = 30; failed_at = 30 };
}

-- A workspace that is ready and runs is written again, with the next version.
reconcile_run : reconcile steady "workspace" database ≡ (
  ok (record workspace { state_version = 4 }),
  record database { workspaces = record workspace { state_version = 4 } ∷ [] },
)
unfolding reconcile ◌>>=◌ get_workspace find_row string_eq set_observed_state returning nat_eq
    update
reconcile_run = refl

reconcile-Reached_example :
    Ensures
      (λ v _.
        (w : Workspace) × (get_workspace "workspace" database ≡ some w)
        × Reached w (goal w.desired_state) v)
      (λ _ _. Unit)
      (reconcile steady "workspace")
      database
reconcile-Reached_example = reconcile-Reached steady "workspace" database

-- Stopping the workspace takes three versions.
outbox_run :
    (request_through_outbox steady 5 25 outbox_readings "workspace" DesiredWorkspaceState.stopped
      database).0
    ≡ ok (record workspace {
      desired_state = DesiredWorkspaceState.stopped;
      observed_state = ObservedWorkspaceState.stopped;
      state_version = 6;
    })
unfolding request_through_outbox ◌>>=◌ get_workspace find_row string_eq set_observed_state returning
    nat_eq update exists claim_next select mark_succeeded
outbox_run = refl
