-- ===== src/Lifecycle.antt =====
-- packages/workspace-state/src/lifecycle.ts: `WorkspaceReconciler`. The sandbox supervisor is a
-- parameter. Each of its calls is an action on the database, since other requests may be answered
-- while it runs.
pub mod Goal
pub mod Settled
use remote_agent_devbox.Common.{
  ◌<>◌, Option, none, some, find_row, rad, message, slice_to, Exec, pure, raise, gets, required,
  catch, ◌>>=◌, ◌>>◌, List, [], ◌∷◌,
}
use remote_agent_devbox.Schema.Workspace.{
  Uuid, Workspace, DesiredWorkspaceState, ObservedWorkspaceState,
}
use remote_agent_devbox.Schema.Database.{Database}
use remote_agent_devbox.Workspaces.{get_workspace, list_for_reconciliation, set_observed_state}

pub data ActualSandboxState : Type 0 where
  absent stopped starting running : ActualSandboxState

pub record SandboxSupervisor : Type 0 where
  pub inspect : Workspace → Exec Database ActualSandboxState
  pub create : Workspace → Exec Database (Unit {0})
  pub start : Workspace → Exec Database (Unit {0})
  pub stop : Workspace → Exec Database (Unit {0})
  pub destroy : Workspace → Exec Database (Unit {0})

unfoldable pub observe : Workspace → ObservedWorkspaceState → Exec Database Workspace
observe workspace observed_state =
    set_observed_state workspace.id observed_state workspace.state_version none

unfoldable pub require_workspace : Uuid → Exec Database Workspace
require_workspace workspace_id = do
  row ← gets (get_workspace workspace_id)
  required row (rad "WORKSPACE_NOT_FOUND" ("Workspace " <> workspace_id <> " not found"))

module _ (supervisor : SandboxSupervisor) where
  -- From `workspace = await this.observe(workspace, "STARTING")` on.
  unfoldable pub start_observed : Workspace → Exec Database Workspace
  unfolding observe
  start_observed workspace = do
    started ← observe workspace ObservedWorkspaceState.starting
    supervisor.start started
    observe started ObservedWorkspaceState.ready

  unfoldable pub ensure_running : Workspace → ActualSandboxState → Exec Database Workspace
  unfolding start_observed
  ensure_running workspace ActualSandboxState.running =
      observe workspace ObservedWorkspaceState.ready
  ensure_running workspace ActualSandboxState.absent = do
    provisioning ← observe workspace ObservedWorkspaceState.provisioning
    supervisor.create provisioning
    start_observed provisioning
  ensure_running workspace _ = start_observed workspace

  unfoldable pub ensure_stopped :
      Workspace → ObservedWorkspaceState → ObservedWorkspaceState → Exec Database Workspace
  unfolding observe
  ensure_stopped workspace target transition = do
    transitioning ← observe workspace transition
    supervisor.stop transitioning
    observe transitioning target

  unfoldable pub ensure_destroyed : Workspace → ActualSandboxState → Exec Database Workspace
  unfolding observe
  ensure_destroyed workspace ActualSandboxState.absent =
      observe workspace ObservedWorkspaceState.destroyed
  ensure_destroyed workspace _ = do
    destroying ← observe workspace ObservedWorkspaceState.destroying
    supervisor.destroy destroying
    observe destroying ObservedWorkspaceState.destroyed

  -- The `switch` of `converge`.
  unfoldable pub ensure :
      DesiredWorkspaceState → Workspace → ActualSandboxState → Exec Database Workspace
  unfolding ensure_running ensure_stopped ensure_destroyed
  ensure DesiredWorkspaceState.running workspace actual = ensure_running workspace actual
  ensure DesiredWorkspaceState.suspended workspace actual =
      ensure_stopped workspace ObservedWorkspaceState.suspended ObservedWorkspaceState.suspending
  ensure DesiredWorkspaceState.stopped workspace actual =
      ensure_stopped workspace ObservedWorkspaceState.stopped ObservedWorkspaceState.stopping
  ensure DesiredWorkspaceState.destroyed workspace actual = ensure_destroyed workspace actual

  unfoldable pub converge : Workspace → Exec Database Workspace
  unfolding ensure
  converge workspace = do
    actual ← supervisor.inspect workspace
    ensure workspace.desired_state workspace actual

  unfoldable pub reconcile : Uuid → Exec Database Workspace
  unfolding require_workspace converge
  reconcile workspace_id = do
    workspace ← require_workspace workspace_id
    catch (converge workspace) (λ error. do
      current ← require_workspace workspace_id
      set_observed_state current.id ObservedWorkspaceState.failed current.state_version
          (some (slice_to 2000 (message error)))
      raise (rad "WORKSPACE_RECONCILE_FAILED" (message error)))

  -- `Promise.allSettled(candidates.map((workspace) => this.reconcile(workspace.id)))`, one after
  -- the other: what runs between the steps of one is among the actions of the supervisor's calls.
  unfoldable pub settle_all : List Workspace → Exec Database (Unit {0})
  unfolding reconcile
  settle_all [] = pure tt
  settle_all (w ∷ ws) = do catch (reconcile w.id >>= λ _. pure tt) (λ _. pure tt); settle_all ws

  unfoldable pub reconcile_all : Exec Database (Unit {0})
  unfolding list_for_reconciliation settle_all
  reconcile_all = do candidates ← gets list_for_reconciliation; settle_all candidates
