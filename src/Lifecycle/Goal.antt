-- ===== src/Lifecycle/Goal.antt =====
-- The states that packages/workspace-state/src/lifecycle.ts leads to.
use remote_agent_devbox.Common.{
  ◌<◌, ◌≡◌, ◌∙◌, refl, none, some, string_eq, nat_eq, find_row_holds, arith, Ensures, on_gets,
  on_ensured, on_any, end_catch, end_raise, end_required, Exec, ◌>>=◌, ◌>>◌, Ensures-weaken,
}
use remote_agent_devbox.Schema.Workspace.{
  Uuid, Workspace, DesiredWorkspaceState, ObservedWorkspaceState,
}
use remote_agent_devbox.Schema.Database.{Database}
use remote_agent_devbox.Workspaces.{get_workspace, next_version}
use remote_agent_devbox.Workspaces.Effects.{set_observed_state-Updated}
use remote_agent_devbox.Lifecycle.{
  ActualSandboxState, SandboxSupervisor, observe, require_workspace, start_observed, ensure_running,
  ensure_stopped, ensure_destroyed, ensure, converge, reconcile,
}

-- The observed state that a desired state asks for.
abbrev pub goal : DesiredWorkspaceState → ObservedWorkspaceState
goal DesiredWorkspaceState.running = ObservedWorkspaceState.ready
goal DesiredWorkspaceState.suspended = ObservedWorkspaceState.suspended
goal DesiredWorkspaceState.stopped = ObservedWorkspaceState.stopped
goal DesiredWorkspaceState.destroyed = ObservedWorkspaceState.destroyed

-- A later version of the workspace, in the observed state.
pub record Reached (w : Workspace) (observed : ObservedWorkspaceState) (v : Workspace)
    : Type 0 where
  pub same : v.id ≡ w.id
  pub state : v.observed_state ≡ observed
  pub later : w.state_version < v.state_version

abbrev Reaches : Workspace → ObservedWorkspaceState → Workspace → Database → Type 0
Reaches w observed v _ = Reached w observed v

observe-Reached :
    (w : Workspace) (observed : ObservedWorkspaceState) (db : Database)
    → Ensures (Reaches w observed) (λ _ _. Unit) (observe w observed) db
unfolding observe next_version
observe-Reached w observed db =
    Ensures-weaken _ _
      (λ v t (x, found, made, _).
        let hit = find_row_holds _ db.workspaces found in
        record { same = ground (arith, hit); state = rw made refl; later = rw made (omega arith) })
      (λ _ _ _. tt) (set_observed_state-Updated w.id w.state_version db observed none)

further :
    {a b c : Workspace} {between observed : ObservedWorkspaceState}
    → Reached a between b
    → Reached b observed c
    → Reached a observed c
further r q =
    let h = r.later in
    let k = q.later in record { same = q.same ∙ r.same; state = q.state; later = omega arith }

-- After what was reached, the rest goes on from there.
after :
    {w v : Workspace} {between observed : ObservedWorkspaceState} {t : Database}
    (m : Exec Database Workspace)
    → Reached w between v
    → Ensures (Reaches v observed) (λ _ _. Unit) m t
    → Ensures (Reaches w observed) (λ _ _. Unit) m t
after m r = Ensures-weaken m _ (λ _ _ q. further r q) (λ _ _ _. tt)

module _ (supervisor : SandboxSupervisor) where
  start_observed-Reached :
      (w : Workspace) (db : Database)
      → Ensures
          (Reaches w ObservedWorkspaceState.ready)
          (λ _ _. Unit)
          (start_observed supervisor w)
          db
  unfolding start_observed
  start_observed-Reached w db =
      on_ensured _ _ _ _ (observe-Reached w ObservedWorkspaceState.starting db) (λ _ _ _. tt)
        λ v t r.
          on_any _ _ (λ _ _. tt) λ _ u. after _ r (observe-Reached v ObservedWorkspaceState.ready u)

  ensure_running-Reached :
      (w : Workspace) (actual : ActualSandboxState) (db : Database)
      → Ensures
          (Reaches w ObservedWorkspaceState.ready)
          (λ _ _. Unit)
          (ensure_running supervisor w actual)
          db
  unfolding ensure_running
  ensure_running-Reached w ActualSandboxState.running db =
      observe-Reached w ObservedWorkspaceState.ready db
  ensure_running-Reached w ActualSandboxState.absent db =
      on_ensured _ _ _ _ (observe-Reached w ObservedWorkspaceState.provisioning db) (λ _ _ _. tt)
        λ v t r. on_any _ _ (λ _ _. tt) λ _ u. after _ r (start_observed-Reached v u)
  ensure_running-Reached w ActualSandboxState.stopped db = start_observed-Reached w db
  ensure_running-Reached w ActualSandboxState.starting db = start_observed-Reached w db

  ensure_stopped-Reached :
      (w : Workspace) (target transition : ObservedWorkspaceState) (db : Database)
      → Ensures (Reaches w target) (λ _ _. Unit) (ensure_stopped supervisor w target transition) db
  unfolding ensure_stopped
  ensure_stopped-Reached w target transition db =
      on_ensured _ _ _ _ (observe-Reached w transition db) (λ _ _ _. tt)
        λ v t r. on_any _ _ (λ _ _. tt) λ _ u. after _ r (observe-Reached v target u)

  destroyed_after :
      (w : Workspace) (db : Database)
      → Ensures
          (Reaches w ObservedWorkspaceState.destroyed)
          (λ _ _. Unit)
          (observe w ObservedWorkspaceState.destroying >>= λ v.
            supervisor.destroy v >> observe v ObservedWorkspaceState.destroyed)
          db
  destroyed_after w db =
      on_ensured _ _ _ _ (observe-Reached w ObservedWorkspaceState.destroying db) (λ _ _ _. tt)
        λ v t r.
          on_any _ _ (λ _ _. tt)
            λ _ u. after _ r (observe-Reached v ObservedWorkspaceState.destroyed u)

  destroying-Reached :
      (w : Workspace) (actual : ActualSandboxState) (db : Database)
      → Ensures
          (Reaches w ObservedWorkspaceState.destroyed)
          (λ _ _. Unit)
          (ensure_destroyed supervisor w actual)
          db
  unfolding ensure_destroyed
  destroying-Reached w ActualSandboxState.absent db =
      observe-Reached w ObservedWorkspaceState.destroyed db
  destroying-Reached w ActualSandboxState.stopped db = destroyed_after w db
  destroying-Reached w ActualSandboxState.starting db = destroyed_after w db
  destroying-Reached w ActualSandboxState.running db = destroyed_after w db

  ensure-Reached :
      (w : Workspace) (desired : DesiredWorkspaceState) (actual : ActualSandboxState)
      (db : Database)
      → Ensures (Reaches w (goal desired)) (λ _ _. Unit) (ensure supervisor desired w actual) db
  unfolding ensure
  ensure-Reached w DesiredWorkspaceState.running actual db = ensure_running-Reached w actual db
  ensure-Reached w DesiredWorkspaceState.suspended actual db =
      ensure_stopped-Reached w ObservedWorkspaceState.suspended ObservedWorkspaceState.suspending db
  ensure-Reached w DesiredWorkspaceState.stopped actual db =
      ensure_stopped-Reached w ObservedWorkspaceState.stopped ObservedWorkspaceState.stopping db
  ensure-Reached w DesiredWorkspaceState.destroyed actual db = destroying-Reached w actual db

  -- Whatever the supervisor does and whatever else happens while it runs, a workspace that
  -- reconciling returns is a later version of the one that was there, in the observed state that
  -- the desired state of that one asks for.
  pub reconcile-Reached :
      (id : Uuid) (db : Database)
      → Ensures
          (λ v _.
            (w : Workspace) × (get_workspace id db ≡ some w) × Reached w (goal w.desired_state) v)
          (λ _ _. Unit)
          (reconcile supervisor id)
          db
  unfolding reconcile require_workspace converge
  reconcile-Reached id db =
      on_ensured _ _ (λ w t. (t ≡ db) × (get_workspace id db ≡ some w)) (λ _ _. Unit)
        (on_gets _ _ (end_required _ _ (λ _. tt) λ w e. (refl, e))) (λ _ _ _. tt)
        λ w t (_, e).
          end_catch _ _
            (on_any _ _ (λ _ _. tt)
              λ actual u.
                Ensures-weaken _ _ (λ v _ r. (w, e, r)) (λ _ _ x. x)
                  (ensure-Reached w w.desired_state actual u))
            (λ error u _.
              on_any _ _ (λ _ _. tt) λ current v. on_any _ _ (λ _ _. tt) λ _ x. end_raise _ tt)
