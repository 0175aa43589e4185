-- ===== src/Lifecycle/Settled.antt =====
-- Reconciling all workspaces never throws.
use remote_agent_devbox.Common.{
  ◌≡◌, List, [], ◌∷◌, ok, Ensures, Ensures_returns, on_gets, on_ensured, end_pure, end_catch,
  anything,
}
use remote_agent_devbox.Schema.Workspace.{Workspace}
use remote_agent_devbox.Schema.Database.{Database}
use remote_agent_devbox.Lifecycle.{SandboxSupervisor, settle_all, reconcile_all}

settles :
    (supervisor : SandboxSupervisor) (ws : List Workspace) (db : Database)
    → Ensures (λ _ _. Unit {0}) (λ _ _. ⊥) (settle_all supervisor ws) db
unfolding settle_all
settles supervisor [] db = end_pure tt tt
settles supervisor (w ∷ ws) db =
    on_ensured _ _ (λ _ _. Unit {0}) (λ _ _. ⊥)
      (end_catch _ _ (anything _ db) λ e t _. end_pure tt tt) (λ _ _ none_here. none_here)
      λ _ t _. settles supervisor ws t

-- Whatever the supervisor does, reconciling all workspaces returns.
pub reconcile_all_returns :
    (supervisor : SandboxSupervisor) (db : Database)
    → (u : Database) × (reconcile_all supervisor db ≡ (ok tt, u))
unfolding reconcile_all
reconcile_all_returns supervisor db =
    let (_, u, e) =
      Ensures_returns (reconcile_all supervisor) db (on_gets _ _ (settles supervisor _ db)) in
    (u, e)
