-- ===== src/Workspaces/Effects.antt =====
-- What the operations on workspaces do to the database, on every branch.
use remote_agent_devbox.Common.{
  ℕ, ◌≡◌, refl, true, ◌∷◌, Option, String, Ensures, Swapped, on_gets, on_assert, on_modify,
  end_pure, end_swap,
}
use remote_agent_devbox.Schema.Workspace.{
  Uuid, Date, Workspace, DesiredWorkspaceState, ObservedWorkspaceState,
}
use remote_agent_devbox.Schema.Database.{Database}
use remote_agent_devbox.Workspaces.{
  NewRepository, create_repository, NewWorkspace, new_row, workspaces_accepts, create_workspace,
  at_version, next_version, update_state, set_desired, set_observed, set_desired_state,
  set_observed_state,
}

-- The row at the expected version is written, and its version goes up by one.
abbrev pub Updated : Uuid → ℕ → (Workspace → Workspace) → Database → Workspace → Database → Type 0
Updated id version values db =
    Swapped (λ d. d.workspaces) (λ rows d. record d { workspaces = rows }) (at_version id version)
      (next_version version values) db

module _ (id : Uuid) (version : ℕ) (db : Database) where
  update_state-Updated :
      (values : Workspace → Workspace)
      → Ensures
          (Updated id version values db)
          (λ _ db'. db' ≡ db)
          (update_state id version values)
          db
  unfolding update_state
  update_state-Updated values =
      end_swap (λ d. d.workspaces) (λ rows d. record d { workspaces = rows }) (λ _. refl) _ _ _ db

  pub set_desired_state-Updated :
      (desired : DesiredWorkspaceState)
      → Ensures
          (Updated id version (set_desired desired) db)
          (λ _ db'. db' ≡ db)
          (set_desired_state id desired version)
          db
  unfolding set_desired_state
  set_desired_state-Updated desired = update_state-Updated (set_desired desired)

  -- An observed state is written only over the version of the workspace that is named, and the
  -- version then goes up by one; otherwise the call throws and nothing has changed.
  pub set_observed_state-Updated :
      (observed : ObservedWorkspaceState) (last_error : Option String)
      → Ensures
          (Updated id version (set_observed observed last_error) db)
          (λ _ db'. db' ≡ db)
          (set_observed_state id observed version last_error)
          db
  unfolding set_observed_state
  set_observed_state-Updated observed last_error =
      update_state-Updated (set_observed observed last_error)

pub create_workspace_effect :
    (input : NewWorkspace) (at : Date) (db : Database)
    → Ensures
        (λ w db'.
          (w ≡ new_row input at)
          × (workspaces_accepts db w ≡ true)
          × (db' ≡ record db { workspaces = w ∷ db.workspaces }))
        (λ _ db'. db' ≡ db)
        (create_workspace input at)
        db
unfolding create_workspace
create_workspace_effect input at db =
    on_gets _ _
      (on_assert _ _ _ (λ _. refl) λ accepted. on_modify _ _ (end_pure _ (refl, accepted, refl)))

pub create_repository_effect :
    (input : NewRepository) (at : Date) (db : Database)
    → Ensures
        (λ r db'. db' ≡ record db { repositories = r ∷ db.repositories })
        (λ _ db'. db' ≡ db)
        (create_repository input at)
        db
unfolding create_repository
create_repository_effect input at db =
    on_gets _ _ (on_assert _ _ _ (λ _. refl) λ accepted. on_modify _ _ (end_pure _ refl))
