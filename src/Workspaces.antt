-- ===== src/Workspaces.antt =====
-- packages/workspace-state: the repositories and workspaces of `PostgresWorkspaceRepository`
-- (repository.ts). The modules below prove.
pub mod Effects
use remote_agent_devbox.Common.{
  ℕ, ◌+◌, String, ◌<>◌, Bool, not, ◌&&◌, Option, none, some, List, [], ◌∷◌, ltb, ◌==◌, ◌!=◌,
  string_eq, nat_eq, find_row, select, exists, update, returning, Error, rad, other, Exec, pure,
  gets, modify, required, assert, ◌>>=◌, ◌>>◌,
}
use remote_agent_devbox.Schema.Workspace.{
  Uuid, Date, Repository, Workspace, DesiredWorkspaceState, ObservedWorkspaceState, desired_eq,
  observed_eq,
}
use remote_agent_devbox.Schema.Database.{Database}

pub record NewRepository : Type 0 where
  pub id : Uuid
  pub remote_url : String
  pub default_branch : String

pub record NewWorkspace : Type 0 where
  pub id : Uuid
  pub owner_user_id : Uuid
  pub repository_id : Uuid
  pub branch_name : String
  pub expires_at : Date

-- `created_at` is the database's clock.
unfoldable pub create_repository : NewRepository → Date → Exec Database Repository
create_repository input created_at = do
  accepted ← gets (λ db.
      not (exists (λ (r : Repository). r.id == input.id) db.repositories)
      && not (exists (λ (r : Repository). r.remote_url == input.remote_url) db.repositories))
  assert accepted (other "repositories constraint violated")
  modify (λ db. record db { repositories = row ∷ db.repositories })
  pure row
  where
    row : Repository
    row = record {
      id = input.id;
      remote_url = input.remote_url;
      default_branch = input.default_branch;
      created_at = created_at;
    }

unfoldable pub get_repository : Uuid → Database → Option Repository
get_repository id db = find_row (λ r. r.id == id) db.repositories

unfoldable pub find_repository_by_remote_url : String → Database → Option Repository
find_repository_by_remote_url remote_url db =
    find_row (λ r. r.remote_url == remote_url) db.repositories

-- The row of `values({ ...input, desiredState: "RUNNING", observedState: "MISSING", … })`.
unfoldable pub new_row : NewWorkspace → Date → Workspace
new_row input created_at = record {
  id = input.id;
  owner_user_id = input.owner_user_id;
  repository_id = input.repository_id;
  desired_state = DesiredWorkspaceState.running;
  observed_state = ObservedWorkspaceState.missing;
  state_version = 0;
  branch_name = input.branch_name;
  created_at = created_at;
  expires_at = input.expires_at;
  last_error = none;
}

-- The constraints of the table `workspaces` that a new row must meet.
unfoldable pub workspaces_accepts : Database → Workspace → Bool
workspaces_accepts db row =
    not (exists (λ w. w.id == row.id) db.workspaces)
    && exists (λ (r : Repository). r.id == row.repository_id) db.repositories
    && ltb row.created_at row.expires_at

unfoldable pub create_workspace : NewWorkspace → Date → Exec Database Workspace
unfolding new_row workspaces_accepts
create_workspace input created_at = do
  accepted ← gets (λ db. workspaces_accepts db (new_row input created_at))
  assert accepted (other "workspaces constraint violated")
  modify (λ db. record db { workspaces = new_row input created_at ∷ db.workspaces })
  pure (new_row input created_at)

unfoldable pub get_workspace : Uuid → Database → Option Workspace
get_workspace id db = find_row (λ w. w.id == id) db.workspaces

unfoldable pub list_for_reconciliation : Database → List Workspace
unfolding observed_eq
list_for_reconciliation db =
    select (λ w. w.observed_state != ObservedWorkspaceState.destroyed) db.workspaces

-- UPDATE … WHERE id = id AND state_version = expected
abbrev pub at_version : Uuid → ℕ → Workspace → Bool
at_version id expected w = w.id == id && w.state_version == expected

-- `set({ ...values, stateVersion: expectedVersion + 1 })`
unfoldable pub next_version : ℕ → (Workspace → Workspace) → Workspace → Workspace
next_version expected_version values w = record (values w) { state_version = expected_version + 1 }

-- updateState: compare and set on the version
unfoldable pub update_state : Uuid → ℕ → (Workspace → Workspace) → Exec Database Workspace
unfolding next_version
update_state id expected_version values = do
  updated ← gets (λ db.
      returning (at_version id expected_version) (next_version expected_version values)
        db.workspaces)
  modify (λ db. record db {
    workspaces =
        update (at_version id expected_version) (next_version expected_version values)
          db.workspaces;
  })
  required updated
      (rad "WORKSPACE_STATE_CONFLICT" ("Workspace " <> id <> " changed during the operation"))

abbrev pub set_desired : DesiredWorkspaceState → Workspace → Workspace
set_desired desired w = record w { desired_state = desired }

abbrev pub set_observed : ObservedWorkspaceState → Option String → Workspace → Workspace
set_observed observed last_error w = record w { observed_state = observed; last_error = last_error }

unfoldable pub set_desired_state : Uuid → DesiredWorkspaceState → ℕ → Exec Database Workspace
unfolding update_state
set_desired_state id desired_state expected_version =
    update_state id expected_version (set_desired desired_state)

-- Where the code leaves `lastError` out, it is null.
unfoldable pub set_observed_state :
    Uuid → ObservedWorkspaceState → ℕ → Option String → Exec Database Workspace
unfolding update_state
set_observed_state id observed_state expected_version last_error =
    update_state id expected_version (set_observed observed_state last_error)
