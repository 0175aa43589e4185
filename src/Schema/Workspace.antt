-- ===== src/Schema/Workspace.antt =====
-- Repositories and workspaces: packages/shared/src/workspace.ts and the tables of
-- packages/workspace-state/src/schema.ts.
use remote_agent_devbox.Common.{ℕ, String, Option, Eq}

-- A UUID, compared and printed as its text.
abbrev pub Uuid : Type 0
Uuid = String

-- A `Date`: milliseconds since 1970.
abbrev pub Date : Type 0
Date = ℕ

pub data DesiredWorkspaceState : Type 0 where
  running suspended stopped destroyed : DesiredWorkspaceState

pub data ObservedWorkspaceState : Type 0 where
  missing provisioning starting ready busy suspending suspended : ObservedWorkspaceState
  stopping stopped destroying destroyed failed : ObservedWorkspaceState

unfoldable pub DesiredWorkspaceState-discrete : Discrete DesiredWorkspaceState
DesiredWorkspaceState-discrete = hlevel

unfoldable pub ObservedWorkspaceState-discrete : Discrete ObservedWorkspaceState
ObservedWorkspaceState-discrete = hlevel

instance unfoldable pub desired_eq : Eq DesiredWorkspaceState
unfolding DesiredWorkspaceState-discrete
desired_eq = record { dec = DesiredWorkspaceState-discrete }

instance unfoldable pub observed_eq : Eq ObservedWorkspaceState
unfolding ObservedWorkspaceState-discrete
observed_eq = record { dec = ObservedWorkspaceState-discrete }

pub record Repository : Type 0 where
  pub id : Uuid
  pub remote_url : String
  pub default_branch : String
  pub created_at : Date

-- The sandbox backend is always docker, and is left out.
pub record Workspace : Type 0 where
  pub id : Uuid
  pub owner_user_id : Uuid
  pub repository_id : Uuid
  pub desired_state : DesiredWorkspaceState
  pub observed_state : ObservedWorkspaceState
  pub state_version : ℕ
  pub branch_name : String
  pub created_at : Date
  pub expires_at : Date
  pub last_error : Option String
