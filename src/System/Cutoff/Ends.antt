-- ===== src/System/Cutoff/Ends.antt =====
-- What a committed migration of apps/control/src/security/security-migration.ts means for
-- the workspaces and the metadata that it found.
use remote_agent_devbox.Common.{
  ◌+◌, All, ◌⊎◌, ◌!=◌, ◌&&◌, ◌≡◌, refl, true, false, some, inl, inr, Bool-cases, List, [], ◌∷◌,
  string_eq, member, update, arith, ok, Ensures_at_ok,
}
use remote_agent_devbox.Schema.Workspace.{
  Uuid, Workspace, DesiredWorkspaceState, ObservedWorkspaceState, desired_eq, observed_eq,
}
use remote_agent_devbox.Schema.Security.{InstanceSecurityMetadata}
use remote_agent_devbox.Schema.Git.{git_state_eq}
use remote_agent_devbox.Schema.Database.{Database}
use remote_agent_devbox.SecurityMigration.{
  CommitInput, SecurityMigrationResult, invalidate_all, is_stoppable, stopped, commit, migrated,
}
use remote_agent_devbox.SecurityMigration.Effects.{commit-Committed}

-- The workspace is to be stopped or destroyed, or has been destroyed.
abbrev pub AtRest : Workspace → Type 0
AtRest w =
    (w.desired_state ≡ DesiredWorkspaceState.stopped)
    ⊎ (w.desired_state ≡ DesiredWorkspaceState.destroyed)
    ⊎ (w.observed_state ≡ ObservedWorkspaceState.destroyed)

destroyed_by_test :
    (s : ObservedWorkspaceState)
    → (s != ObservedWorkspaceState.destroyed) ≡ false
    → s ≡ ObservedWorkspaceState.destroyed
destroyed_by_test s h = ground arith

unstoppable_state :
    (d : DesiredWorkspaceState) (o : ObservedWorkspaceState)
    → (member d (DesiredWorkspaceState.running ∷ DesiredWorkspaceState.suspended ∷ [])
        && o != ObservedWorkspaceState.destroyed)
      ≡ false
    → (d ≡ DesiredWorkspaceState.stopped)
      ⊎ (d ≡ DesiredWorkspaceState.destroyed)
      ⊎ (o ≡ ObservedWorkspaceState.destroyed)
unfolding desired_eq
unstoppable_state DesiredWorkspaceState.running o h = inr (inr (destroyed_by_test o h))
unstoppable_state DesiredWorkspaceState.suspended o h = inr (inr (destroyed_by_test o h))
unstoppable_state DesiredWorkspaceState.stopped o h = inl refl
unstoppable_state DesiredWorkspaceState.destroyed o h = inr (inl refl)

unstoppable-AtRest : (w : Workspace) → is_stoppable w ≡ false → AtRest w
unfolding is_stoppable
unstoppable-AtRest w h = unstoppable_state w.desired_state w.observed_state h

All-AtRest : (xs : List Workspace) → All AtRest (update is_stoppable stopped xs)
unfolding update stopped
All-AtRest [] = tt
All-AtRest (w ∷ xs) = elim (Bool-cases (is_stoppable w)) [
  | inl hit ↦ rw hit (inl refl, All-AtRest xs)
  | inr miss ↦ rw miss (unstoppable-AtRest w miss, All-AtRest xs)
]

module _ (a b : Uuid) (input : CommitInput) (db : Database) {result : SecurityMigrationResult}
    {db' : Database} (done : commit a b input db ≡ (ok result, db')) where
  -- A committed security migration leaves every workspace to be stopped or destroyed, or destroyed
  -- already, raises the epoch that was stored by one, sets the tier and the posture hash that were
  -- asked for, and ends the maintenance that was on.
  pub commit_rotates :
      All AtRest db'.workspaces
      × (m : InstanceSecurityMetadata) × (m' : InstanceSecurityMetadata) × (db.metadata ≡ some m)
      × (m.maintenance_mode ≡ true)
      × (db'.metadata ≡ some m')
      × (m'.security_epoch ≡ m.security_epoch + 1)
      × (m'.deployment_tier ≡ input.target_tier)
      × (m'.security_posture_hash ≡ input.target_posture_hash)
      × (m'.maintenance_mode ≡ false)
  unfolding invalidate_all migrated
  commit_rotates =
      let (m, _, _, c) = Ensures_at_ok _ db (commit-Committed a b input db) done in
      (
        rw c.written (All-AtRest db.workspaces),
        m,
        migrated input m,
        c.metadata_row,
        c.maintained,
        rw c.written refl,
        rw c.epoch refl,
        refl,
        refl,
        refl,
      )
