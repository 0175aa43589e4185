-- ===== src/Metadata.antt =====
-- packages/workspace-state: the instance's security metadata in `PostgresWorkspaceRepository`
-- (repository.ts), the start-up check of security-posture.ts, and the maintenance guard of
-- apps/control/src/security/maintenance-guard.ts. The modules below prove.
pub mod Effects
use remote_agent_devbox.Common.{
  ℕ, String, ◌<>◌, Bool, true, false, not, ◌&&◌, Option, none, some, ltb, leb, ◌==◌, string_eq,
  nat_eq, if◌then◌else◌, Error, rad, other, Exec, pure, raise, gets, modify, required, assert,
  ◌>>=◌, ◌>>◌,
}
use remote_agent_devbox.Names.{decimal}
use remote_agent_devbox.Schema.Workspace.{Date}
use remote_agent_devbox.Schema.Security.{InstanceSecurityMetadata}
use remote_agent_devbox.Schema.Database.{Database}

-- A Boolean check constraint of `instance_metadata`: the tier, the epoch and the maintenance fields.
abbrev is_some {ℓ} : {A : Type ℓ} → Option A → Bool
is_some none = false
is_some (some a) = true

unfoldable pub instance_metadata_accepts : InstanceSecurityMetadata → Bool
instance_metadata_accepts m =
    leb 1 m.deployment_tier
    && leb m.deployment_tier 3
    && ltb 0 m.security_epoch
    && (if m.maintenance_mode
        then is_some m.maintenance_reason && is_some m.maintenance_started_at
        else not (is_some m.maintenance_reason) && not (is_some m.maintenance_started_at))

-- assertStartupSecurityMetadata
unfoldable pub assert_startup_security_metadata :
    InstanceSecurityMetadata → ℕ → String → Exec Database InstanceSecurityMetadata
assert_startup_security_metadata stored deployment_tier security_posture_hash = do
  assert (not (ltb deployment_tier stored.deployment_tier)) (
      rad "SECURITY_TIER_DOWNGRADE_BLOCKED" (
        "Configured tier "
        <> decimal deployment_tier
        <> " is below stored tier "
        <> decimal stored.deployment_tier
        <> "; an explicit security migration is required"))
  assert (not (ltb stored.deployment_tier deployment_tier)) (
      rad "SECURITY_TIER_UPGRADE_REQUIRED" (
        "Configured tier "
        <> decimal deployment_tier
        <> " is above stored tier "
        <> decimal stored.deployment_tier
        <> "; validate controls and run an explicit security migration"))
  assert (security_posture_hash == stored.security_posture_hash) (
      rad "SECURITY_POSTURE_MIGRATION_REQUIRED"
        "Security-sensitive configuration changed; an explicit security migration is required")
  pure stored

-- The row of `values({ singletonKey: "instance", securityEpoch: 1, ...input })`.
unfoldable pub new_row : ℕ → String → Date → InstanceSecurityMetadata
new_row deployment_tier security_posture_hash now = record {
  deployment_tier = deployment_tier;
  security_epoch = 1;
  security_posture_hash = security_posture_hash;
  maintenance_mode = false;
  maintenance_reason = none;
  maintenance_started_at = none;
  updated_at = now;
}

-- INSERT … ON CONFLICT DO NOTHING, which checks the row that is offered: a row that is there stays.
abbrev pub get_or :
    InstanceSecurityMetadata → Option InstanceSecurityMetadata → InstanceSecurityMetadata
get_or offered none = offered
get_or offered (some m) = m

-- `now` is the database's clock.
unfoldable pub synchronize_security_metadata :
    ℕ → String → Date → Exec Database InstanceSecurityMetadata
unfolding assert_startup_security_metadata instance_metadata_accepts new_row
synchronize_security_metadata deployment_tier security_posture_hash now = do
  assert (instance_metadata_accepts (new_row deployment_tier security_posture_hash now))
      (other "instance_metadata constraint violated")
  stored ← gets (λ db. get_or (new_row deployment_tier security_posture_hash now) db.metadata)
  modify (λ db. record db { metadata = some stored })
  assert_startup_security_metadata stored deployment_tier security_posture_hash

abbrev pub entered : String → Date → InstanceSecurityMetadata → InstanceSecurityMetadata
entered reason started_at m = record m {
  maintenance_mode = true;
  maintenance_reason = some reason;
  maintenance_started_at = some started_at;
  updated_at = started_at;
}

abbrev pub exited : Date → InstanceSecurityMetadata → InstanceSecurityMetadata
exited completed_at m = record m {
  maintenance_mode = false;
  maintenance_reason = none;
  maintenance_started_at = none;
  updated_at = completed_at;
}

-- The row that is found after the update: maintenance that is already on is returned as it is.
unfoldable pub enter_maintenance_mode : String → Date → Exec Database InstanceSecurityMetadata
enter_maintenance_mode reason started_at = do
  current ← gets (λ db. db.metadata)
  m ← required current (rad "MAINTENANCE_MODE_ENTER_FAILED" "Security metadata is missing")
  let after = if m.maintenance_mode then m else entered reason started_at m
  modify (λ db. record db { metadata = some after })
  pure after

unfoldable pub exit_maintenance_mode : ℕ → Date → Exec Database InstanceSecurityMetadata
exit_maintenance_mode expected_epoch completed_at = do
  current ← gets (λ db. db.metadata)
  m ← required current conflict
  assert (m.maintenance_mode && m.security_epoch == expected_epoch) conflict
  modify (λ db. record db { metadata = some (exited completed_at m) })
  pure (exited completed_at m)
  where
    conflict : Error
    conflict =
        rad "MAINTENANCE_MODE_EXIT_CONFLICT"
          "Maintenance mode or security epoch changed before exit"

-- MaintenanceModeGuard.assertAvailable
unfoldable pub assert_available : String → Exec Database InstanceSecurityMetadata
assert_available operation = do
  current ← gets (λ db. db.metadata)
  m ← required current (rad "SECURITY_CONTEXT_MISSING" "Instance security metadata is missing")
  assert (not m.maintenance_mode) (
      rad "MAINTENANCE_MODE_ACTIVE"
        (operation <> " is unavailable while security maintenance is active"))
  pure m
