-- ===== src/Metadata/Effects.antt =====
-- What the operations on the instance's metadata do to the database, on every branch.
use remote_agent_devbox.Common.{
  ℕ, ◌≡◌, refl, true, false, some, ◌⊎◌, inl, inr, String, if◌then◌else◌, nat_eq, string_eq, arith,
  Ensures, on_gets, on_required, on_assert, on_modify, end_pure,
}
use remote_agent_devbox.Schema.Workspace.{Date}
use remote_agent_devbox.Schema.Security.{InstanceSecurityMetadata}
use remote_agent_devbox.Schema.Database.{Database}
use remote_agent_devbox.Metadata.{
  new_row, get_or, synchronize_security_metadata, entered, exited, enter_maintenance_mode,
  exit_maintenance_mode, assert_available,
}

-- At startup the stored metadata is returned only where the configured tier and posture hash are
-- the stored ones; whether it returns or throws, a row that is stored stays as it is.
pub synchronize_effect :
    (tier : ℕ) (hash : String) (now : Date) (db : Database)
    → Ensures
        (λ m db'.
          (m ≡ get_or (new_row tier hash now) db.metadata)
          × (m.deployment_tier ≡ tier)
          × (m.security_posture_hash ≡ hash)
          × (db' ≡ record db { metadata = some m }))
        (λ _ db'.
          (db' ≡ db)
          ⊎ (db' ≡ record db { metadata = some (get_or (new_row tier hash now) db.metadata) }))
        (synchronize_security_metadata tier hash now)
        db
unfolding synchronize_security_metadata
synchronize_effect tier hash now db =
    on_assert _ _ _ (λ _. inl refl)
      λ accepted. on_gets _ _ (
        on_modify _ _ (
          on_assert _ _ _ (λ _. inr refl)
            λ below.
              on_assert _ _ _ (λ _. inr refl)
                λ above.
                  on_assert _ _ _ (λ _. inr refl)
                    λ same. end_pure _ (refl, ground arith, ground arith, refl)))

pub enter_effect :
    (reason : String) (at : Date) (db : Database)
    → Ensures
        (λ m db'.
          (old : InstanceSecurityMetadata) × (db.metadata ≡ some old)
          × (m ≡ (if old.maintenance_mode then old else entered reason at old))
          × (db' ≡ record db { metadata = some m }))
        (λ _ db'. db' ≡ db)
        (enter_maintenance_mode reason at)
        db
unfolding enter_maintenance_mode
enter_effect reason at db =
    on_gets _ _
      (on_required _ _ _ (λ _. refl) λ old eo. on_modify _ _ (end_pure _ (old, eo, refl, refl)))

pub exit_effect :
    (epoch : ℕ) (at : Date) (db : Database)
    → Ensures
        (λ m db'.
          (old : InstanceSecurityMetadata) × (db.metadata ≡ some old)
          × (old.maintenance_mode ≡ true)
          × (old.security_epoch ≡ epoch)
          × (m ≡ exited at old)
          × (db' ≡ record db { metadata = some m }))
        (λ _ db'. db' ≡ db)
        (exit_maintenance_mode epoch at)
        db
unfolding exit_maintenance_mode
exit_effect epoch at db = on_gets _ _ (
    on_required _ _ _ (λ _. refl)
      λ old eo.
        on_assert _ _ _ (λ _. refl)
          λ same. on_modify _ _ (end_pure _ (old, eo, ground arith, ground arith, refl, refl)))

-- The guard lets an operation pass only outside maintenance, and changes nothing.
pub assert_available_effect :
    (operation : String) (db : Database)
    → Ensures
        (λ m db'. (db' ≡ db) × (db.metadata ≡ some m) × (m.maintenance_mode ≡ false))
        (λ _ db'. db' ≡ db)
        (assert_available operation)
        db
unfolding assert_available
assert_available_effect operation db = on_gets _ _ (
    on_required _ _ _ (λ _. refl)
      λ m em. on_assert _ _ _ (λ _. refl) λ off. end_pure _ (refl, em, ground arith))
