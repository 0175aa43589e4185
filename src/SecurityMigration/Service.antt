-- ===== src/SecurityMigration/Service.antt =====
-- apps/control/src/security/security-migration.ts: `SecurityMigrationService.migrate`, over the
-- repositories, the audit log and the reconciler. The module below proves.
pub mod Migrated
use remote_agent_devbox.Common.{
  ℕ, String, ◌<>◌, Bool, true, not, ◌&&◌, ◌||◌, Option, none, some, List, [], ◌∷◌, length, ltb, leb,
  ◌==◌, ◌!=◌, string_eq, nat_eq, false, Error, rad, other, code_or, Exec, pure, raise, gets,
  required, assert, catch, ◌>>=◌, ◌>>◌,
}
use remote_agent_devbox.Names.{codes, every, decimal, is_sha256_digest}
use remote_agent_devbox.Schema.Workspace.{Uuid, Date}
use remote_agent_devbox.Schema.Security.{InstanceSecurityMetadata}
use remote_agent_devbox.Schema.Audit.{NewAuditEvent, AuditSeverity, AuditDetail}
use remote_agent_devbox.Schema.Database.{Database}
use remote_agent_devbox.Crf.{units, text}
use remote_agent_devbox.Metadata.{enter_maintenance_mode}
use remote_agent_devbox.Audit.{append}
use remote_agent_devbox.Lifecycle.{SandboxSupervisor, reconcile_all}
use remote_agent_devbox.SecurityMigration.{
  SecurityMigrationInput, SecurityMigrationResult, CommitInput, commit,
}

-- What each `randomUUID()` and `this.now()` return, here and in the commit.
pub record Readings : Type 0 where
  pub requested_id : Uuid
  pub requested_at : Date
  pub started_id : Uuid
  pub started_at : Date
  pub epoch_id : Uuid
  pub completed_id : Uuid
  pub completed_at : Date
  pub failed_id : Uuid
  pub failed_at : Date

-- What `trim` removes.
unfoldable pub is_space : ℕ → Bool
is_space c =
    leb 9 c && leb c 13
    || c == 32
    || c == 160
    || c == 5760
    || leb 8192 c && leb c 8202
    || c == 8232
    || c == 8233
    || c == 8239
    || c == 8287
    || c == 12288
    || c == 65279

unfoldable pub confirmation_text : ℕ → InstanceSecurityMetadata → String
unfolding decimal
confirmation_text target_tier current =
    "MIGRATE EPOCH "
    <> decimal current.security_epoch
    <> " TIER "
    <> decimal current.deployment_tier
    <> "->"
    <> decimal target_tier

unfoldable pub changes_posture : SecurityMigrationInput → InstanceSecurityMetadata → Bool
changes_posture input current =
    input.force_epoch_rotation
    || input.target_tier != current.deployment_tier
    || input.target_posture_hash != current.security_posture_hash

-- validateMigrationInput. The test of a UUID is a library's.
unfoldable pub validate_migration_input :
    (String → Bool) → SecurityMigrationInput → InstanceSecurityMetadata → Exec Database (Unit {0})
unfolding is_sha256_digest every is_space units confirmation_text changes_posture
validate_migration_input is_uuid input current = do
  assert (leb 1 input.target_tier && leb input.target_tier 3)
      (rad "SECURITY_TIER_INVALID" "Target tier must be an integer from 1 to 3")
  assert (is_sha256_digest input.target_posture_hash) (other "Invalid digest")
  assert (is_uuid input.initiated_by)
      (rad "SECURITY_MIGRATION_ACTOR_INVALID" "Migration actor must be a UUID")
  assert (not (every is_space (codes input.reason)) && leb (length (text input.reason)) 500)
      (rad "SECURITY_MIGRATION_REASON_INVALID" "A bounded migration reason is required")
  assert (input.confirmation == confirmation_text input.target_tier current) (
      rad "SECURITY_MIGRATION_CONFIRMATION_REQUIRED"
        ("Confirmation must exactly match: " <> confirmation_text input.target_tier current))
  assert (changes_posture input current)
      (rad "SECURITY_MIGRATION_NO_CHANGE" "Target security posture is unchanged")

-- auditRecord
unfoldable pub audit_record :
    Uuid
    → String
    → SecurityMigrationInput
    → InstanceSecurityMetadata
    → Date
    → AuditSeverity
    → NewAuditEvent
audit_record id event_type input metadata occurred_at severity = record {
  id = id;
  event_type = event_type;
  severity = severity;
  actor_id = some input.initiated_by;
  subject_type = "instance";
  subject_id = some "instance";
  security_epoch = metadata.security_epoch;
  deployment_tier = metadata.deployment_tier;
  details =
      ("fromTier", AuditDetail.number metadata.deployment_tier)
      ∷ ("toTier", AuditDetail.number input.target_tier)
      ∷ ("forceEpochRotation", AuditDetail.bool input.force_epoch_rotation)
      ∷ [];
  occurred_at = occurred_at;
}

-- maintenanceReason
abbrev pub maintenance_reason : SecurityMigrationInput → String
maintenance_reason input = "security-migration:" <> input.reason

-- `metadata.maintenanceReason === maintenanceReason`
abbrev pub held_for : SecurityMigrationInput → InstanceSecurityMetadata → Bool
held_for input metadata = reason_is metadata.maintenance_reason (maintenance_reason input)
  where
    reason_is : Option String → String → Bool
    reason_is none wanted = false
    reason_is (some held) wanted = held == wanted

unfoldable pub commit_input : SecurityMigrationInput → InstanceSecurityMetadata → Date → CommitInput
commit_input input current completed_at = record {
  migration = input;
  expected_tier = current.deployment_tier;
  expected_epoch = current.security_epoch;
  expected_posture_hash = current.security_posture_hash;
  completed_at = completed_at;
}

module _ (is_uuid : String → Bool) (supervisor : SandboxSupervisor) (now : Readings) where
  -- The body of the `try`.
  unfoldable pub commit_and_reconcile :
      SecurityMigrationInput → InstanceSecurityMetadata → Exec Database SecurityMigrationResult
  unfolding commit_input commit reconcile_all
  commit_and_reconcile input current = do
    result ← commit now.epoch_id now.completed_id (commit_input input current now.completed_at)
    reconcile_all supervisor
    pure result

  -- The `catch` clause.
  unfoldable pub report_failure :
      SecurityMigrationInput
      → InstanceSecurityMetadata
      → InstanceSecurityMetadata
      → Error
      → Exec Database SecurityMigrationResult
  unfolding audit_record append
  report_failure input current maintenance error = do
    append
        (record (audit_record now.failed_id "SECURITY_POSTURE_MIGRATION_FAILED" input maintenance
          now.failed_at AuditSeverity.critical) {
            details =
                ("fromTier", AuditDetail.number current.deployment_tier)
                ∷ ("toTier", AuditDetail.number input.target_tier)
                ∷ ("errorCode", AuditDetail.text (code_or "SECURITY_MIGRATION_FAILED" error))
                ∷ [];
          })
    raise error

  unfoldable pub migrate : SecurityMigrationInput → Exec Database SecurityMigrationResult
  unfolding validate_migration_input enter_maintenance_mode commit_and_reconcile report_failure
      catch
  migrate input = do
    row ← gets (λ db. db.metadata)
    current ← required row (rad "SECURITY_CONTEXT_MISSING" "Instance security metadata is missing")
    validate_migration_input is_uuid input current
    append (
        audit_record now.requested_id "SECURITY_POSTURE_MIGRATION_REQUESTED" input current
          now.requested_at AuditSeverity.high)
    assert (not (current.maintenance_mode && not (held_for input current))) (
        rad "MAINTENANCE_MODE_ALREADY_ACTIVE" "A different maintenance operation is already active")
    maintenance ← enter_maintenance_mode (maintenance_reason input) now.requested_at
    assert (held_for input maintenance) (
        rad "MAINTENANCE_MODE_ALREADY_ACTIVE"
          "A concurrent maintenance operation won the migration lock")
    append (
        audit_record now.started_id "SECURITY_POSTURE_MIGRATION_STARTED" input maintenance
          now.started_at AuditSeverity.high)
    catch (commit_and_reconcile input current) (report_failure input current maintenance)
