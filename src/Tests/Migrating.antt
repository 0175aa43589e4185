-- ===== src/Tests/Migrating.antt =====
-- A migration by the service on concrete data.
use remote_agent_devbox.Common.{
  ◌==◌, some, inr, ◌≡◌, refl, true, false, [], ok, Ensures, string_eq, nat_eq, ◌>>=◌, find_row,
  exists, update, select, returning,
}
use remote_agent_devbox.Names.{decimal, is_sha256_digest}
use remote_agent_devbox.Workspaces.{get_workspace, set_observed_state}
use remote_agent_devbox.Schema.Database.{Database}
use remote_agent_devbox.Approvals.{meets_checks}
use remote_agent_devbox.System.Requests.Checked.{Checked}
use remote_agent_devbox.System.Cutoff.Blocked.{migrate_blocked}
use remote_agent_devbox.Lifecycle.{ActualSandboxState, SandboxSupervisor}
use remote_agent_devbox.SecurityMigration.{
  SecurityMigrationInput, SecurityMigrationResult, count_all, migrated, is_stoppable,
}
use remote_agent_devbox.SecurityMigration.Service.{Readings, migrate, commit_input}
use remote_agent_devbox.SecurityMigration.Service.Migrated.{Migrated, Unmigrated, migrate-Migrated}
use remote_agent_devbox.Tests.Data.{database, approval, metadata, profile_digest}

abbrev supervisor : SandboxSupervisor
supervisor = record {
  inspect = λ _ db. (ok ActualSandboxState.absent, db);
  create = λ _ db. (ok tt, db);
  start = λ _ db. (ok tt, db);
  stop = λ _ db. (ok tt, db);
  destroy = λ _ db. (ok tt, db);
}

abbrev readings : Readings
readings = record {
  requested_id = "requested";
  requested_at = 80;
  started_id = "started";
  started_at = 81;
  epoch_id = "epoch";
  completed_id = "completed";
  completed_at = 90;
  failed_id = "failed";
  failed_at = 91;
}

abbrev input : SecurityMigrationInput
input = record {
  target_tier = 3;
  target_posture_hash = profile_digest;
  initiated_by = "owner";
  reason = "up";
  confirmation = "MIGRATE EPOCH 4 TIER 2->3";
  force_epoch_rotation = false;
}

-- No approval request is pending or approved.
abbrev quiet : Database
quiet = record database { approval_requests = [] }

abbrev result : SecurityMigrationResult
result = count_all quiet (migrated (commit_input input metadata 90) metadata)

migrate_succeeds : (migrate (λ _. true) supervisor readings input quiet).0 ≡ ok result
unfolding migrate count_all migrated is_stoppable decimal is_sha256_digest nat_eq string_eq ◌>>=◌
    find_row exists update select commit_input get_workspace set_observed_state returning
migrate_succeeds = refl

migrate-Migrated_example :
    Ensures
      (Migrated (λ _. true) supervisor readings input quiet)
      (λ _ db'. Unmigrated quiet input 80 db')
      (migrate (λ _. true) supervisor readings input)
      quiet
migrate-Migrated_example = migrate-Migrated (λ _. true) supervisor readings input quiet

approval_row : find_row (λ r. r.id == "approval") database.approval_requests ≡ some approval
unfolding find_row string_eq
approval_row = refl

database-Checked : Checked database.approval_requests
unfolding meets_checks
database-Checked = (refl, tt)

migrate_blocked_example :
    Ensures {A = SecurityMigrationResult}
      (λ _ _. ⊥)
      (λ _ db'. Unmigrated database input 80 db')
      (migrate (λ _. true) supervisor readings input)
      database
migrate_blocked_example =
    migrate_blocked (λ _. true) supervisor readings input "approval" approval database
      database-Checked approval_row (inr refl)
