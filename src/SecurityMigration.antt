-- ===== src/SecurityMigration.antt =====
-- apps/control/src/security/security-migration.ts: `PostgresSecurityMigrationRepository.commit`. The
-- modules below prove and add the service.
pub mod Effects
pub mod Service
use remote_agent_devbox.Common.{
  ℕ, ◌+◌, ◌-◌, ◌^◌, String, ◌<>◌, Bool, true, false, not, ◌&&◌, ◌||◌, Option, none, some, List, [],
  ◌∷◌, length, ltb, leb, ◌==◌, ◌!=◌, member, string_eq, nat_eq, if◌then◌else◌, find_row, select,
  exists, update, Error, rad, other, Exec, pure, gets, modify, required, required_where, assert,
  transaction, ◌>>=◌, ◌>>◌,
}
use remote_agent_devbox.Names.{codes, every, decimal, is_sha256_digest}
use remote_agent_devbox.Schema.Workspace.{
  Uuid, Date, Workspace, DesiredWorkspaceState, ObservedWorkspaceState, desired_eq, observed_eq,
}
use remote_agent_devbox.Schema.Security.{InstanceSecurityMetadata}
use remote_agent_devbox.Schema.Artifact.{Sha256Digest}
use remote_agent_devbox.Schema.Approval.{ApprovalRequest, ApprovalStatus, ApprovalStaleReason}
use remote_agent_devbox.Schema.Git.{
  GitOperation, GitOperationState, git_state_eq, CredentialLease, CredentialLeaseState,
  lease_state_eq,
}
use remote_agent_devbox.Schema.Ide.{IdeAccessCode, IdeAccessSession}
use remote_agent_devbox.Schema.Audit.{NewAuditEvent, AuditSeverity, AuditDetail}
use remote_agent_devbox.Schema.Database.{Database}
use remote_agent_devbox.Approvals.{is_active, meets_checks}
use remote_agent_devbox.IdeAccess.{is_live_code, is_live_session}
use remote_agent_devbox.Metadata.{instance_metadata_accepts}
use remote_agent_devbox.Audit.{insert_event}

pub record SecurityMigrationInput : Type 0 where
  pub target_tier : ℕ
  pub target_posture_hash : Sha256Digest
  pub initiated_by : Uuid
  pub reason : String
  pub confirmation : String
  pub force_epoch_rotation : Bool

pub record SecurityMigrationResult : Type 0 where
  pub metadata : InstanceSecurityMetadata
  pub stale_approvals : ℕ
  pub cancelled_operations : ℕ
  pub invalidated_leases : ℕ
  pub invalidated_ide_codes : ℕ
  pub revoked_ide_sessions : ℕ
  pub stopped_workspaces : ℕ

pub record CommitInput : Type 0 where
  pub migration : SecurityMigrationInput
  pub open migration use *
  pub expected_tier : ℕ
  pub expected_epoch : ℕ
  pub expected_posture_hash : String
  pub completed_at : Date

-- Number.MAX_SAFE_INTEGER
abbrev pub max_safe_integer : ℕ
max_safe_integer = 2 ^ 53 - 1

-- The metadata is in maintenance and as the service saw it.
unfoldable pub metadata_expected : CommitInput → InstanceSecurityMetadata → Bool
metadata_expected input m =
    m.maintenance_mode
    && m.deployment_tier == input.expected_tier
    && m.security_epoch == input.expected_epoch
    && m.security_posture_hash == input.expected_posture_hash

unfoldable pub is_pushing : GitOperation → Bool
unfolding git_state_eq
is_pushing o = o.state == GitOperationState.pushing

unfoldable pub is_cancellable : GitOperation → Bool
unfolding git_state_eq
is_cancellable o = member o.state (
    GitOperationState.pending ∷ GitOperationState.validating ∷ GitOperationState.waiting_credential
    ∷ [])

unfoldable pub is_reserved : CredentialLease → Bool
unfolding lease_state_eq
is_reserved l = l.state == CredentialLeaseState.reserved

unfoldable pub is_issued : CredentialLease → Bool
unfolding lease_state_eq
is_issued l = l.state == CredentialLeaseState.issued

-- A workspace that is to run or to be suspended, and has not been destroyed.
unfoldable pub is_stoppable : Workspace → Bool
unfolding desired_eq observed_eq
is_stoppable w =
    member w.desired_state (DesiredWorkspaceState.running ∷ DesiredWorkspaceState.suspended ∷ [])
    && w.observed_state != ObservedWorkspaceState.destroyed

unfoldable pub staled : ApprovalRequest → ApprovalRequest
staled a = record a {
  status = ApprovalStatus.stale;
  stale_reason = some ApprovalStaleReason.security_posture_changed;
}

-- The update of a request that is active, which the table's constraints refuse.
unfoldable pub is_refused : ApprovalRequest → Bool
unfolding staled meets_checks
is_refused a = is_active a && not (meets_checks (staled a))

unfoldable pub cancelled : Date → GitOperation → GitOperation
cancelled at o = record o {
  state = GitOperationState.cancelled;
  error_code = some "SECURITY_MIGRATION_CANCELLED";
  error_message = some "Cancelled by explicit security posture migration";
  completed_at = some at;
}

unfoldable pub reservation_failed : CredentialLease → CredentialLease
reservation_failed l = record l {
  state = CredentialLeaseState.failed;
  failure_reason = some "Invalidated by security posture migration";
}

unfoldable pub credential_expired : Date → CredentialLease → CredentialLease
credential_expired at l = record l {
  state = CredentialLeaseState.expired;
  expires_at = some at;
  failure_reason = some "Invalidated by security posture migration";
}

unfoldable pub stopped : Workspace → Workspace
stopped w = record w {
  desired_state = DesiredWorkspaceState.stopped;
  state_version = w.state_version + 1;
}

-- The updates of the transaction, in their order; they touch different tables, but for the leases.
unfoldable pub invalidate_all : Date → Database → Database
unfolding is_cancellable is_reserved is_issued is_stoppable staled cancelled reservation_failed
    credential_expired stopped
invalidate_all at db = record db {
  approval_requests = update is_active staled db.approval_requests;
  git_operations = update is_cancellable (cancelled at) db.git_operations;
  credential_leases =
      update is_issued (credential_expired at)
        (update is_reserved reservation_failed db.credential_leases);
  ide_access_codes =
      update is_live_code (λ c. record c { invalidated_at = some at }) db.ide_access_codes;
  ide_access_sessions =
      update is_live_session (λ s. record s { revoked_at = some at }) db.ide_access_sessions;
  workspaces = update is_stoppable stopped db.workspaces;
}

-- The rows that each update returns are counted.
unfoldable pub count_all : Database → InstanceSecurityMetadata → SecurityMigrationResult
count_all db metadata = record {
  metadata = metadata;
  stale_approvals = length (select is_active db.approval_requests);
  cancelled_operations = length (select is_cancellable db.git_operations);
  invalidated_leases =
      length (select is_reserved db.credential_leases)
      + length (select is_issued (update is_reserved reservation_failed db.credential_leases));
  invalidated_ide_codes = length (select is_live_code db.ide_access_codes);
  revoked_ide_sessions = length (select is_live_session db.ide_access_sessions);
  stopped_workspaces = length (select is_stoppable db.workspaces);
}

unfoldable pub migrated : CommitInput → InstanceSecurityMetadata → InstanceSecurityMetadata
migrated input m = record m {
  deployment_tier = input.target_tier;
  security_epoch = input.expected_epoch + 1;
  security_posture_hash = input.target_posture_hash;
  maintenance_mode = false;
  maintenance_reason = none;
  maintenance_started_at = none;
  updated_at = input.completed_at;
}

-- The two events that the commit inserts; `id` is `randomUUID()`.
epoch_event : Uuid → CommitInput → NewAuditEvent
epoch_event id input = record {
  id = id;
  event_type = "SECURITY_EPOCH_INCREMENTED";
  severity = AuditSeverity.high;
  actor_id = some input.initiated_by;
  subject_type = "instance";
  subject_id = some "instance";
  security_epoch = input.expected_epoch + 1;
  deployment_tier = input.target_tier;
  details =
      ("fromEpoch", AuditDetail.number input.expected_epoch)
      ∷ ("toEpoch", AuditDetail.number (input.expected_epoch + 1))
      ∷ [];
  occurred_at = input.completed_at;
}

completed_event : Uuid → CommitInput → SecurityMigrationResult → NewAuditEvent
completed_event id input counts = record {
  id = id;
  event_type = "SECURITY_POSTURE_MIGRATION_COMPLETED";
  severity =
      if ltb input.target_tier input.expected_tier
      then AuditSeverity.critical
      else AuditSeverity.high;
  actor_id = some input.initiated_by;
  subject_type = "instance";
  subject_id = some "instance";
  security_epoch = input.expected_epoch + 1;
  deployment_tier = input.target_tier;
  details =
      ("fromTier", AuditDetail.number input.expected_tier)
      ∷ ("toTier", AuditDetail.number input.target_tier)
      ∷ ("staleApprovals", AuditDetail.number counts.stale_approvals)
      ∷ ("cancelledOperations", AuditDetail.number counts.cancelled_operations)
      ∷ ("invalidatedLeases", AuditDetail.number counts.invalidated_leases)
      ∷ ("invalidatedIdeCodes", AuditDetail.number counts.invalidated_ide_codes)
      ∷ ("revokedIdeSessions", AuditDetail.number counts.revoked_ide_sessions)
      ∷ ("stoppedWorkspaces", AuditDetail.number counts.stopped_workspaces)
      ∷ [];
  occurred_at = input.completed_at;
}

commit_body : Uuid → Uuid → CommitInput → Exec Database SecurityMigrationResult
commit_body first_id second_id input = do
  metadata ← gets (λ db. db.metadata)
  current ←
      required_where (metadata_expected input) metadata (
        rad "SECURITY_MIGRATION_CONTEXT_CHANGED" "Security context changed before migration commit")
  pushing ← gets (λ db. exists is_pushing db.git_operations)
  assert (not pushing) (
      rad "SECURITY_MIGRATION_PUSH_IN_FLIGHT"
        "A PUSHING Git operation requires manual inspection before migration")
  refused ← gets (λ db. exists is_refused db.approval_requests)
  assert (not refused) (other "approval_requests constraint violated")
  counts ← gets (λ db. count_all db (migrated input current))
  modify (invalidate_all input.completed_at)
  assert (not (leb max_safe_integer input.expected_epoch))
      (rad "SECURITY_EPOCH_OVERFLOW" "Security epoch cannot be incremented safely")
  assert (instance_metadata_accepts (migrated input current))
      (other "instance_metadata constraint violated")
  modify (λ db. record db { metadata = some (migrated input current) })
  insert_event (epoch_event first_id input)
  insert_event (completed_event second_id input counts)
  pure counts

-- `commit`, with the two UUIDs of its audit events
unfoldable pub commit : Uuid → Uuid → CommitInput → Exec Database SecurityMigrationResult
unfolding commit_body metadata_expected is_pushing is_refused count_all invalidate_all migrated
    instance_metadata_accepts insert_event epoch_event completed_event transaction
commit first_id second_id input = transaction (commit_body first_id second_id input)
