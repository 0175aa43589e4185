-- ===== src/GitWrite.antt =====
-- apps/control/src/git/git-write-executor.ts: `CredentialedGitWriteExecutor`. The writer, the token
-- issuer, the client of pull requests and the artifact store are parameters; each of their calls is an
-- action on the database, since other requests may be answered while it runs. The modules below prove.
pub mod Authorized
pub mod Settled
use remote_agent_devbox.Common.{
  ℕ, ◌+◌, String, Bool, true, false, not, ◌&&◌, ◌||◌, Option, none, some, leb, ◌==◌, ◌!=◌,
  string_eq, nat_eq, Error, rad, code_or, Result, ok, err, Exec, pure, raise, lift, gets, modify,
  assert, required_where, catch, ◌>>=◌, ◌>>◌, if◌then◌else◌,
}
use remote_agent_devbox.Schema.Workspace.{Uuid, Date, Repository}
use remote_agent_devbox.Schema.Security.{InstanceSecurityMetadata}
use remote_agent_devbox.Schema.Artifact.{Sha256Digest, GitArtifact, ReviewSnapshot}
use remote_agent_devbox.Schema.Approval.{ApprovalRequest, ApprovalStatus, approval_status_eq}
use remote_agent_devbox.Schema.Git.{
  GitOperation, GitOperationState, git_state_eq, CredentialLease, CredentialLeaseState,
  lease_state_eq,
}
use remote_agent_devbox.Schema.Database.{Database}
use remote_agent_devbox.GitOperations.{no_values, GitOperationValues, transition}
use remote_agent_devbox.Leases.{
  NewLease, reserve, mark_issued, mark_consumed, mark_failed, mark_uncertain,
}

pub record GitHubCredentialConfig : Type 0 where
  pub app_id : Option String
  pub installation_id : Option String
  pub private_key_base64 : Option String

pub record EphemeralCredential : Type 0 where
  pub token : String
  pub expires_at : Date

pub record IssueInput : Type 0 where
  pub operation_id : Uuid
  pub repository_id : Uuid
  pub repository_remote_url : String
  pub security_epoch : ℕ

pub record PushInput : Type 0 where
  pub remote_url : String
  pub branch_name : String
  pub expected_remote_head : Option String
  pub credential : EphemeralCredential

pub record PullRequestInput : Type 0 where
  pub remote_url : String
  pub branch_name : String
  pub base_branch : String
  pub target_commit : String
  pub review_digest : Sha256Digest
  pub token : String

pub record PullRequestResult : Type 0 where
  pub number : ℕ
  pub url : String

-- GitPushPreparer and PreparedGitPush, TokenIssuer, PullRequestCreator, and ArtifactStore.resolve.
pub record Outside : Type 0 where
  pub resolve : String → Result String
  pub prepare : String → String → Exec Database (Unit {0})
  pub push : PushInput → Exec Database (Unit {0})
  pub dispose : Exec Database (Unit {0})
  pub issue_for_operation : IssueInput → Exec Database EphemeralCredential
  pub create_pull_request : PullRequestInput → Exec Database PullRequestResult

-- What `randomUUID()` and each `this.now()` return.
pub record Readings : Type 0 where
  pub lease_id : Uuid
  pub checked_at : Date
  pub reserved_at : Date
  pub issued_at : Date
  pub rechecked_at : Date
  pub usable_at : Date
  pub consumed_at : Date
  pub succeeded_at : Date
  pub lease_ended_at : Date
  pub failed_at : Date

pub record WriteInput : Type 0 where
  pub operation : GitOperation
  pub approval : ApprovalRequest
  pub review : ReviewSnapshot
  pub artifact : GitArtifact
  pub repository : Repository

-- The database, and the variables that `execute` assigns and its handlers read.
pub record Execution : Type 0 where
  pub database : Database
  pub operation : GitOperation
  pub lease : Option CredentialLease
  pub prepared : Bool

abbrev pub enclosing : {A : Type 0} → Execution → Result A × Database → Result A × Execution
enclosing s (r, database) = (r, record s { database = database })

-- A call that reads and writes the database only.
unfoldable pub on_database : {A : Type 0} → Exec Database A → Exec Execution A
on_database m s = enclosing s (m s.database)

-- `!text`
abbrev is_missing : Option String → Bool
is_missing none = true
is_missing (some s) = s == ""

unfoldable pub assert_ready : {S : Type 0} → GitHubCredentialConfig → Exec S (Unit {0})
assert_ready config =
    assert
      (not (
        is_missing config.app_id
        || is_missing config.installation_id
        || is_missing config.private_key_base64))
      (rad "GITHUB_APP_NOT_CONFIGURED"
        "GitHub App credentials must be configured before starting a Git operation")

-- What `requireCurrentContext` asks of the approval and of the review, at a time.
unfoldable pub input_current : WriteInput → Date → Bool
unfolding approval_status_eq
input_current input now =
    input.approval.status == ApprovalStatus.approved
    && not (leb input.approval.expires_at now)
    && input.approval.review_digest == input.operation.review_digest
    && input.approval.validator_profile_digest == input.operation.validator_profile_digest
    && input.approval.security_epoch == input.operation.security_epoch
    && input.review.review_digest == input.operation.review_digest
    && input.review.validator_profile_digest == input.operation.validator_profile_digest
    && input.review.security_epoch == input.operation.security_epoch

-- What it asks of the instance.
unfoldable pub metadata_current : WriteInput → InstanceSecurityMetadata → Bool
metadata_current input m =
    not m.maintenance_mode
    && m.security_epoch == input.operation.security_epoch
    && m.deployment_tier == input.review.deployment_tier
    && m.security_posture_hash == input.review.security_posture_hash

unfoldable pub require_current_context : WriteInput → Date → Exec Database InstanceSecurityMetadata
unfolding input_current metadata_current
require_current_context input now = do
  metadata ← gets (λ db. db.metadata)
  required_where (λ m. input_current input now && metadata_current input m) metadata
      (rad "GIT_WRITE_CONTEXT_STALE" "Approval or security context changed before credential use")

abbrev ended_with : String → String → Date → GitOperationValues
ended_with code text now = record no_values {
  error_code = some (some code);
  error_message = some (some text);
  completed_at = some (some now);
}

-- The state of a lease, as the branches of `recordFailure` tell them apart.
abbrev is_reserved : CredentialLease → Bool
is_reserved lease = lease.state == CredentialLeaseState.reserved

unfoldable pub record_lease_failure :
    Readings → GitOperation → CredentialLease → String → Exec Database GitOperation
unfolding lease_state_eq git_state_eq
record_lease_failure now operation lease code =
    if is_reserved lease
    then (mark_failed lease.id now.lease_ended_at code
        >> transition operation.id GitOperationState.waiting_credential GitOperationState.failed
            (ended_with code "Credential issuance failed" now.failed_at))
    else if code == "REMOTE_CAS_CONFLICT" && operation.state == GitOperationState.pushing
    then (mark_consumed lease.id now.lease_ended_at
        >> transition operation.id GitOperationState.pushing GitOperationState.conflict
            (ended_with code "Remote branch compare-and-swap failed" now.failed_at))
    else (mark_uncertain lease.id now.lease_ended_at code
        >> transition operation.id
            (if operation.state == GitOperationState.pushing
              then GitOperationState.pushing
              else GitOperationState.waiting_credential)
            GitOperationState.failed
            (ended_with code "Credential was issued but the external result is not safely retryable"
              now.failed_at))

unfoldable pub record_failure :
    Readings → GitOperation → Option CredentialLease → Error → Exec Database GitOperation
unfolding record_lease_failure
record_failure now operation none error =
    transition operation.id GitOperationState.waiting_credential GitOperationState.failed
      (ended_with (code_or "GIT_WRITE_FAILED" error) "Git write preparation failed" now.failed_at)
record_failure now operation (some lease) error =
    record_lease_failure now operation lease (code_or "GIT_WRITE_FAILED" error)

-- `variable = value`
abbrev keep_operation : GitOperation → Exec Execution (Unit {0})
keep_operation operation = modify (λ s. record s { operation = operation })

abbrev keep_lease : CredentialLease → Exec Execution (Unit {0})
keep_lease lease = modify (λ s. record s { lease = some lease })

-- `credential.expiresAt.getTime() <= this.now().getTime() + 30_000`
abbrev expires_soon : EphemeralCredential → Date → Bool
expires_soon credential now = leb credential.expires_at (now + 30000)

module _ (outside : Outside) (now : Readings) (input : WriteInput) where
  -- The `try` block until the lease is issued.
  unfoldable pub obtain_credential : Exec Execution (CredentialLease × EphemeralCredential)
  unfolding on_database require_current_context
  obtain_credential = do
    path ← lift (outside.resolve input.artifact.storage_key)
    on_database (outside.prepare path input.operation.target_commit)
    modify (λ s. record s { prepared = true })
    on_database (require_current_context input now.checked_at)
    reserved ← on_database (
        reserve (record {
          id = now.lease_id;
          operation_id = input.operation.id;
          repository_id = input.operation.repository_id;
          security_epoch = input.operation.security_epoch;
          created_at = now.reserved_at;
        }))
    keep_lease reserved
    credential ← on_database (
        outside.issue_for_operation (record {
          operation_id = input.operation.id;
          repository_id = input.operation.repository_id;
          repository_remote_url = input.repository.remote_url;
          security_epoch = input.operation.security_epoch;
        }))
    issued ← on_database (mark_issued reserved.id now.issued_at credential.expires_at)
    keep_lease issued
    pure (issued, credential)

  -- From there until the operation is pushing.
  unfoldable pub begin_push : EphemeralCredential → Exec Execution GitOperation
  unfolding on_database require_current_context
  begin_push credential = do
    on_database (require_current_context input now.rechecked_at)
    assert (not (expires_soon credential now.usable_at))
        (rad "GITHUB_TOKEN_ALREADY_EXPIRED" "Credential expired before Git push")
    operation ← on_database (
        transition input.operation.id GitOperationState.waiting_credential GitOperationState.pushing
          no_values)
    keep_operation operation
    pure operation

  -- The rest of the `try` block.
  unfoldable pub deliver :
      CredentialLease → EphemeralCredential → GitOperation → Exec Execution GitOperation
  unfolding on_database
  deliver lease credential operation = do
    on_database (
        outside.push (record {
          remote_url = input.repository.remote_url;
          branch_name = operation.branch_name;
          expected_remote_head = operation.expected_remote_head;
          credential = credential;
        }))
    pull_request ← on_database (
        outside.create_pull_request (record {
          remote_url = input.repository.remote_url;
          branch_name = operation.branch_name;
          base_branch = input.repository.default_branch;
          target_commit = operation.target_commit;
          review_digest = operation.review_digest;
          token = credential.token;
        }))
    consumed ← on_database (mark_consumed lease.id now.consumed_at)
    keep_lease consumed
    on_database (
        transition operation.id GitOperationState.pushing GitOperationState.succeeded
          (record no_values {
            pull_request_number = some (some pull_request.number);
            pull_request_url = some (some pull_request.url);
            completed_at = some (some now.succeeded_at);
          }))

  unfoldable pub write : Exec Execution GitOperation
  unfolding obtain_credential begin_push deliver
  write = do
    (lease, credential) ← obtain_credential
    operation ← begin_push credential
    deliver lease credential operation

  -- The `catch` clause.
  unfoldable pub recover : Error → Exec Execution GitOperation
  unfolding record_failure on_database
  recover error = do
    operation ← gets (λ s. s.operation)
    lease ← gets (λ s. s.lease)
    on_database (record_failure now operation lease error)

  abbrev disposed : Bool → Exec Database (Unit {0})
  disposed true = outside.dispose
  disposed false = pure tt

  abbrev finished : Result GitOperation × Execution → Result GitOperation × Database
  finished (r, s) = (disposed s.prepared >> lift r) s.database

  -- The statement `try … catch … finally` with its variables.
  unfoldable pub attempt : Exec Database GitOperation
  unfolding write recover catch
  attempt database = finished (
      catch write recover (record {
        database = database;
        operation = input.operation;
        lease = none;
        prepared = false;
      }))

module _ (config : GitHubCredentialConfig) (outside : Outside) (now : Readings) where
  unfoldable pub execute : WriteInput → Exec Database GitOperation
  unfolding assert_ready attempt git_state_eq
  execute input = do
    assert_ready config
    if input.operation.state == GitOperationState.waiting_credential
        then attempt outside now input
        else pure input.operation
