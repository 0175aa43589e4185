-- ===== src/GitStart.antt =====
-- apps/control/src/git/git-operation-service.ts: `GitOperationService.start`, over the repositories, the
-- revalidation and the executor. The observer of remote heads is a parameter. The module below proves.
pub mod Guarded
use remote_agent_devbox.Common.{
  String, ◌<>◌, Bool, true, false, not, ◌&&◌, ◌||◌, Option, none, some, leb, ◌==◌, ◌!=◌, string_eq,
  nat_eq, ◌⊎◌, inl, inr, Error, rad, code_or, Exec, pure, gets, assert, required, catch, ◌>>=◌,
  ◌>>◌, if◌then◌else◌,
}
use remote_agent_devbox.Names.{codes, starts_with, ends_with}
use remote_agent_devbox.Schema.Workspace.{Uuid, Date, Workspace, Repository}
use remote_agent_devbox.Schema.Artifact.{GitArtifact, ReviewSnapshot}
use remote_agent_devbox.Schema.Approval.{ApprovalRequest, ApprovalStatus, approval_status_eq}
use remote_agent_devbox.Schema.Git.{GitOperation, GitOperationState, git_state_eq}
use remote_agent_devbox.Schema.Database.{Database}
use remote_agent_devbox.Metadata.{assert_available}
use remote_agent_devbox.Approvals
use remote_agent_devbox.Artifacts
use remote_agent_devbox.Artifacts.Reviews.{Platform, get_review}
use remote_agent_devbox.Workspaces.{get_workspace, get_repository}
use remote_agent_devbox.GitOperations.{
  NewGitOperation, GitOperationValues, no_values, create_bound, find_by_approval, transition,
}
use remote_agent_devbox.Validation.{ArtifactValidator, revalidate}
use remote_agent_devbox.GitWrite.{
  GitHubCredentialConfig, Outside, WriteInput, assert_ready, execute,
}
use remote_agent_devbox.GitWrite

-- What `randomUUID()` and each `this.now()` return, here and in the executor.
pub record Readings : Type 0 where
  pub operation_id : Uuid
  pub created_at : Date
  pub started_at : Date
  pub usable_at : Date
  pub rejected_at : Date
  pub write : GitWrite.Readings

-- What the service is built with.
pub record Deployment : Type 0 where
  pub platform : Platform
  pub validate : ArtifactValidator
  pub config : GitHubCredentialConfig
  pub outside : Outside
  -- RemoteHeadObserver.observe
  pub observe : String → String → Exec Database (Option String)

unfoldable pub review_matches : ApprovalRequest → ReviewSnapshot → Bool
review_matches approval review =
    review.workspace_id == approval.workspace_id
    && review.review_digest == approval.review_digest
    && review.validator_profile_digest == approval.validator_profile_digest
    && review.security_epoch == approval.security_epoch

unfoldable pub require_approval : Uuid → Exec Database ApprovalRequest
require_approval id = do
  row ← gets (Approvals.get id)
  required row (rad "APPROVAL_NOT_FOUND" ("Approval " <> id <> " not found"))

unfoldable pub require_review : Platform → ApprovalRequest → Exec Database ReviewSnapshot
unfolding review_matches
require_review platform approval = do
  found ← get_review platform approval.review_snapshot_id
  review ←
      required found
        (rad "REVIEW_NOT_FOUND" ("Review " <> approval.review_snapshot_id <> " not found"))
  assert (review_matches approval review)
      (rad "APPROVAL_REVIEW_MISMATCH" "Approval no longer matches its review")
  pure review

unfoldable pub approval_usable : ApprovalRequest → ReviewSnapshot → Date → Bool
unfolding approval_status_eq
approval_usable approval review now =
    approval.status == ApprovalStatus.approved
    && not (leb approval.expires_at now)
    && approval.review_digest == review.review_digest
    && approval.validator_profile_digest == review.validator_profile_digest
    && approval.security_epoch == review.security_epoch

-- requireApprovalStillUsable
unfoldable pub require_approval_still_usable :
    ApprovalRequest → ReviewSnapshot → Date → Exec Database (Unit {0})
unfolding approval_usable
require_approval_still_usable approval review now =
    assert (approval_usable approval review now)
      (rad "FINAL_APPROVAL_MISMATCH" "Approval expired or changed before final revalidation")

-- The branch is the workspace's own, and not the repository's default branch.
unfoldable pub dedicated_branch : Workspace → Repository → Bool
dedicated_branch workspace repository =
    workspace.branch_name != repository.default_branch
    && workspace.branch_name == "agent/" <> workspace.id

-- What `start` reads before it writes.
pub record Bound : Type 0 where
  pub approval : ApprovalRequest
  pub review : ReviewSnapshot
  pub artifact : GitArtifact
  pub workspace : Workspace
  pub repository : Repository

unfoldable pub require_bound : Platform → Uuid → Exec Database Bound
unfolding assert_available require_approval require_review dedicated_branch
require_bound platform approval_id = do
  assert_available "Git operation start"
  approval ← require_approval approval_id
  review ← require_review platform approval
  artifact_row ← Artifacts.get review.artifact_id
  artifact ←
      required artifact_row
        (rad "ARTIFACT_NOT_FOUND" ("Artifact " <> review.artifact_id <> " not found"))
  workspace_row ← gets (get_workspace review.workspace_id)
  workspace ←
      required workspace_row
        (rad "WORKSPACE_NOT_FOUND" ("Workspace " <> review.workspace_id <> " not found"))
  repository_row ← gets (get_repository review.repository_id)
  repository ←
      required repository_row
        (rad "REPOSITORY_NOT_FOUND" ("Repository " <> review.repository_id <> " not found"))
  assert (workspace.repository_id == repository.id)
      (rad "GIT_WORKSPACE_REPOSITORY_MISMATCH" "Workspace repository binding changed")
  assert (dedicated_branch workspace repository) (
      rad "PROTECTED_BRANCH_PUSH_BLOCKED"
        "Git writes are allowed only to the workspace's dedicated agent branch")
  pure (record {
    approval = approval;
    review = review;
    artifact = artifact;
    workspace = workspace;
    repository = repository;
  })

-- `code.startsWith("FINAL_") && code.endsWith("MISMATCH")`
unfoldable pub is_final_mismatch : String → Bool
unfolding starts_with ends_with
is_final_mismatch code =
    starts_with (codes "FINAL_") (codes code) && ends_with "MISMATCH" (codes code)

module _ (deployment : Deployment) (now : Readings) where
  -- The operation that stands on the approval, or a new one.
  unfoldable pub operation_for : Bound → Option GitOperation → Exec Database GitOperation
  operation_for bound (some operation) = pure operation
  operation_for bound none = do
    assert_ready deployment.config
    expected_remote_head ←
        deployment.observe bound.repository.remote_url bound.workspace.branch_name
    create_bound (record {
      id = now.operation_id;
      workspace_id = bound.workspace.id;
      repository_id = bound.repository.id;
      review_snapshot_id = bound.review.id;
      approval_id = bound.approval.id;
      branch_name = bound.workspace.branch_name;
      target_commit = bound.review.target_commit;
      expected_remote_head = expected_remote_head;
      review_digest = bound.review.review_digest;
      validator_profile_digest = bound.review.validator_profile_digest;
      security_epoch = bound.review.security_epoch;
      created_at = now.created_at;
    })

  unfoldable pub begin_validation : GitOperation → Exec Database GitOperation
  unfolding git_state_eq
  begin_validation operation =
      if operation.state == GitOperationState.pending
      then transition operation.id GitOperationState.pending GitOperationState.validating
          (record no_values { started_at = some (some now.started_at) })
      else pure operation

  -- The `catch` clause of the validation.
  unfoldable pub reject_validation : GitOperation → Error → Exec Database GitOperation
  unfolding is_final_mismatch
  reject_validation operation error =
      let code = code_or "FINAL_REVALIDATION_FAILED" error in
      if is_final_mismatch code
      then transition operation.id GitOperationState.validating GitOperationState.stale
          (record no_values {
            stale_reason = some (some code);
            completed_at = some (some now.rejected_at);
          })
      else transition operation.id GitOperationState.validating GitOperationState.failed
          (record no_values {
            error_code = some (some code);
            error_message = some (some "Final revalidation failed");
            completed_at = some (some now.rejected_at);
          })

  -- The validation: `inl` goes on, and `inr` is returned at once.
  unfoldable pub final_validation :
      Bound → GitOperation → Exec Database (GitOperation ⊎ GitOperation)
  unfolding require_approval_still_usable reject_validation catch
  final_validation bound operation =
      catch
        (do
          require_approval_still_usable bound.approval bound.review now.usable_at
          revalidate deployment.platform deployment.validate bound.review bound.artifact
              bound.repository.default_branch
          waiting ←
              transition operation.id GitOperationState.validating
                GitOperationState.waiting_credential no_values
          pure (inl waiting))
        (λ error. do rejected ← reject_validation operation error; pure (inr rejected))

  unfoldable pub validated_operation :
      Bound → GitOperation → Exec Database (GitOperation ⊎ GitOperation)
  unfolding final_validation git_state_eq
  validated_operation bound operation =
      if operation.state == GitOperationState.validating
      then final_validation bound operation
      else pure (inl operation)

  abbrev pub finish : Bound → GitOperation ⊎ GitOperation → Exec Database GitOperation
  finish bound (inr operation) = pure operation
  finish bound (inl operation) =
      if operation.state == GitOperationState.waiting_credential
      then execute deployment.config deployment.outside now.write (record {
        operation = operation;
        approval = bound.approval;
        review = bound.review;
        artifact = bound.artifact;
        repository = bound.repository;
      })
      else pure operation

  unfoldable pub start : Uuid → Exec Database GitOperation
  unfolding require_bound operation_for begin_validation validated_operation
  start approval_id = do
    bound ← require_bound deployment.platform approval_id
    existing ← gets (find_by_approval bound.approval.id)
    operation ← operation_for bound existing
    begun ← begin_validation operation
    checked ← validated_operation bound begun
    finish bound checked
