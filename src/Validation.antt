-- ===== src/Validation.antt =====
-- apps/control/src/validation/review-service.ts and exact-revalidator.ts: how a review is made from a
-- validation of an artifact, and how it is reproduced before a write. The validator is a parameter, an
-- action on the database since other requests may be answered while it runs. The modules below prove.
pub mod Reproduced
use remote_agent_devbox.Common.{
  ℕ, String, ◌<>◌, Bool, true, false, not, ◌&&◌, ◌||◌, Option, none, some, List, leb, ◌==◌,
  string_eq, nat_eq, Error, rad, other, Result, ok, err, Exec, pure, lift, gets, assert, required,
  required_where, ◌>>=◌, ◌>>◌, if◌then◌else◌,
}
use remote_agent_devbox.Names.{is_sha256_digest}
use remote_agent_devbox.Schema.Workspace.{Uuid, Date, Repository}
use remote_agent_devbox.Schema.Security.{InstanceSecurityMetadata}
use remote_agent_devbox.Schema.Artifact.{
  Sha256Digest, GitArtifact, GitArtifactStatus, artifact_status_eq, GitObjectFormat, StructuralFile,
  ValidatorProfile, ReviewManifest, ReviewSnapshot,
}
use remote_agent_devbox.Schema.Database.{Database}
use remote_agent_devbox.Crf.{digest_canonical}
use remote_agent_devbox.Crf.Documents.{manifest_json}
use remote_agent_devbox.Crf.Files.{canonicalize_files}
use remote_agent_devbox.Artifacts
use remote_agent_devbox.Artifacts.Reviews.{
  Platform, accepts_manifest, find_by_artifact, get_review, create_for_staged_artifact,
}
use remote_agent_devbox.Workspaces.{get_repository}

pub record ValidatorManifest : Type 0 where
  pub git_object_format : GitObjectFormat
  pub base_commit : String
  pub target_commit : String
  pub target_tree : String
  pub files : List StructuralFile

pub record ValidationResult : Type 0 where
  pub manifest : ValidatorManifest
  pub profile : ValidatorProfile
  pub profile_digest : Sha256Digest

-- ArtifactValidator
abbrev pub ArtifactValidator : Type 0
ArtifactValidator = GitArtifact → String → Exec Database ValidationResult

-- The instance's security context, as a review names it.
pub record Context : Type 0 where
  pub security_epoch : ℕ
  pub deployment_tier : ℕ
  pub security_posture_hash : Sha256Digest

abbrev pub context_of : InstanceSecurityMetadata → Context
context_of m = record {
  security_epoch = m.security_epoch;
  deployment_tier = m.deployment_tier;
  security_posture_hash = m.security_posture_hash;
}

-- sameSecurityContext
unfoldable pub same_context : Context → Context → Bool
same_context left right =
    left.security_epoch == right.security_epoch
    && left.deployment_tier == right.deployment_tier
    && left.security_posture_hash == right.security_posture_hash

abbrev manifest_with :
    Uuid → Uuid → Sha256Digest → Context → ValidationResult → List StructuralFile → ReviewManifest
manifest_with repository_id workspace_id artifact_digest context validation files = record {
  repository_id = repository_id;
  workspace_id = workspace_id;
  git_object_format = validation.manifest.git_object_format;
  base_commit = validation.manifest.base_commit;
  target_commit = validation.manifest.target_commit;
  target_tree = validation.manifest.target_tree;
  artifact_digest = artifact_digest;
  validator_profile_digest = validation.profile_digest;
  policy_digest = validation.profile.policy_digest;
  security_epoch = context.security_epoch;
  deployment_tier = context.deployment_tier;
  security_posture_hash = context.security_posture_hash;
  files = files;
}

module _ (platform : Platform) where
  -- reviewManifestSchema.parse
  abbrev parsed_manifest : ReviewManifest → Result ReviewManifest
  parsed_manifest m =
      if accepts_manifest platform m then ok m else err (other "review manifest is not valid")

  abbrev with_files :
      (List StructuralFile → ReviewManifest) → Result (List StructuralFile) → Result ReviewManifest
  with_files f (err e) = err e
  with_files f (ok files) = parsed_manifest (f files)

  -- The manifest of a validation, its files in canonical order.
  unfoldable pub review_manifest :
      Uuid → Uuid → Sha256Digest → Context → ValidationResult → Result ReviewManifest
  unfolding canonicalize_files accepts_manifest
  review_manifest repository_id workspace_id artifact_digest context validation =
      with_files (manifest_with repository_id workspace_id artifact_digest context validation)
        (canonicalize_files platform.decode platform.encode validation.manifest.files)

-- The metadata is a context that a review can name.
unfoldable pub context_valid : InstanceSecurityMetadata → Bool
context_valid m =
    leb m.security_epoch 9007199254740991
    && leb 1 m.security_epoch
    && leb 1 m.deployment_tier
    && leb m.deployment_tier 3

-- requireSecurityMetadata
unfoldable pub require_security_metadata : Exec Database Context
unfolding context_valid is_sha256_digest
require_security_metadata = do
  row ← gets (λ db. db.metadata)
  m ←
      required row
        (rad "SECURITY_CONTEXT_MISSING" "Instance security metadata has not been initialized")
  assert (context_valid m) (rad "SECURITY_CONTEXT_INVALID" "Instance security metadata is invalid")
  assert (is_sha256_digest m.security_posture_hash) (other "posture hash is not canonical SHA-256")
  pure (context_of m)

abbrev status_text : GitArtifactStatus → String
status_text GitArtifactStatus.staged = "STAGED"
status_text GitArtifactStatus.validated = "VALIDATED"
status_text GitArtifactStatus.rejected = "REJECTED"

-- The row of the new review. `id` is `randomUUID()`, and `created_at` is the database's clock.
abbrev pub snapshot_of :
    Uuid
    → Date
    → GitArtifact
    → Context
    → ValidationResult
    → ReviewManifest
    → Sha256Digest
    → ReviewSnapshot
snapshot_of id created_at artifact context validation m review_digest = record {
  id = id;
  workspace_id = artifact.workspace_id;
  repository_id = artifact.repository_id;
  artifact_id = artifact.id;
  base_commit = m.base_commit;
  target_commit = m.target_commit;
  target_tree = m.target_tree;
  artifact_digest = artifact.artifact_digest;
  validator_profile_digest = validation.profile_digest;
  validator_profile = validation.profile;
  security_epoch = context.security_epoch;
  deployment_tier = context.deployment_tier;
  security_posture_hash = m.security_posture_hash;
  review_digest = review_digest;
  policy_hash = validation.profile.policy_digest;
  structural_manifest = m;
  created_at = created_at;
}

module _ (platform : Platform) (validate : ArtifactValidator) where
  -- `validateArtifact` for an artifact that has no review.
  unfoldable pub validate_staged : Uuid → Uuid → Date → Date → Exec Database ReviewSnapshot
  unfolding review_manifest require_security_metadata same_context artifact_status_eq
  validate_staged artifact_id id created_at now = do
    row ← Artifacts.get artifact_id
    artifact ← required row (rad "ARTIFACT_NOT_FOUND" ("Artifact " <> artifact_id <> " not found"))
    assert (artifact.status == GitArtifactStatus.staged) (
        rad "ARTIFACT_STATE_CONFLICT" (
          "Artifact "
          <> artifact_id
          <> " cannot be validated from "
          <> status_text artifact.status))
    found ← gets (get_repository artifact.repository_id)
    repository ←
        required found
          (rad "REPOSITORY_NOT_FOUND" ("Repository " <> artifact.repository_id <> " not found"))
    context ← require_security_metadata
    validation ← validate artifact repository.default_branch
    final_context ← require_security_metadata
    assert (same_context context final_context) (
        rad "SECURITY_CONTEXT_CHANGED"
          "Security context changed during validation; the result was discarded")
    manifest ← lift (
        review_manifest platform artifact.repository_id artifact.workspace_id
          artifact.artifact_digest context validation)
    review_digest ← lift (digest_canonical platform.sha256 (manifest_json manifest))
    create_for_staged_artifact platform
        (snapshot_of id created_at artifact context validation manifest review_digest) now

  abbrev existing_or :
      Exec Database ReviewSnapshot → Option ReviewSnapshot → Exec Database ReviewSnapshot
  existing_or make none = make
  existing_or make (some review) = pure review

  -- ReviewService.validateArtifact
  unfoldable pub validate_artifact : Uuid → Uuid → Date → Date → Exec Database ReviewSnapshot
  unfolding validate_staged find_by_artifact
  validate_artifact artifact_id id created_at now = do
    existing ← find_by_artifact platform artifact_id
    existing_or (validate_staged artifact_id id created_at now) existing

unfoldable pub artifact_matches : ReviewSnapshot → GitArtifact → Bool
unfolding artifact_status_eq
artifact_matches review artifact =
    artifact.id == review.artifact_id
    && artifact.workspace_id == review.workspace_id
    && artifact.repository_id == review.repository_id
    && artifact.artifact_digest == review.artifact_digest
    && artifact.status == GitArtifactStatus.validated

abbrev pub review_context : ReviewSnapshot → Context
review_context review = record {
  security_epoch = review.security_epoch;
  deployment_tier = review.deployment_tier;
  security_posture_hash = review.security_posture_hash;
}

unfoldable pub require_security_context : ReviewSnapshot → Exec Database InstanceSecurityMetadata
unfolding same_context
require_security_context review = do
  metadata ← gets (λ db. db.metadata)
  required_where (λ m. same_context (context_of m) (review_context review)) metadata
      (rad "FINAL_SECURITY_CONTEXT_MISMATCH" "Security context changed after human approval")

module _ (platform : Platform) (validate : ArtifactValidator) where
  -- ExactRevalidator.revalidate
  unfoldable pub revalidate : ReviewSnapshot → GitArtifact → String → Exec Database (Unit {0})
  unfolding review_manifest artifact_matches require_security_context
  revalidate review artifact default_branch = do
    assert (artifact_matches review artifact) (
        rad "FINAL_ARTIFACT_MISMATCH"
          "Approved Review Snapshot no longer matches the immutable artifact record")
    require_security_context review
    validation ← validate artifact default_branch
    assert (validation.profile_digest == review.validator_profile_digest)
        (rad "FINAL_VALIDATOR_PROFILE_MISMATCH" "Exact validator profile is no longer available")
    reproduced ← lift (
        review_manifest platform review.repository_id review.workspace_id artifact.artifact_digest
          (review_context review) validation)
    digest ← lift (digest_canonical platform.sha256 (manifest_json reproduced))
    assert (digest == review.review_digest) (
        rad "FINAL_REVIEW_DIGEST_MISMATCH"
          "Final structural revalidation did not reproduce the approved review digest")
    require_security_context review
    pure tt
