-- ===== src/Schema/Artifact.antt =====
-- Git artifacts and review snapshots: packages/git-artifacts/src/artifact.ts, crf.ts and review.ts.
use remote_agent_devbox.Common.{ℕ, String, Option, List, Eq}
use remote_agent_devbox.Schema.Workspace.{Uuid, Date}

-- A text `sha256:…`.
abbrev pub Sha256Digest : Type 0
Sha256Digest = String

pub data GitArtifactStatus : Type 0 where
  staged validated rejected : GitArtifactStatus

unfoldable pub GitArtifactStatus-discrete : Discrete GitArtifactStatus
GitArtifactStatus-discrete = hlevel

instance unfoldable pub artifact_status_eq : Eq GitArtifactStatus
unfolding GitArtifactStatus-discrete
artifact_status_eq = record { dec = GitArtifactStatus-discrete }

pub record GitArtifact : Type 0 where
  pub id : Uuid
  pub workspace_id : Uuid
  pub repository_id : Uuid
  pub artifact_digest : Sha256Digest
  pub storage_key : String
  pub size_bytes : ℕ
  pub status : GitArtifactStatus
  pub rejection_reason : Option String
  pub created_at : Date
  pub validated_at : Option Date

pub data FileStatus : Type 0 where
  added deleted modified type_changed : FileStatus

pub data GitObjectFormat : Type 0 where
  sha1 sha256 : GitObjectFormat

pub record StructuralFile : Type 0 where
  pub path_base64 : String
  pub old_blob : String
  pub new_blob : String
  pub old_mode : String
  pub new_mode : String
  pub status : FileStatus

pub record ValidatorProfile : Type 0 where
  pub image_digest : Sha256Digest
  pub git_binary_digest : Sha256Digest
  pub canonicalizer_digest : Sha256Digest
  pub policy_digest : Sha256Digest
  pub runner_config_digest : Sha256Digest

pub record ReviewManifest : Type 0 where
  pub repository_id : Uuid
  pub workspace_id : Uuid
  pub git_object_format : GitObjectFormat
  pub base_commit : String
  pub target_commit : String
  pub target_tree : String
  pub artifact_digest : Sha256Digest
  pub validator_profile_digest : Sha256Digest
  pub policy_digest : Sha256Digest
  pub security_epoch : ℕ
  pub deployment_tier : ℕ
  pub security_posture_hash : Sha256Digest
  pub files : List StructuralFile

pub record ReviewSnapshot : Type 0 where
  pub id : Uuid
  pub workspace_id : Uuid
  pub repository_id : Uuid
  pub artifact_id : Uuid
  pub base_commit : String
  pub target_commit : String
  pub target_tree : String
  pub artifact_digest : Sha256Digest
  pub validator_profile_digest : Sha256Digest
  pub validator_profile : ValidatorProfile
  pub security_epoch : ℕ
  pub deployment_tier : ℕ
  pub security_posture_hash : Sha256Digest
  pub review_digest : Sha256Digest
  pub policy_hash : Sha256Digest
  pub structural_manifest : ReviewManifest
  pub created_at : Date
