-- ===== src/Artifacts/Reviews.antt =====
-- packages/git-artifacts/src/repository.ts: the repository of review snapshots, whose rows are checked
-- against their digests whenever they are read. The modules below prove.
use remote_agent_devbox.Common.{
  ℕ, String, ◌<>◌, Bool, not, ◌&&◌, Option, none, some, List, ◌∷◌, length, ltb, leb, ◌==◌,
  string_eq, nat_eq, find_row, exists, Error, rad, other, Exec, pure, lift, gets, modify, assert,
  transaction, ◌>>=◌, ◌>>◌,
}
use remote_agent_devbox.Names.{codes, is_sha256_digest, is_object_id}
use remote_agent_devbox.Schema.Workspace.{Uuid, Date, Workspace, Repository}
use remote_agent_devbox.Schema.Artifact.{
  GitArtifact, GitObjectFormat, StructuralFile, ValidatorProfile, ReviewManifest, ReviewSnapshot,
}
use remote_agent_devbox.Schema.Database.{Database}
use remote_agent_devbox.Crf.{Text, digest_canonical}
use remote_agent_devbox.Crf.Documents.{profile_json, manifest_json}
use remote_agent_devbox.Crf.Files.{accepts_file, all}
use remote_agent_devbox.Artifacts.{leave_staged, validated}

-- The functions of the platform and of zod that the schemas and digests rest on.
pub record Platform : Type 0 where
  -- createHash("sha256").update(text, "utf8").digest("hex")
  pub sha256 : Text → String
  -- Buffer.from(text, "base64")
  pub decode : String → List ℕ
  -- buffer.toString("base64")
  pub encode : List ℕ → String
  -- z.string().uuid()
  pub is_uuid : String → Bool

unfoldable pub accepts_profile : ValidatorProfile → Bool
unfolding is_sha256_digest
accepts_profile p =
    is_sha256_digest p.image_digest
    && is_sha256_digest p.git_binary_digest
    && is_sha256_digest p.canonicalizer_digest
    && is_sha256_digest p.policy_digest
    && is_sha256_digest p.runner_config_digest

abbrev expected_length : GitObjectFormat → ℕ
expected_length GitObjectFormat.sha1 = 40
expected_length GitObjectFormat.sha256 = 64

abbrev has_length : ℕ → String → Bool
has_length n s = length (codes s) == n

-- reviewManifestSchema
unfoldable pub accepts_manifest : Platform → ReviewManifest → Bool
unfolding is_sha256_digest is_object_id accepts_file all
accepts_manifest platform m =
    let n = expected_length m.git_object_format in
    platform.is_uuid m.repository_id
    && platform.is_uuid m.workspace_id
    && is_object_id m.base_commit
    && is_object_id m.target_commit
    && is_object_id m.target_tree
    && is_sha256_digest m.artifact_digest
    && is_sha256_digest m.validator_profile_digest
    && is_sha256_digest m.policy_digest
    && leb 1 m.security_epoch
    && leb 1 m.deployment_tier
    && leb m.deployment_tier 3
    && is_sha256_digest m.security_posture_hash
    && all (accepts_file platform.decode platform.encode) m.files
    && leb (length m.files) 10000
    && has_length n m.base_commit
    && has_length n m.target_commit
    && has_length n m.target_tree
    && all (λ (f : StructuralFile). has_length n f.old_blob && has_length n f.new_blob) m.files

-- The schemas that asReviewSnapshot parses with.
unfoldable pub accepts_snapshot : Platform → ReviewSnapshot → Bool
unfolding accepts_profile accepts_manifest
accepts_snapshot platform r =
    is_sha256_digest r.artifact_digest
    && is_sha256_digest r.validator_profile_digest
    && accepts_profile r.validator_profile
    && is_sha256_digest r.security_posture_hash
    && is_sha256_digest r.review_digest
    && is_sha256_digest r.policy_hash
    && accepts_manifest platform r.structural_manifest

-- The manifest names what the row names.
unfoldable pub manifest_agrees : ReviewSnapshot → ReviewManifest → Bool
manifest_agrees r m =
    m.repository_id == r.repository_id
    && m.workspace_id == r.workspace_id
    && m.base_commit == r.base_commit
    && m.target_commit == r.target_commit
    && m.target_tree == r.target_tree
    && m.artifact_digest == r.artifact_digest
    && m.validator_profile_digest == r.validator_profile_digest
    && m.policy_digest == r.policy_hash
    && m.security_epoch == r.security_epoch
    && m.deployment_tier == r.deployment_tier
    && m.security_posture_hash == r.security_posture_hash

abbrev integrity_failed : Uuid → Error
integrity_failed id =
    rad "REVIEW_INTEGRITY_FAILED"
      ("Review snapshot " <> id <> " failed canonical integrity verification")

module _ (platform : Platform) where
  unfoldable pub as_review_snapshot : ReviewSnapshot → Exec Database ReviewSnapshot
  unfolding accepts_snapshot digest_canonical profile_json manifest_json manifest_agrees
  as_review_snapshot r = do
    assert (accepts_snapshot platform r) (other "review snapshot is not valid")
    profile_digest ← lift (digest_canonical platform.sha256 (profile_json r.validator_profile))
    assert (profile_digest == r.validator_profile_digest) (integrity_failed r.id)
    manifest_digest ← lift (digest_canonical platform.sha256 (manifest_json r.structural_manifest))
    assert (manifest_digest == r.review_digest && manifest_agrees r r.structural_manifest)
        (integrity_failed r.id)
    pure r

  abbrev pub first_review : Option ReviewSnapshot → Exec Database (Option ReviewSnapshot)
  first_review none = pure none
  first_review (some row) = do review ← as_review_snapshot row; pure (some review)

  unfoldable pub get_review : Uuid → Exec Database (Option ReviewSnapshot)
  unfolding as_review_snapshot
  get_review id = do
    row ← gets (λ db. find_row (λ r. r.id == id) db.review_snapshots)
    first_review row

  unfoldable pub find_by_artifact : Uuid → Exec Database (Option ReviewSnapshot)
  unfolding as_review_snapshot
  find_by_artifact artifact_id = do
    row ← gets (λ db. find_row (λ r. r.artifact_id == artifact_id) db.review_snapshots)
    first_review row

  -- The constraints of the table `review_snapshots` that a new row must meet.
  unfoldable pub review_snapshots_accepts : Database → ReviewSnapshot → Bool
  review_snapshots_accepts db row =
      not (exists (λ r. r.id == row.id) db.review_snapshots)
      && not (exists (λ r. r.artifact_id == row.artifact_id) db.review_snapshots)
      && exists (λ (w : Workspace). w.id == row.workspace_id) db.workspaces
      && exists (λ (o : Repository). o.id == row.repository_id) db.repositories
      && exists (λ (a : GitArtifact). a.id == row.artifact_id) db.git_artifacts
      && ltb 0 row.security_epoch
      && leb 1 row.deployment_tier
      && leb row.deployment_tier 3

  unfoldable pub create_for_staged_artifact_body :
      ReviewSnapshot → Date → Exec Database ReviewSnapshot
  unfolding as_review_snapshot
  create_for_staged_artifact_body row now = do
    accepted ← gets (λ db. review_snapshots_accepts db row)
    assert accepted (other "review_snapshots constraint violated")
    modify (λ db. record db { review_snapshots = row ∷ db.review_snapshots })
    leave_staged row.artifact_id (validated now)
    as_review_snapshot row

  -- reviewSnapshots.createForStagedArtifact: the input with the database's clock as created_at is the
  -- row, and `now` is `new Date()`.
  unfoldable pub create_for_staged_artifact : ReviewSnapshot → Date → Exec Database ReviewSnapshot
  unfolding create_for_staged_artifact_body leave_staged as_review_snapshot review_snapshots_accepts
  create_for_staged_artifact row now = transaction (create_for_staged_artifact_body row now)
