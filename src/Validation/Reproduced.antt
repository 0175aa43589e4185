-- ===== src/Validation/Reproduced.antt =====
-- Revalidation reproduces a review, whatever the order in which the validator lists the files.
use remote_agent_devbox.Common.{
  ◌≡◌, refl, sym, ap, ◌∙◌, true, some, List, String, ok, Ensures, Yields, on_call, on_returned,
  on_holds, Yields-pure, Rearranged, Apart, on_gets, on_assert, on_lift, on_ensured,
  end_required_where, end_pure, Ensures_itself, arith, ◌>>=◌, string_eq, nat_eq, eq_of_==, ==_refl,
}
use remote_agent_devbox.Schema.Security.{InstanceSecurityMetadata}
use remote_agent_devbox.Schema.Workspace.{Uuid}
use remote_agent_devbox.Schema.Artifact.{
  GitArtifact, GitArtifactStatus, StructuralFile, ReviewManifest, ReviewSnapshot, Sha256Digest,
}
use remote_agent_devbox.Schema.Database.{Database}
use remote_agent_devbox.Crf.{digest_canonical}
use remote_agent_devbox.Crf.Documents.{manifest_json}
use remote_agent_devbox.Crf.Files.Order.{OtherPath, canonicalize_files-Rearranged}
use remote_agent_devbox.Artifacts.Reviews.{Platform}
use remote_agent_devbox.Validation.{
  ValidationResult, ArtifactValidator, Context, context_of, same_context, review_manifest,
  review_context, require_security_context, artifact_matches, revalidate,
}

-- The validation with its files in another order.
abbrev pub listing : ValidationResult → List StructuralFile → ValidationResult
listing v files = record v { manifest = record v.manifest { files = files } }

module _ (platform : Platform) where
  review_manifest-listing :
      (repository_id workspace_id : Uuid) (artifact_digest : Sha256Digest) (context : Context)
      (v : ValidationResult) (files : List StructuralFile)
      → Rearranged v.manifest.files files
      → Apart OtherPath v.manifest.files
      → review_manifest platform repository_id workspace_id artifact_digest context v
        ≡ review_manifest platform repository_id workspace_id artifact_digest context
            (listing v files)
  unfolding review_manifest
  review_manifest-listing repository_id workspace_id artifact_digest context v files r apart =
      rw
        (canonicalize_files-Rearranged platform.decode platform.encode v.manifest.files files r
          apart)
        refl

-- The database's security context is the review's.
abbrev pub ContextHolds : ReviewSnapshot → InstanceSecurityMetadata → Database → Type 0
ContextHolds review m db =
    (db.metadata ≡ some m) × (same_context (context_of m) (review_context review) ≡ true)

-- The manifest that the review's context and a validation make has the review's digest.
pub record Reproduces (platform : Platform) (review : ReviewSnapshot) (artifact : GitArtifact)
    (v : ValidationResult) : Type 0 where
  pub profile : v.profile_digest ≡ review.validator_profile_digest
  pub manifest : ReviewManifest
  pub made :
      review_manifest platform review.repository_id review.workspace_id artifact.artifact_digest
        (review_context review)
        v
      ≡ ok manifest
  pub digest : digest_canonical platform.sha256 (manifest_json manifest) ≡ ok review.review_digest

module _ (platform : Platform) (validate : ArtifactValidator) where
  context_outcome :
      (review : ReviewSnapshot) (m : InstanceSecurityMetadata) (d : Database)
      → ContextHolds review m d
      → require_security_context review d ≡ (ok m, d)
  unfolding require_security_context ◌>>=◌
  context_outcome review m d (row, holds) = rw (row, holds) refl

  context_checked :
      (review : ReviewSnapshot) (d : Database)
      → Ensures
          (λ m d'. (d' ≡ d) × ContextHolds review m d')
          (λ _ _. Unit {0})
          (require_security_context review)
          d
  unfolding require_security_context
  context_checked review d =
      on_gets _ _ (end_required_where _ _ _ tt λ m row holds. (refl, (row, holds)))

  -- The database's security context is the review's, column by column.
  pub record InContext (review : ReviewSnapshot) (db : Database) : Type 0 where
    pub metadata : InstanceSecurityMetadata
    pub row : db.metadata ≡ some metadata
    pub epoch : metadata.security_epoch ≡ review.security_epoch
    pub tier : metadata.deployment_tier ≡ review.deployment_tier
    pub posture : metadata.security_posture_hash ≡ review.security_posture_hash

  holds-InContext :
      (review : ReviewSnapshot) (m : InstanceSecurityMetadata) (d : Database)
      → ContextHolds review m d
      → InContext review d
  unfolding same_context
  holds-InContext review m d (row, holds) = record {
    metadata = m;
    row = row;
    epoch = ground (arith, holds);
    tier = ground (arith, holds);
    posture = ground (arith, holds);
  }

  -- What has been checked when a revalidation returns.
  pub record Revalidated (review : ReviewSnapshot) (artifact : GitArtifact) (branch : String)
      (db db' : Database) : Type 0 where
    pub same_artifact : artifact.id ≡ review.artifact_id
    pub same_workspace : artifact.workspace_id ≡ review.workspace_id
    pub same_repository : artifact.repository_id ≡ review.repository_id
    pub same_digest : artifact.artifact_digest ≡ review.artifact_digest
    pub is_validated : artifact.status ≡ GitArtifactStatus.validated
    pub context_before : InContext review db
    pub validation : ValidationResult
    pub validated : Database
    pub called : validate artifact branch db ≡ (ok validation, validated)
    pub reproduces : Reproduces platform review artifact validation
    pub context_after : InContext review validated
    pub kept : db' ≡ validated

  -- Whatever the validator does, when a revalidation returns, the artifact is the one that the
  -- review names, in its workspace and repository, with its digest and validated; the security
  -- context was the review's before the validator was called and is so after it; and what the
  -- validator returned has the review's profile and makes a manifest whose digest is the review's.
  pub revalidate-Revalidated :
      (review : ReviewSnapshot) (artifact : GitArtifact) (branch : String) (db : Database)
      → Ensures
          (λ _ db'. Revalidated review artifact branch db db')
          (λ _ _. Unit {0})
          (revalidate platform validate review artifact branch)
          db
  unfolding revalidate artifact_matches
  revalidate-Revalidated review artifact branch db =
      on_assert _ _ _ (λ _. tt)
        λ matches.
          on_ensured _ _ _ _ (context_checked review db) (λ _ _ _. tt)
            λ m t (kept, before).
              on_ensured _ _ _ _ (Ensures_itself (validate artifact branch) t) (λ _ _ _. tt)
                λ v u called.
                  on_assert _ _ _ (λ _. tt)
                    λ profile.
                      on_lift _ _ (λ _ _. tt)
                        λ manifest made.
                          on_lift _ _ (λ _ _. tt)
                            λ d digest.
                              on_assert _ _ _ (λ _. tt)
                                λ equal.
                                  on_ensured _ _ _ _ (context_checked review u) (λ _ _ _. tt)
                                    λ m' u' (same, after). end_pure _ record {
                                      same_artifact = ground (arith, matches);
                                      same_workspace = ground (arith, matches);
                                      same_repository = ground (arith, matches);
                                      same_digest = ground (arith, matches);
                                      is_validated = ground (arith, matches);
                                      context_before =
                                          holds-InContext review m db (rw (← kept) before);
                                      validation = v;
                                      validated = u;
                                      called = rw (← kept) called;
                                      reproduces = record {
                                        profile = eq_of_== _ _ profile;
                                        manifest = manifest;
                                        made = made;
                                        digest = digest ∙ ap ok (eq_of_== _ _ equal);
                                      };
                                      context_after =
                                          holds-InContext review m' u (rw (← same) after);
                                      kept = same;
                                    }

  -- A review whose digest was made from a validation of an artifact is reproduced: where the
  -- validator returns that validation again with its files in any order, each path once, the
  -- artifact still matches and the security context is the review's before and after, revalidating
  -- succeeds and leaves the database as the validator left it.
  pub revalidate-Reproduces :
      (review : ReviewSnapshot) (artifact : GitArtifact) (branch : String) (v : ValidationResult)
      (files : List StructuralFile) (db db' : Database) (m m' : InstanceSecurityMetadata)
      → Reproduces platform review artifact v
      → Rearranged v.manifest.files files
      → Apart OtherPath v.manifest.files
      → artifact_matches review artifact ≡ true
      → validate artifact branch db ≡ (ok (listing v files), db')
      → ContextHolds review m db
      → ContextHolds review m' db'
      → revalidate platform validate review artifact branch db ≡ (ok tt, db')
  unfolding revalidate
  revalidate-Reproduces review artifact branch v files db db' m m' made r apart matches called
        before after =
      let same =
        review_manifest-listing platform review.repository_id review.workspace_id
          artifact.artifact_digest (review_context review) v files r apart in
      let steps : Yields (revalidate platform validate review artifact branch) db tt db' =
        on_holds _ _ _ matches (
          on_call _ _ (context_outcome review m db before) (
            on_call _ _ called (
              on_holds _ _ _ (rw made.profile (==_refl review.validator_profile_digest)) (
                on_returned _ _ (sym same ∙ made.made) (
                  on_returned _ _ made.digest (
                    on_holds _ _ _ (==_refl review.review_digest) (
                      on_call _ _ (context_outcome review m' db' after)
                        (Yields-pure tt db')))))))) in
      steps.outcome
