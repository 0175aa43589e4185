-- ===== src/Artifacts/Effects.antt =====
-- What the operations on git artifacts and reviews do to the database, on every branch.
use remote_agent_devbox.Common.{
  ◌≡◌, refl, ap, ◌∙◌, true, some, ◌∷◌, String, string_eq, eq_of_==, ◌⊎◌, inl, inr, ok, find_row,
  update, Ensures, Swapped, on_gets, on_assert, on_lift, on_modify, on_ensured, end_pure, end_swap,
  end_transaction, Ensures-weaken, arith,
}
use remote_agent_devbox.Schema.Workspace.{Uuid, Date}
use remote_agent_devbox.Schema.Artifact.{GitArtifact, ReviewSnapshot}
use remote_agent_devbox.Schema.Database.{Database}
use remote_agent_devbox.Crf.{digest_canonical}
use remote_agent_devbox.Crf.Documents.{profile_json, manifest_json}
use remote_agent_devbox.Artifacts.{
  NewGitArtifact, new_row, git_artifacts_accepts, as_artifact, create, is_staged, leave_staged,
  transition, validated, rejected, mark_validated, mark_rejected,
}
use remote_agent_devbox.Artifacts.Reviews.{
  Platform, accepts_snapshot, manifest_agrees, as_review_snapshot, review_snapshots_accepts,
  create_for_staged_artifact_body, create_for_staged_artifact,
}

pub as_artifact_effect :
    (row : GitArtifact) (db : Database)
    → Ensures (λ r db'. (r ≡ row) × (db' ≡ db)) (λ _ db'. db' ≡ db) (as_artifact row) db
unfolding as_artifact
as_artifact_effect row db = on_assert _ _ _ (λ _. refl) λ _. end_pure _ (refl, refl)

-- A new artifact stands, staged.
pub record Added (input : NewGitArtifact) (at : Date) (db db' : Database) : Type 0 where
  pub accepted : git_artifacts_accepts db (new_row input at) ≡ true
  pub written : db' ≡ record db { git_artifacts = new_row input at ∷ db.git_artifacts }

pub create-Added :
    (input : NewGitArtifact) (at : Date) (db : Database)
    → Ensures
        (λ r db'. (r ≡ new_row input at) × Added input at db db')
        (λ _ db'. (db' ≡ db) ⊎ Added input at db db')
        (create input at)
        db
unfolding create
create-Added input at db = on_gets _ _ (
    on_assert _ _ _ (λ _. inl refl)
      λ accepted. on_modify _ _ (
        Ensures-weaken _ _
          (λ _ _ (same, kept). (same, record { accepted = accepted; written = kept }))
          (λ _ _ kept. inr record { accepted = accepted; written = kept })
          (as_artifact_effect _ _)))

abbrev pub Decided : Uuid → (GitArtifact → GitArtifact) → Database → GitArtifact → Database → Type 0
Decided id f db =
    Swapped (λ d. d.git_artifacts) (λ rows d. record d { git_artifacts = rows }) (is_staged id) f db

abbrev MayDecide : Uuid → (GitArtifact → GitArtifact) → Database → Database → Type 0
MayDecide id f db db' = (db' ≡ db) ⊎ ((r : GitArtifact) × Decided id f db r db')

module _ (id : Uuid) (f : GitArtifact → GitArtifact) (db : Database) where
  leave_staged-Decided : Ensures (Decided id f db) (λ _ db'. db' ≡ db) (leave_staged id f) db
  unfolding leave_staged
  leave_staged-Decided =
      end_swap (λ d. d.git_artifacts) (λ rows d. record d { git_artifacts = rows }) (λ _. refl) _ _
        _ db

  transition-Decided : Ensures (Decided id f db) (λ _. MayDecide id f db) (transition id f) db
  unfolding transition
  transition-Decided =
      on_ensured _ _ _ _ leave_staged-Decided (λ _ _ same. inl same)
        λ r t decided.
          Ensures-weaken _ _ (λ r' t' (er, et). rw (er, et) decided)
            (λ _ t' et. inr (r, rw et decided)) (as_artifact_effect r t)

-- A staged artifact is decided, once. A row whose digest is not canonical throws after the write.
pub mark_validated-Decided :
    (id : Uuid) (now : Date) (db : Database)
    → Ensures
        (Decided id (validated now) db)
        (λ _. MayDecide id (validated now) db)
        (mark_validated id now)
        db
unfolding mark_validated
mark_validated-Decided id now db = transition-Decided id (validated now) db

pub mark_rejected-Decided :
    (id : Uuid) (reason : String) (now : Date) (db : Database)
    → Ensures
        (Decided id (rejected reason now) db)
        (λ _. MayDecide id (rejected reason now) db)
        (mark_rejected id reason now)
        db
unfolding mark_rejected
mark_rejected-Decided id reason now db = transition-Decided id (rejected reason now) db

-- The row's digests are those of its profile and its manifest, and the manifest agrees with the row.
pub record Intact (platform : Platform) (r : ReviewSnapshot) : Type 0 where
  pub schema : accepts_snapshot platform r ≡ true
  pub profile :
      digest_canonical platform.sha256 (profile_json r.validator_profile)
      ≡ ok r.validator_profile_digest
  pub manifest :
      digest_canonical platform.sha256 (manifest_json r.structural_manifest) ≡ ok r.review_digest
  pub agrees : manifest_agrees r r.structural_manifest ≡ true

-- A new review stands, and its artifact is validated.
pub record Reviewed (platform : Platform) (row : ReviewSnapshot) (now : Date) (db db' : Database)
    (artifact : GitArtifact) : Type 0 where
  pub accepted : review_snapshots_accepts platform db row ≡ true
  pub artifact_row : find_row (is_staged row.artifact_id) db.git_artifacts ≡ some artifact
  pub intact : Intact platform row
  pub written : db' ≡ record db {
    review_snapshots = row ∷ db.review_snapshots;
    git_artifacts = update (is_staged row.artifact_id) (validated now) db.git_artifacts;
  }

module _ (platform : Platform) where
  pub as_review_snapshot-Intact :
      (r : ReviewSnapshot) (db : Database)
      → Ensures
          (λ r' db'. (r' ≡ r) × (db' ≡ db) × Intact platform r)
          (λ _ db'. db' ≡ db)
          (as_review_snapshot platform r)
          db
  unfolding as_review_snapshot
  as_review_snapshot-Intact r db =
      on_assert _ _ _ (λ _. refl)
        λ schema.
          on_lift _ _ (λ _ _. refl)
            λ d ed.
              on_assert _ _ _ (λ _. refl)
                λ profile.
                  on_lift _ _ (λ _ _. refl)
                    λ m em.
                      on_assert _ _ _ (λ _. refl)
                        λ manifest. end_pure _ (
                          refl,
                          refl,
                          record {
                            schema = schema;
                            profile = ed ∙ ap ok (eq_of_== _ _ profile);
                            manifest = em ∙ ap ok (eq_of_== _ _ (ground arith));
                            agrees = ground arith;
                          },
                        )

  body-Reviewed :
      (row : ReviewSnapshot) (now : Date) (db : Database)
      → Ensures
          (λ r db'.
            (r ≡ row) × ((artifact : GitArtifact) × Reviewed platform row now db db' artifact))
          (λ _ _. Unit)
          (create_for_staged_artifact_body platform row now)
          db
  unfolding create_for_staged_artifact_body
  body-Reviewed row now db = on_gets _ _ (
      on_assert _ _ _ (λ _. tt)
        λ accepted. on_modify _ _ (
          on_ensured _ _ _ _ (leave_staged-Decided _ _ _) (λ _ _ _. tt)
            λ a t (old, found, _, wrote).
              Ensures-weaken _ _
                (λ r t' (same, kept, intact). (
                  same,
                  (
                    old,
                    record {
                      accepted = accepted;
                      artifact_row = found;
                      intact = intact;
                      written = kept ∙ wrote;
                    },
                  ),
                ))
                (λ _ _ _. tt) (as_review_snapshot-Intact row t)))

  pub create_for_staged_artifact-Reviewed :
      (row : ReviewSnapshot) (now : Date) (db : Database)
      → Ensures
          (λ r db'.
            (r ≡ row) × ((artifact : GitArtifact) × Reviewed platform row now db db' artifact))
          (λ _ db'. db' ≡ db)
          (create_for_staged_artifact platform row now)
          db
  unfolding create_for_staged_artifact
  create_for_staged_artifact-Reviewed row now db =
      end_transaction _ _ (λ _. refl) (body-Reviewed row now db)
