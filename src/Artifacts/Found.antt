-- ===== src/Artifacts/Found.antt =====
-- What looking up a review finds: the row, once it has passed the check of its digests.
use mathlib.Core.Path.{subst}
use mathlib.Core.Option.{none-ne-some, some-injective}
use remote_agent_devbox.Common.{
  ◌≡◌, refl, sym, ap, ◌∙◌, Option, some, none, ◌==◌, string_eq, find_row, Ensures, on_gets,
  on_ensured, end_pure,
}
use remote_agent_devbox.Schema.Workspace.{Uuid}
use remote_agent_devbox.Schema.Artifact.{ReviewSnapshot}
use remote_agent_devbox.Schema.Database.{Database}
use remote_agent_devbox.Artifacts.Reviews.{Platform, first_review, get_review}
use remote_agent_devbox.Artifacts.Effects.{Intact, as_review_snapshot-Intact}

first_review_effect :
    (platform : Platform) (row : Option ReviewSnapshot) (db : Database)
    → Ensures
        (λ found db'.
          (db' ≡ db) × (found ≡ row) × ((r : ReviewSnapshot) → found ≡ some r → Intact platform r))
        (λ _ db'. db' ≡ db)
        (first_review platform row)
        db
first_review_effect platform none db = end_pure _ (refl, refl, λ r e. absurd (none-ne-some r e))
first_review_effect platform (some row) db =
    on_ensured _ _ _ _ (as_review_snapshot-Intact platform row db) (λ _ _ kept. kept)
      λ r t (same, kept, intact). end_pure _ (
        kept,
        ap some same,
        λ r' e. subst (Intact platform) (sym same ∙ some-injective r r' e) intact,
      )

pub get_review_effect :
    (platform : Platform) (id : Uuid) (db : Database)
    → Ensures
        (λ found db'.
          (db' ≡ db)
          × (found ≡ find_row (λ r. r.id == id) db.review_snapshots)
          × ((r : ReviewSnapshot) → found ≡ some r → Intact platform r))
        (λ _ db'. db' ≡ db)
        (get_review platform id)
        db
unfolding get_review
get_review_effect platform id db = on_gets _ _ (first_review_effect platform _ db)
