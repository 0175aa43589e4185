-- ===== src/System/Evidence.antt =====
-- What an action can do to the tables of git artifacts and of review snapshots.
pub mod Reviewed
use remote_agent_devbox.Common.{
  ◌≡◌, refl, true, false, Bool, some, List, ◌∷◌, ◌==◌, string_eq, ◌&&◌, exists, find_row, update,
  ap, arith,
}
use remote_agent_devbox.Schema.Workspace.{Uuid, Date}
use remote_agent_devbox.Schema.Artifact.{
  GitArtifact, GitArtifactStatus, artifact_status_eq, ReviewSnapshot,
}
use remote_agent_devbox.Schema.Database.{Database}
use remote_agent_devbox.Artifacts.{git_artifacts_accepts, new_row, is_staged, validated}
use remote_agent_devbox.Artifacts.Reviews.{Platform, review_snapshots_accepts}
use remote_agent_devbox.Artifacts.Effects.{Intact}
use remote_agent_devbox.Outbox.Effects as OutboxEffects
use remote_agent_devbox.SecurityMigration.{invalidate_all}
use remote_agent_devbox.System.Change.{Change, Leaves, validated-Leaves}

pub data EvidenceStep (xs : List GitArtifact) (rs : List ReviewSnapshot) (ys : List GitArtifact)
    (qs : List ReviewSnapshot) : Type 0 where
  kept : ys ≡ xs → qs ≡ rs → EvidenceStep xs rs ys qs
  added :
      (new : GitArtifact)
      → exists (λ r. r.id == new.id) xs ≡ false
      → ys ≡ new ∷ xs
      → qs ≡ rs
      → EvidenceStep xs rs ys qs
  decided :
      (id : Uuid) (f : GitArtifact → GitArtifact)
      → Leaves f
      → ys ≡ update (is_staged id) f xs
      → qs ≡ rs
      → EvidenceStep xs rs ys qs
  reviewed :
      (platform : Platform) (new : ReviewSnapshot) (now : Date) (artifact : GitArtifact)
      → exists (λ r. r.id == new.id) rs ≡ false
      → exists (λ r. r.artifact_id == new.artifact_id) rs ≡ false
      → find_row (is_staged new.artifact_id) xs ≡ some artifact
      → Intact platform new
      → ys ≡ update (is_staged new.artifact_id) (validated now) xs
      → qs ≡ new ∷ rs
      → EvidenceStep xs rs ys qs

fresh_artifact :
    (db : Database) (row : GitArtifact)
    → git_artifacts_accepts db row ≡ true
    → exists (λ r. r.id == row.id) db.git_artifacts ≡ false
unfolding git_artifacts_accepts
fresh_artifact db row h = ground arith

fresh_review :
    (platform : Platform) (db : Database) (row : ReviewSnapshot)
    → review_snapshots_accepts platform db row ≡ true
    → (exists (λ r. r.id == row.id) db.review_snapshots ≡ false)
      × (exists (λ r. r.artifact_id == row.artifact_id) db.review_snapshots ≡ false)
unfolding review_snapshots_accepts
fresh_review platform db row h = (ground arith, ground arith)

abbrev artifacts : Database → List GitArtifact
artifacts d = d.git_artifacts

abbrev reviews : Database → List ReviewSnapshot
reviews d = d.review_snapshots

pub Change-EvidenceStep :
    {db db' : Database}
    → Change db db'
    → EvidenceStep db.git_artifacts db.review_snapshots db'.git_artifacts db'.review_snapshots
unfolding invalidate_all
Change-EvidenceStep (Change.same w) = kept (ap artifacts w) (ap reviews w)
Change-EvidenceStep (Change.repository_added r w) = kept (ap artifacts w) (ap reviews w)
Change-EvidenceStep (Change.workspace_added input at x e a w) = kept (ap artifacts w) (ap reviews w)
Change-EvidenceStep (Change.workspace_updated id v f x k u) =
    kept (ap artifacts u.3) (ap reviews u.3)
Change-EvidenceStep (Change.metadata_seeded t h n w) = kept (ap artifacts w) (ap reviews w)
Change-EvidenceStep (Change.metadata_set old m e a b c w) = kept (ap artifacts w) (ap reviews w)
Change-EvidenceStep (Change.state_requested i j d at r c q) =
    kept (ap artifacts q.written) (ap reviews q.written)
Change-EvidenceStep (Change.command_claimed now r (OutboxEffects.idle e f w)) =
    kept (ap artifacts w) (ap reviews w)
Change-EvidenceStep (Change.command_claimed now r (OutboxEffects.one c e f w)) =
    kept (ap artifacts w) (ap reviews w)
Change-EvidenceStep (Change.command_succeeded id at f) = kept (ap artifacts f.2) (ap reviews f.2)
Change-EvidenceStep (Change.command_failed id e r at f) = kept (ap artifacts f.2) (ap reviews f.2)
Change-EvidenceStep (Change.commands_recovered b at w) = kept (ap artifacts w) (ap reviews w)
Change-EvidenceStep (Change.approval_requested i a r m q) =
    kept (ap artifacts q.written) (ap reviews q.written)
Change-EvidenceStep (Change.approval_decided id d by at a old f q) =
    kept (ap artifacts (q.swapped.3)) (ap reviews (q.swapped.3))
Change-EvidenceStep (Change.operation_created i op b) = kept (ap artifacts (b.3)) (ap reviews (b.3))
Change-EvidenceStep (Change.operation_moved id e n v op al t) =
    kept (ap artifacts (t.3)) (ap reviews (t.3))
Change-EvidenceStep (Change.lease_reserved i l o m q) =
    kept (ap artifacts q.written) (ap reviews q.written)
Change-EvidenceStep (Change.lease_issued id at x l m) = kept (ap artifacts m.3) (ap reviews m.3)
Change-EvidenceStep (Change.lease_consumed id at l m) = kept (ap artifacts m.3) (ap reviews m.3)
Change-EvidenceStep (Change.lease_failed id r l m) = kept (ap artifacts m.3) (ap reviews m.3)
Change-EvidenceStep (Change.lease_uncertain id r l m) = kept (ap artifacts m.3) (ap reviews m.3)
Change-EvidenceStep (Change.code_issued i code c q) =
    kept (ap artifacts q.written) (ap reviews q.written)
Change-EvidenceStep (Change.code_redeemed i s code c q) =
    kept (ap artifacts q.written) (ap reviews q.written)
Change-EvidenceStep (Change.task_created t w) = kept (ap artifacts w) (ap reviews w)
Change-EvidenceStep (Change.task_moved id from f t m) = kept (ap artifacts m.3) (ap reviews m.3)
Change-EvidenceStep (Change.audit_appended e w) = kept (ap artifacts w) (ap reviews w)
Change-EvidenceStep (Change.migrated i r c f g q) =
    kept (ap artifacts q.written) (ap reviews q.written)
Change-EvidenceStep {db} (Change.artifact_added input at a) =
    added (new_row input at) (fresh_artifact db (new_row input at) a.accepted)
      (ap artifacts a.written) (ap reviews a.written)
Change-EvidenceStep (Change.artifact_decided id f r leaves (_, _, _, w)) =
    decided id f leaves (ap artifacts w) (ap reviews w)
Change-EvidenceStep {db} (Change.review_added platform row now artifact r) =
    let fresh = fresh_review platform db row r.accepted in
    reviewed platform row now artifact fresh.0 fresh.1 r.artifact_row r.intact
      (ap artifacts r.written) (ap reviews r.written)
