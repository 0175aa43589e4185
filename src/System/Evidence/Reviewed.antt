-- ===== src/System/Evidence/Reviewed.antt =====
-- Reviews and the artifacts that they are of (packages/git-artifacts/src/repository.ts).
use remote_agent_devbox.Common.{
  ◌≡◌, true, false, Bool, some, List, ◌==◌, string_eq, ◌&&◌, exists, find_row, update, All, All-map,
  exists-update_unselected, exists-cons, exists_of_row, frozen-update, frozen-cons, written_row,
  arith,
}
use remote_agent_devbox.Schema.Workspace.{Uuid, Date}
use remote_agent_devbox.Schema.Artifact.{
  GitArtifact, GitArtifactStatus, artifact_status_eq, ReviewSnapshot,
}
use remote_agent_devbox.Schema.Database.{Database}
use remote_agent_devbox.Artifacts.{is_staged, validated}
use remote_agent_devbox.System.{Action, run, run_keeps}
use remote_agent_devbox.System.Change.{perform-Change, Leaves, validated-Leaves}
use remote_agent_devbox.System.Evidence.{
  EvidenceStep, kept, added, decided, reviewed, Change-EvidenceStep,
}

-- The row of the artifact is as it was.
record Frozen (a : GitArtifact) (xs : List GitArtifact) : Type 0 where
  row : find_row (λ r. r.id == a.id) xs ≡ some a

not_staged :
    (id : Uuid) (a : GitArtifact)
    → (a.status == GitArtifactStatus.staged) ≡ false
    → is_staged id a ≡ false
not_staged id a h = ground arith

update-Frozen :
    {a : GitArtifact} {xs ys : List GitArtifact} (id : Uuid) (f : GitArtifact → GitArtifact)
    → Leaves f
    → ys ≡ update (is_staged id) f xs
    → (a.status == GitArtifactStatus.staged) ≡ false
    → Frozen a xs
    → Frozen a ys
update-Frozen {a} {xs} id f leaves w decided_before h = record {
  row = rw w (
      frozen-update (λ r. r.id == a.id) (is_staged id) f xs (λ r. rw (leaves.same_id r)) h.row
        (not_staged id a decided_before));
}

EvidenceStep-Frozen :
    {a : GitArtifact} {xs ys : List GitArtifact} {rs qs : List ReviewSnapshot}
    → (a.status == GitArtifactStatus.staged) ≡ false
    → EvidenceStep xs rs ys qs
    → Frozen a xs
    → Frozen a ys
EvidenceStep-Frozen d (kept w _) h = record { row = rw w h.row }
EvidenceStep-Frozen {a} {xs} d (added new fresh w _) h = record {
  row = rw w (frozen-cons (λ (r : GitArtifact). r.id) a.id new xs h.row fresh);
}
EvidenceStep-Frozen d (decided id f leaves w _) h = update-Frozen id f leaves w d h
EvidenceStep-Frozen d (reviewed _ new now _ _ _ _ _ w _) h =
    update-Frozen new.artifact_id (validated now) (validated-Leaves now) w d h

-- A git artifact that is validated or rejected never changes again, whatever the requests.
pub run-Frozen :
    (a : GitArtifact) (actions : List Action) (db : Database)
    → (a.status == GitArtifactStatus.staged) ≡ false
    → find_row (λ r. r.id == a.id) db.git_artifacts ≡ some a
    → find_row (λ r. r.id == a.id) (run actions db).git_artifacts ≡ some a
run-Frozen a actions db d row =
    (run_keeps (λ d'. Frozen a d'.git_artifacts)
      (λ act d'. EvidenceStep-Frozen d (Change-EvidenceStep (perform-Change act d'))) actions db
      (record { row = row })).row

abbrev pub is_validated : Uuid → GitArtifact → Bool
is_validated id a = a.id == id && a.status == GitArtifactStatus.validated

-- The artifact that the review names is validated.
pub record Backed (xs : List GitArtifact) (r : ReviewSnapshot) : Type 0 where
  pub artifact : exists (is_validated r.artifact_id) xs ≡ true

validated_not_staged :
    (id id' : Uuid) (a : GitArtifact) → is_validated id a ≡ true → is_staged id' a ≡ false
unfolding artifact_status_eq
validated_not_staged id id' a h = ground arith

becomes_validated :
    (id : Uuid) (now : Date) (a : GitArtifact)
    → is_staged id a ≡ true
    → is_validated id (validated now a) ≡ true
unfolding artifact_status_eq
becomes_validated id now a h = ground arith

update-Backed :
    {xs ys : List GitArtifact} (id : Uuid) (f : GitArtifact → GitArtifact)
    → ys ≡ update (is_staged id) f xs
    → (r : ReviewSnapshot) → Backed xs r
    → Backed ys r
update-Backed {xs} id f w r b = record {
  artifact = rw w (
      exists-update_unselected _ (is_staged id) f xs (λ a. validated_not_staged r.artifact_id id a)
        b.artifact);
}

EvidenceStep-Backed :
    {xs ys : List GitArtifact} {rs qs : List ReviewSnapshot}
    → EvidenceStep xs rs ys qs
    → All (Backed xs) rs
    → All (Backed ys) qs
EvidenceStep-Backed (kept w v) h = rw (w, v) h
EvidenceStep-Backed {xs} {rs = rs} (added new _ w v) h =
    rw (w, v) (All-map _ _ (λ r b. record { artifact = exists-cons _ new xs b.artifact }) rs h)
EvidenceStep-Backed {rs = rs} (decided id f _ w v) h =
    rw v (All-map _ _ (update-Backed id f w) rs h)
EvidenceStep-Backed {xs} {rs = rs} (reviewed platform new now a _ _ found intact w v) h =
    let (y, row) =
      written_row (is_validated new.artifact_id) (is_staged new.artifact_id) (validated now) xs
        (becomes_validated new.artifact_id now) found in
    rw v (
      record { artifact = rw w (exists_of_row _ _ row) },
      All-map _ _ (update-Backed new.artifact_id (validated now) w) rs h,
    )

-- Where every review names an artifact that is validated, every review does after any requests.
pub run-Backed :
    (actions : List Action) (db : Database)
    → All (Backed db.git_artifacts) db.review_snapshots
    → All (Backed (run actions db).git_artifacts) (run actions db).review_snapshots
run-Backed =
    run_keeps (λ d. All (Backed d.git_artifacts) d.review_snapshots)
      (λ a d. EvidenceStep-Backed (Change-EvidenceStep (perform-Change a d)))

record Standing (r : ReviewSnapshot) (rs : List ReviewSnapshot) : Type 0 where
  row : find_row (λ s. s.id == r.id) rs ≡ some r

EvidenceStep-Standing :
    {r : ReviewSnapshot} {xs ys : List GitArtifact} {rs qs : List ReviewSnapshot}
    → EvidenceStep xs rs ys qs
    → Standing r rs
    → Standing r qs
EvidenceStep-Standing (kept _ v) h = record { row = rw v h.row }
EvidenceStep-Standing (added _ _ _ v) h = record { row = rw v h.row }
EvidenceStep-Standing (decided _ _ _ _ v) h = record { row = rw v h.row }
EvidenceStep-Standing {r} {rs = rs} (reviewed _ new _ _ fresh _ _ _ _ v) h = record {
  row = rw v (frozen-cons (λ (s : ReviewSnapshot). s.id) r.id new rs h.row fresh);
}

-- A review that is there is never changed or hidden, whatever the requests.
pub run-Standing :
    (r : ReviewSnapshot) (actions : List Action) (db : Database)
    → find_row (λ s. s.id == r.id) db.review_snapshots ≡ some r
    → find_row (λ s. s.id == r.id) (run actions db).review_snapshots ≡ some r
run-Standing r actions db row =
    (run_keeps (λ d. Standing r d.review_snapshots)
      (λ a d. EvidenceStep-Standing (Change-EvidenceStep (perform-Change a d))) actions db
      (record { row = row })).row
