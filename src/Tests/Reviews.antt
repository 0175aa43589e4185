-- ===== src/Tests/Reviews.antt =====
-- Canonical JSON, artifacts and reviews on concrete data.
use remote_agent_devbox.Common.{
  ℕ, ◌≡◌, ◌≢◌, refl, ap, if◌then◌else◌, ◌==◌, true, none, some, String, List, [], ◌∷◌, All, ok,
  find_row, exists, Rearranged, string_eq, nat_eq, arith,
}
use remote_agent_devbox.Names.{codes, decimal, is_sha256_digest}
use remote_agent_devbox.Schema.Artifact.{
  GitArtifact, GitArtifactStatus, artifact_status_eq, FileStatus, StructuralFile, ReviewSnapshot,
}
use remote_agent_devbox.Schema.Database.{Database}
use remote_agent_devbox.Crf.{units, Text, Json, Items, text, canonical_json, digest_canonical}
use remote_agent_devbox.Crf.Documents.{profile_json, manifest_json}
use remote_agent_devbox.Crf.Canonical.{entries_of, canonical_json-Rearranged}
use remote_agent_devbox.Crf.Files.{canonicalize_files}
use remote_agent_devbox.Crf.Files.Order.{
  Canonical, canonicalize_files-Rearranged, canonicalize_files-Canonical,
}
use remote_agent_devbox.Artifacts.Reviews.{Platform, accepts_snapshot, manifest_agrees}
use remote_agent_devbox.Artifacts.Effects.{Intact}
use remote_agent_devbox.System.{Action, run}
use remote_agent_devbox.System.Evidence.Reviewed.{Backed, run-Frozen, run-Backed, run-Standing}
use remote_agent_devbox.Tests.Data.{database, review, manifest, review_digest, target_commit}

encoded : List ℕ → String
encoded bytes = if bytes_second bytes == 81 then "YQ==" else "Yg=="
  where
    bytes_second : List ℕ → ℕ
    bytes_second (a ∷ b ∷ rest) = b
    bytes_second _ = 0

-- A platform on which every text has one digest, and `YQ==` and `Yg==` encode one byte each.
unfoldable pub platform : Platform
unfolding encoded
platform = record {
  sha256 = λ _. "bbbbbbbbbbbbbbbbbbbbbbbbbbbbbbbbbbbbbbbbbbbbbbbbbbbbbbbbbbbbbbbb";
  decode = codes;
  encode = encoded;
  is_uuid = λ _. true;
}

-- {"b":[1,"x\"y"],"a":null}
abbrev members : List (Text × Json)
members =
    (
      text "b",
      Json.array (Items.item (Json.whole 1) (Items.item (Json.characters (text "x\"y")) Items.nil)),
    )
    ∷ (text "a", Json.null)
    ∷ []

canonical_text :
    canonical_json (Json.object (entries_of members))
    ≡ ok (text "{\"a\":null,\"b\":[1,\"x\\\"y\"]}")
unfolding canonical_json entries_of nat_eq decimal
canonical_text = refl

keys_differ : text "b" ≢ text "a"
unfolding units
keys_differ e = ground arith

canonical_json-Rearranged_example :
    canonical_json (Json.object (entries_of members))
    ≡ canonical_json (
        Json.object (
          entries_of (
            (text "a", Json.null)
            ∷ (
              text "b",
              Json.array (
                  Items.item (Json.whole 1) (Items.item (Json.characters (text "x\"y")) Items.nil)),
            )
            ∷ [])))
canonical_json-Rearranged_example =
    canonical_json-Rearranged members _ (Rearranged.exchange _ _ []) ((keys_differ, tt), (tt, tt))

abbrev pub file : String → StructuralFile
file path = record {
  path_base64 = path;
  old_blob = target_commit;
  new_blob = target_commit;
  old_mode = "100644";
  new_mode = "100644";
  status = FileStatus.modified;
}

abbrev pub two_files : List StructuralFile
two_files = file "Yg==" ∷ file "YQ==" ∷ []

pub paths_differ : (file "Yg==").path_base64 ≢ (file "YQ==").path_base64
paths_differ e = let h : codes "Yg==" ≡ codes "YQ==" = ap codes e in ground arith

two_files_run :
    canonicalize_files platform.decode platform.encode two_files
    ≡ ok (file "YQ==" ∷ file "Yg==" ∷ [])
unfolding canonicalize_files platform nat_eq string_eq
two_files_run = refl

canonicalize_files-Rearranged_example :
    canonicalize_files platform.decode platform.encode two_files
    ≡ canonicalize_files platform.decode platform.encode (file "YQ==" ∷ file "Yg==" ∷ [])
canonicalize_files-Rearranged_example =
    canonicalize_files-Rearranged platform.decode platform.encode two_files
      (file "YQ==" ∷ file "Yg==" ∷ []) (Rearranged.exchange (file "Yg==") (file "YQ==") [])
      ((paths_differ, tt), (tt, tt))

canonicalize_files-Canonical_example :
    Canonical platform.decode platform.encode two_files (file "YQ==" ∷ file "Yg==" ∷ [])
canonicalize_files-Canonical_example =
    canonicalize_files-Canonical platform.decode platform.encode two_files
      (file "YQ==" ∷ file "Yg==" ∷ []) two_files_run

abbrev pub checked_review : ReviewSnapshot
checked_review = record review {
  validator_profile_digest = review_digest;
  structural_manifest = record manifest { validator_profile_digest = review_digest };
}

abbrev pub artifact : GitArtifactStatus → GitArtifact
artifact status = record {
  id = "artifact";
  workspace_id = "workspace";
  repository_id = "repository";
  artifact_digest = review_digest;
  storage_key = "sha256/bundle";
  size_bytes = 10;
  status = status;
  rejection_reason = none;
  created_at = 5;
  validated_at = some 9;
}

abbrev pub with_review : Database
with_review = record database {
  git_artifacts = artifact GitArtifactStatus.validated ∷ [];
  review_snapshots = checked_review ∷ [];
}

abbrev later : List Action
later =
    Action.mark_artifact_rejected "artifact" "bad" 50
    ∷ Action.mark_artifact_validated "artifact" 60
    ∷ []

run-Frozen_example :
    find_row (λ r. r.id == "artifact") (run later with_review).git_artifacts
    ≡ some (artifact GitArtifactStatus.validated)
unfolding artifact_status_eq find_row string_eq
run-Frozen_example = run-Frozen (artifact GitArtifactStatus.validated) later with_review refl refl

run-Standing_example :
    find_row (λ r. r.id == "review") (run later with_review).review_snapshots ≡ some checked_review
unfolding find_row string_eq
run-Standing_example = run-Standing checked_review later with_review refl

-- The review passes the check of its digests.
checked_review-Intact : Intact platform checked_review
unfolding accepts_snapshot digest_canonical profile_json manifest_json manifest_agrees platform
    nat_eq string_eq decimal is_sha256_digest
checked_review-Intact = record { schema = refl; profile = refl; manifest = refl; agrees = refl }

checked_review-Backed : Backed with_review.git_artifacts checked_review
unfolding exists find_row string_eq artifact_status_eq
checked_review-Backed = record { artifact = refl }

run-Backed_example :
    All (Backed (run later with_review).git_artifacts) (run later with_review).review_snapshots
run-Backed_example = run-Backed later with_review (checked_review-Backed, tt)
