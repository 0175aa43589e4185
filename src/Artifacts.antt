-- ===== src/Artifacts.antt =====
-- packages/git-artifacts/src/repository.ts: the repositories of git artifacts and of review
-- snapshots. The modules below prove.
pub mod Reviews
pub mod Effects
pub mod Found
use remote_agent_devbox.Common.{
  ℕ, String, ◌<>◌, Bool, true, false, not, ◌&&◌, Option, none, some, List, [], ◌∷◌, length, ltb,
  leb, ◌==◌, string_eq, nat_eq, find_row, exists, update, returning, Error, rad, other, Exec, pure,
  lift, gets, modify, required, assert, transaction, ◌>>=◌, ◌>>◌,
}
use remote_agent_devbox.Names.{codes, is_sha256_digest, is_object_id}
use remote_agent_devbox.Schema.Workspace.{Uuid, Date, Workspace, Repository}
use remote_agent_devbox.Schema.Artifact.{
  Sha256Digest, GitArtifact, GitArtifactStatus, artifact_status_eq, GitObjectFormat, StructuralFile,
  ValidatorProfile, ReviewManifest, ReviewSnapshot,
}
use remote_agent_devbox.Schema.Database.{Database}

pub record NewGitArtifact : Type 0 where
  pub id : Uuid
  pub workspace_id : Uuid
  pub repository_id : Uuid
  pub artifact_digest : Sha256Digest
  pub storage_key : String
  pub size_bytes : ℕ

-- The row of `values({ ...input, status: "STAGED" })`.
unfoldable pub new_row : NewGitArtifact → Date → GitArtifact
new_row input created_at = record {
  id = input.id;
  workspace_id = input.workspace_id;
  repository_id = input.repository_id;
  artifact_digest = input.artifact_digest;
  storage_key = input.storage_key;
  size_bytes = input.size_bytes;
  status = GitArtifactStatus.staged;
  rejection_reason = none;
  created_at = created_at;
  validated_at = none;
}

unfoldable pub git_artifacts_accepts : Database → GitArtifact → Bool
git_artifacts_accepts db row =
    not (exists (λ r. r.id == row.id) db.git_artifacts)
    && exists (λ (w : Workspace). w.id == row.workspace_id) db.workspaces
    && exists (λ (r : Repository). r.id == row.repository_id) db.repositories
    && ltb 0 row.size_bytes

-- asArtifact
unfoldable pub as_artifact : GitArtifact → Exec Database GitArtifact
unfolding is_sha256_digest
as_artifact row = do
  assert (is_sha256_digest row.artifact_digest) (other "artifact digest is not canonical SHA-256")
  pure row

-- gitArtifacts.create; `created_at` is the database's clock. The row is read after the insertion, so a
-- digest that is not canonical throws when the row already stands.
unfoldable pub create : NewGitArtifact → Date → Exec Database GitArtifact
unfolding new_row git_artifacts_accepts as_artifact
create input created_at = do
  accepted ← gets (λ db. git_artifacts_accepts db (new_row input created_at))
  assert accepted (other "git_artifacts constraint violated")
  modify (λ db. record db { git_artifacts = new_row input created_at ∷ db.git_artifacts })
  as_artifact (new_row input created_at)

abbrev pub first_artifact : Option GitArtifact → Exec Database (Option GitArtifact)
first_artifact none = pure none
first_artifact (some row) = do artifact ← as_artifact row; pure (some artifact)

unfoldable pub get : Uuid → Exec Database (Option GitArtifact)
unfolding as_artifact
get id = do row ← gets (λ db. find_row (λ r. r.id == id) db.git_artifacts); first_artifact row

unfoldable pub find_by_digest : Sha256Digest → Exec Database (Option GitArtifact)
unfolding as_artifact
find_by_digest digest = do
  row ← gets (λ db. find_row (λ r. r.artifact_digest == digest) db.git_artifacts)
  first_artifact row

-- UPDATE … WHERE id = id AND status = 'STAGED'
abbrev pub is_staged : Uuid → GitArtifact → Bool
is_staged id r = r.id == id && r.status == GitArtifactStatus.staged

abbrev staged_conflict : Uuid → Error
staged_conflict id = rad "ARTIFACT_STATE_CONFLICT" ("Artifact " <> id <> " is no longer staged")

-- The update of `transition` and of `createForStagedArtifact`.
unfoldable pub leave_staged : Uuid → (GitArtifact → GitArtifact) → Exec Database GitArtifact
unfolding artifact_status_eq
leave_staged id set_values = do
  updated ← gets (λ db. returning (is_staged id) set_values db.git_artifacts)
  modify (λ db. record db { git_artifacts = update (is_staged id) set_values db.git_artifacts })
  required updated (staged_conflict id)

unfoldable pub transition : Uuid → (GitArtifact → GitArtifact) → Exec Database GitArtifact
unfolding leave_staged as_artifact
transition id set_values = do row ← leave_staged id set_values; as_artifact row

abbrev pub validated : Date → GitArtifact → GitArtifact
validated now r = record r {
  validated_at = some now;
  rejection_reason = none;
  status = GitArtifactStatus.validated;
}

abbrev pub rejected : String → Date → GitArtifact → GitArtifact
rejected reason now r = record r {
  validated_at = some now;
  rejection_reason = some reason;
  status = GitArtifactStatus.rejected;
}

-- `now` is `new Date()`.
unfoldable pub mark_validated : Uuid → Date → Exec Database GitArtifact
unfolding transition
mark_validated id now = transition id (validated now)

unfoldable pub mark_rejected : Uuid → String → Date → Exec Database GitArtifact
unfolding transition
mark_rejected id reason now = transition id (rejected reason now)
