-- ===== src/Tests/Writing.antt =====
-- Revalidation, and the start and the execution of a git operation, on concrete data.
use remote_agent_devbox.Common.{
  ◌≡◌, refl, true, none, some, Option, List, [], ◌∷◌, ok, err, Result, rad, Exec, find_row, exists,
  returning, update, ◌>>=◌, Rearranged, string_eq, nat_eq, Ensures,
}
use remote_agent_devbox.Schema.Artifact.{
  GitArtifactStatus, artifact_status_eq, StructuralFile, ReviewManifest, GitObjectFormat,
}
use remote_agent_devbox.Schema.Git.{GitOperation, GitOperationState}
use remote_agent_devbox.Schema.Database.{Database}
use remote_agent_devbox.Names.{decimal, is_sha256_digest}
use remote_agent_devbox.Crf.{digest_canonical}
use remote_agent_devbox.Crf.Documents.{manifest_json}
use remote_agent_devbox.GitOperations.{in_state, transition}
use remote_agent_devbox.Leases
use remote_agent_devbox.Validation.{
  ValidationResult, ArtifactValidator, review_manifest, artifact_matches, same_context, revalidate,
}
use remote_agent_devbox.Validation.Reproduced.{
  listing, ContextHolds, Reproduces, Revalidated, revalidate-Reproduces, revalidate-Revalidated,
}
use remote_agent_devbox.GitWrite.{GitHubCredentialConfig, Outside, WriteInput, PushInput, execute}
use remote_agent_devbox.GitWrite
use remote_agent_devbox.GitWrite.Settled.{Executed, execute-Executed}
use remote_agent_devbox.GitWrite.Authorized.{Authorized, execute_pushes_authorized}
use remote_agent_devbox.GitStart.{Deployment, Bound, start}
use remote_agent_devbox.GitStart
use remote_agent_devbox.GitStart.Guarded.{is_begun, Guarded, start-Guarded}
use remote_agent_devbox.Tests.Data.{
  database, review, approval, repository, metadata, profile, profile_digest, review_digest,
  target_commit, posture,
}
use remote_agent_devbox.Tests.Operations.{operation_in, with_operation}
use remote_agent_devbox.Tests.Reviews.{platform, file, two_files, paths_differ, artifact}

abbrev validation : ValidationResult
validation = record {
  manifest = record {
    git_object_format = GitObjectFormat.sha1;
    base_commit = target_commit;
    target_commit = target_commit;
    target_tree = target_commit;
    files = two_files;
  };
  profile = profile;
  profile_digest = profile_digest;
}

abbrev turned : List StructuralFile
turned = file "YQ==" ∷ file "Yg==" ∷ []

-- A validator that lists the files in the other order.
abbrev turning : ArtifactValidator
turning a branch db = (ok (listing validation turned), db)

abbrev made_manifest : ReviewManifest
made_manifest = record {
  repository_id = "repository";
  workspace_id = "workspace";
  git_object_format = GitObjectFormat.sha1;
  base_commit = target_commit;
  target_commit = target_commit;
  target_tree = target_commit;
  artifact_digest = review_digest;
  validator_profile_digest = profile_digest;
  policy_digest = profile_digest;
  security_epoch = 4;
  deployment_tier = 2;
  security_posture_hash = posture;
  files = turned;
}

validation-Reproduces : Reproduces platform review (artifact GitArtifactStatus.validated) validation
unfolding review_manifest digest_canonical manifest_json platform nat_eq string_eq decimal
    is_sha256_digest
validation-Reproduces = record {
  profile = refl;
  manifest = made_manifest;
  made = refl;
  digest = refl;
}

database-ContextHolds : ContextHolds review metadata database
unfolding same_context nat_eq string_eq
database-ContextHolds = (refl, refl)

revalidate-Reproduces_example :
    revalidate platform turning review (artifact GitArtifactStatus.validated) "main" database
    ≡ (ok tt, database)
unfolding artifact_matches string_eq
revalidate-Reproduces_example =
    revalidate-Reproduces platform turning review (artifact GitArtifactStatus.validated) "main"
      validation turned database database metadata metadata validation-Reproduces
      (Rearranged.exchange (file "Yg==") (file "YQ==") []) ((paths_differ, tt), (tt, tt)) refl refl
      database-ContextHolds database-ContextHolds

revalidate-Revalidated_example :
    Ensures
      (λ _ db'.
        Revalidated platform turning review
          (artifact GitArtifactStatus.validated)
          "main"
          database
          db')
      (λ _ _. Unit {0})
      (revalidate platform turning review (artifact GitArtifactStatus.validated) "main")
      database
revalidate-Revalidated_example =
    revalidate-Revalidated platform turning review (artifact GitArtifactStatus.validated) "main"
      database

abbrev config : GitHubCredentialConfig
config = record {
  app_id = some "app";
  installation_id = some "installation";
  private_key_base64 = some "key";
}

-- Calls that succeed and leave the database as it is.
abbrev outside : Outside
outside = record {
  resolve = λ key. ok key;
  prepare = λ path commit db. (ok tt, db);
  push = λ sent db. (ok tt, db);
  dispose = λ db. (ok tt, db);
  issue_for_operation = λ input db. (ok (record { token = "token"; expires_at = 3600000 }), db);
  create_pull_request = λ input db. (ok (record { number = 7; url = "url" }), db);
}

abbrev readings : GitWrite.Readings
readings = record {
  lease_id = "lease";
  checked_at = 60;
  reserved_at = 61;
  issued_at = 62;
  rechecked_at = 63;
  usable_at = 64;
  consumed_at = 65;
  succeeded_at = 66;
  lease_ended_at = 67;
  failed_at = 68;
}

abbrev waiting : Database
waiting = with_operation GitOperationState.waiting_credential

abbrev write_input : WriteInput
write_input = record {
  operation = operation_in GitOperationState.waiting_credential;
  approval = approval;
  review = review;
  artifact = artifact GitArtifactStatus.validated;
  repository = repository;
}

execute-Executed_example :
    Ensures
      (Executed write_input waiting)
      (λ _ _. Unit {0})
      (execute config outside readings write_input)
      waiting
execute-Executed_example = execute-Executed config outside readings write_input waiting

-- A push that fails unless the operation is pushing.
abbrev guarded_push : PushInput → Exec Database (Unit {0})
guarded_push sent db =
    elim (find_row (in_state "operation" GitOperationState.pushing) db.git_operations) [
      | none ↦ (err (rad "NOT_PUSHING" "the operation is not pushing"), db)
      | some row ↦ (ok tt, db)
    ]

guarded_push-alike :
    (sent : PushInput) (db : Database)
    → Authorized write_input 63 db
    → guarded_push sent db ≡ outside.push sent db
guarded_push-alike sent db h = rw (h.operation_row, guarded_push) refl

execute_pushes_authorized_example :
    execute config outside readings write_input waiting
    ≡ execute config (record outside { push = guarded_push }) readings write_input waiting
execute_pushes_authorized_example =
    execute_pushes_authorized outside guarded_push readings write_input guarded_push-alike config
      waiting

abbrev deployment : Deployment
deployment = record {
  platform = platform;
  validate = turning;
  config = config;
  outside = outside;
  observe = λ url branch db. (ok none, db);
}

abbrev start_readings : GitStart.Readings
start_readings = record {
  operation_id = "operation";
  created_at = 50;
  started_at = 51;
  usable_at = 52;
  rejected_at = 53;
  write = readings;
}

start-Guarded_example :
    Ensures
      (λ op _. (is_begun op.state ≡ true) × ((b : Bound) × Guarded platform "approval" database b))
      (λ _ _. Unit {0})
      (start deployment start_readings "approval")
      database
start-Guarded_example = start-Guarded deployment start_readings "approval" database

abbrev state_after : Result GitOperation × Database → Option GitOperationState
state_after (ok op, db) = some op.state
state_after (err e, db) = none

-- A write whose calls succeed ends in success.
write_succeeds :
    state_after (execute config outside readings write_input waiting)
    ≡ some GitOperationState.succeeded
unfolding execute find_row string_eq nat_eq ◌>>=◌ Leases.reserve exists Leases.mark_issued returning
    transition Leases.mark_consumed update
write_succeeds = refl

-- A push that loses the compare-and-swap ends in a conflict.
write_conflicts :
    state_after (
      execute config
        (record outside { push = λ sent db. (err (rad "REMOTE_CAS_CONFLICT" "lost"), db) })
        readings
        write_input
        waiting)
    ≡ some GitOperationState.conflict
unfolding execute find_row string_eq nat_eq ◌>>=◌ Leases.reserve exists Leases.mark_issued returning
    transition Leases.mark_consumed update
write_conflicts = refl
