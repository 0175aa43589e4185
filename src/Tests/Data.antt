-- ===== src/Tests/Data.antt =====
-- An instance with one workspace that is ready, one review and one approval, for the tests.
use remote_agent_devbox.Common.{String, true, false, none, some, List, [], ◌∷◌}
use remote_agent_devbox.Schema.Workspace.{
  Repository, Workspace, DesiredWorkspaceState, ObservedWorkspaceState,
}
use remote_agent_devbox.Schema.Security.{InstanceSecurityMetadata}
use remote_agent_devbox.Schema.Artifact.{
  ReviewSnapshot, ReviewManifest, ValidatorProfile, GitObjectFormat,
}
use remote_agent_devbox.Schema.Approval.{ApprovalRequest, ApprovalStatus}
use remote_agent_devbox.Schema.Git.{GitOperation}
use remote_agent_devbox.Schema.Ide.{IdeAccessCode, IdeAccessSession}
use remote_agent_devbox.Schema.Database.{Database}
use remote_agent_devbox.GitOperations.{NewGitOperation}
use remote_agent_devbox.IdeAccess.{IssueCodeInput, RedeemCodeInput}
use remote_agent_devbox.SecurityMigration.{CommitInput}

abbrev pub posture : String
posture = "sha256:aaaaaaaaaaaaaaaaaaaaaaaaaaaaaaaaaaaaaaaaaaaaaaaaaaaaaaaaaaaaaaaa"

abbrev pub review_digest : String
review_digest = "sha256:bbbbbbbbbbbbbbbbbbbbbbbbbbbbbbbbbbbbbbbbbbbbbbbbbbbbbbbbbbbbbbbb"

abbrev pub profile_digest : String
profile_digest = "sha256:cccccccccccccccccccccccccccccccccccccccccccccccccccccccccccccccc"

abbrev pub code_digest : String
code_digest = "sha256:1111111111111111111111111111111111111111111111111111111111111111"

abbrev pub next_code_digest : String
next_code_digest = "sha256:2222222222222222222222222222222222222222222222222222222222222222"

abbrev pub session_digest : String
session_digest = "sha256:3333333333333333333333333333333333333333333333333333333333333333"

abbrev pub next_session_digest : String
next_session_digest = "sha256:4444444444444444444444444444444444444444444444444444444444444444"

abbrev pub target_commit : String
target_commit = "5555555555555555555555555555555555555555"

abbrev pub metadata : InstanceSecurityMetadata
metadata = record {
  deployment_tier = 2;
  security_epoch = 4;
  security_posture_hash = posture;
  maintenance_mode = false;
  maintenance_reason = none;
  maintenance_started_at = none;
  updated_at = 0;
}

abbrev pub repository : Repository
repository = record {
  id = "repository";
  remote_url = "https://github.com/owner/name.git";
  default_branch = "main";
  created_at = 0;
}

abbrev pub workspace : Workspace
workspace = record {
  id = "workspace";
  owner_user_id = "owner";
  repository_id = "repository";
  desired_state = DesiredWorkspaceState.running;
  observed_state = ObservedWorkspaceState.ready;
  state_version = 3;
  branch_name = "main";
  created_at = 0;
  expires_at = 1000000;
  last_error = none;
}

abbrev pub profile : ValidatorProfile
profile = record {
  image_digest = profile_digest;
  git_binary_digest = profile_digest;
  canonicalizer_digest = profile_digest;
  policy_digest = profile_digest;
  runner_config_digest = profile_digest;
}

abbrev pub manifest : ReviewManifest
manifest = record {
  repository_id = "repository";
  workspace_id = "workspace";
  git_object_format = GitObjectFormat.sha1;
  base_commit = target_commit;
  target_commit = target_commit;
  target_tree = target_commit;
  artifact_digest = review_digest;
  validator_profile_digest = profile_digest;
  policy_digest = profile_digest;
  security_epoch = 4;
  deployment_tier = 2;
  security_posture_hash = posture;
  files = [];
}

abbrev pub review : ReviewSnapshot
review = record {
  id = "review";
  workspace_id = "workspace";
  repository_id = "repository";
  artifact_id = "artifact";
  base_commit = target_commit;
  target_commit = target_commit;
  target_tree = target_commit;
  artifact_digest = review_digest;
  validator_profile_digest = profile_digest;
  validator_profile = profile;
  security_epoch = 4;
  deployment_tier = 2;
  security_posture_hash = posture;
  review_digest = review_digest;
  policy_hash = profile_digest;
  structural_manifest = manifest;
  created_at = 10;
}

abbrev pub approval : ApprovalRequest
approval = record {
  id = "approval";
  workspace_id = "workspace";
  review_snapshot_id = "review";
  review_digest = review_digest;
  validator_profile_digest = profile_digest;
  security_epoch = 4;
  deployment_tier = 2;
  security_posture_hash = posture;
  status = ApprovalStatus.approved;
  stale_reason = none;
  requested_by = "owner";
  requested_at = 20;
  expires_at = 900000;
  decided_by = some "owner";
  decided_at = some 30;
}

abbrev pub code : IdeAccessCode
code = record {
  id = "code";
  workspace_id = "workspace";
  code_digest = code_digest;
  deployment_tier = 2;
  security_epoch = 4;
  workspace_state_version = 3;
  created_at = 40;
  expires_at = 60040;
  consumed_at = none;
  invalidated_at = none;
}

abbrev pub session : IdeAccessSession
session = record {
  id = "session";
  workspace_id = "workspace";
  session_digest = session_digest;
  deployment_tier = 2;
  security_epoch = 4;
  workspace_state_version = 3;
  created_at = 35;
  expires_at = 900035;
  revoked_at = none;
}

abbrev pub database : Database
database = record {
  metadata = some metadata;
  repositories = repository ∷ [];
  workspaces = workspace ∷ [];
  outbox_commands = [];
  git_artifacts = [];
  review_snapshots = review ∷ [];
  approval_requests = approval ∷ [];
  git_operations = [];
  credential_leases = [];
  ide_access_codes = code ∷ [];
  ide_access_sessions = session ∷ [];
  agent_tasks = [];
  audit_events = [];
}

abbrev pub new_operation : NewGitOperation
new_operation = record {
  id = "operation";
  workspace_id = "workspace";
  repository_id = "repository";
  review_snapshot_id = "review";
  approval_id = "approval";
  branch_name = "rad/change-1";
  target_commit = target_commit;
  expected_remote_head = none;
  review_digest = review_digest;
  validator_profile_digest = profile_digest;
  security_epoch = 4;
  created_at = 50;
}

abbrev pub issue_input : IssueCodeInput
issue_input = record {
  id = "next code";
  workspace_id = "workspace";
  code_digest = next_code_digest;
  created_at = 60;
  expires_at = 60060;
}

-- A redemption of a code, for a new session.
abbrev pub redeem_input : String → String → RedeemCodeInput
redeem_input digest id = record {
  code_digest = digest;
  session_id = id;
  session_digest = next_session_digest;
  session_ttl_seconds = 600;
  redeemed_at = 70;
}

-- The instance in maintenance, with an operation that has not started.
abbrev pub maintained : List GitOperation → Database
maintained operations = record database {
  metadata = some (record metadata {
    maintenance_mode = true;
    maintenance_reason = some "migration";
    maintenance_started_at = some 80;
    updated_at = 80;
  });
  git_operations = operations;
}

abbrev pub migration : CommitInput
migration = record {
  migration = record {
    target_tier = 3;
    target_posture_hash = profile_digest;
    initiated_by = "owner";
    reason = "raise the tier";
    confirmation = "MIGRATE";
    force_epoch_rotation = false;
  };
  expected_tier = 2;
  expected_epoch = 4;
  expected_posture_hash = posture;
  completed_at = 90;
}
