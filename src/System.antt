-- ===== src/System.antt =====
-- The whole database as one state machine: every writing call of a repository is an action, and a
-- history is a list of actions, in the order in which the database commits them. Each call of a
-- repository is one statement or one transaction, so other requests interleave only between calls.
pub mod Change
pub mod Codes
pub mod Sessions
pub mod Once
pub mod Requests
pub mod Operations
pub mod Epoch
pub mod Evidence
pub mod Cutoff
use remote_agent_devbox.Common.{ℕ, String, Option, List, [], ◌∷◌}
use remote_agent_devbox.Schema.Workspace.{Uuid, Date, DesiredWorkspaceState, ObservedWorkspaceState}
use remote_agent_devbox.Schema.Git.{GitOperationState}
use remote_agent_devbox.Schema.Audit.{NewAuditEvent}
use remote_agent_devbox.Schema.Artifact.{ReviewSnapshot}
use remote_agent_devbox.Schema.Database.{Database}
use remote_agent_devbox.Artifacts.{NewGitArtifact}
use remote_agent_devbox.Artifacts
use remote_agent_devbox.Artifacts.Reviews.{Platform}
use remote_agent_devbox.Artifacts.Reviews
use remote_agent_devbox.Workspaces.{NewRepository, NewWorkspace}
use remote_agent_devbox.Workspaces
use remote_agent_devbox.Metadata
use remote_agent_devbox.Outbox
use remote_agent_devbox.Approvals.{NewApprovalRequest}
use remote_agent_devbox.Approvals
use remote_agent_devbox.GitOperations.{NewGitOperation, GitOperationValues}
use remote_agent_devbox.GitOperations
use remote_agent_devbox.Leases.{NewLease}
use remote_agent_devbox.Leases
use remote_agent_devbox.IdeAccess.{IssueCodeInput, RedeemCodeInput}
use remote_agent_devbox.IdeAccess
use remote_agent_devbox.Tasks.{NewAgentTask}
use remote_agent_devbox.Tasks
use remote_agent_devbox.Audit
use remote_agent_devbox.SecurityMigration.{CommitInput}
use remote_agent_devbox.SecurityMigration

pub data Action : Type 0 where
  create_repository : NewRepository → Date → Action
  create_workspace : NewWorkspace → Date → Action
  set_desired_state : Uuid → DesiredWorkspaceState → ℕ → Action
  set_observed_state : Uuid → ObservedWorkspaceState → ℕ → Option String → Action
  synchronize : ℕ → String → Date → Action
  enter_maintenance : String → Date → Action
  exit_maintenance : ℕ → Date → Action
  request_workspace_state : Uuid → Uuid → DesiredWorkspaceState → Date → Action
  claim_next : Date → Action
  mark_command_succeeded : Uuid → Date → Action
  mark_command_failed : Uuid → String → Option Date → Date → Action
  recover_stale : Date → Date → Action
  create_approval : NewApprovalRequest → Action
  approve : Uuid → Uuid → Date → Action
  deny : Uuid → Uuid → Date → Action
  create_operation : NewGitOperation → Action
  transition_operation : Uuid → GitOperationState → GitOperationState → GitOperationValues → Action
  reserve_lease : NewLease → Action
  mark_lease_issued : Uuid → Date → Date → Action
  mark_lease_consumed : Uuid → Date → Action
  mark_lease_failed : Uuid → Date → String → Action
  mark_lease_uncertain : Uuid → Date → String → Action
  issue_code : IssueCodeInput → Action
  redeem_code : RedeemCodeInput → Action
  create_task : NewAgentTask → Date → Action
  mark_task_running : Uuid → Date → Action
  mark_task_completed : Uuid → String → Date → Action
  mark_task_failed : Uuid → String → Date → Action
  append_audit : NewAuditEvent → Action
  commit_migration : Uuid → Uuid → CommitInput → Action
  create_artifact : NewGitArtifact → Date → Action
  mark_artifact_validated : Uuid → Date → Action
  mark_artifact_rejected : Uuid → String → Date → Action
  create_review : Platform → ReviewSnapshot → Date → Action

-- The database after an action, whether it returned or threw.
unfoldable pub perform : Action → Database → Database
perform (create_repository input at) db = (Workspaces.create_repository input at db).1
perform (create_workspace input at) db = (Workspaces.create_workspace input at db).1
perform (set_desired_state id desired version) db =
    (Workspaces.set_desired_state id desired version db).1
perform (set_observed_state id observed version error) db =
    (Workspaces.set_observed_state id observed version error db).1
perform (synchronize tier hash now) db = (Metadata.synchronize_security_metadata tier hash now db).1
perform (enter_maintenance reason at) db = (Metadata.enter_maintenance_mode reason at db).1
perform (exit_maintenance epoch at) db = (Metadata.exit_maintenance_mode epoch at db).1
perform (request_workspace_state id workspace desired at) db =
    (Outbox.request_workspace_state id workspace desired at db).1
perform (claim_next now) db = (Outbox.claim_next now db).1
perform (mark_command_succeeded id at) db = (Outbox.mark_succeeded id at db).1
perform (mark_command_failed id error retry at) db = (Outbox.mark_failed id error retry at db).1
perform (recover_stale before at) db = (Outbox.recover_stale before at db).1
perform (create_approval input) db = (Approvals.create_bound input db).1
perform (approve id by at) db = (Approvals.approve id by at db).1
perform (deny id by at) db = (Approvals.deny id by at db).1
perform (create_operation input) db = (GitOperations.create_bound input db).1
perform (transition_operation id expected next values) db =
    (GitOperations.transition id expected next values db).1
perform (reserve_lease input) db = (Leases.reserve input db).1
perform (mark_lease_issued id at expires) db = (Leases.mark_issued id at expires db).1
perform (mark_lease_consumed id at) db = (Leases.mark_consumed id at db).1
perform (mark_lease_failed id at reason) db = (Leases.mark_failed id at reason db).1
perform (mark_lease_uncertain id at reason) db = (Leases.mark_uncertain id at reason db).1
perform (issue_code input) db = (IdeAccess.issue_code input db).1
perform (redeem_code input) db = (IdeAccess.redeem_code input db).1
perform (create_task input at) db = (Tasks.create input at db).1
perform (mark_task_running id now) db = (Tasks.mark_running id now db).1
perform (mark_task_completed id result now) db = (Tasks.mark_completed id result now db).1
perform (mark_task_failed id error now) db = (Tasks.mark_failed id error now db).1
perform (append_audit input) db = (Audit.append input db).1
perform (commit_migration a b input) db = (SecurityMigration.commit a b input db).1
perform (create_artifact input at) db = (Artifacts.create input at db).1
perform (mark_artifact_validated id now) db = (Artifacts.mark_validated id now db).1
perform (mark_artifact_rejected id reason now) db = (Artifacts.mark_rejected id reason now db).1
perform (create_review platform row now) db =
    (Reviews.create_for_staged_artifact platform row now db).1

unfoldable pub run : List Action → Database → Database
run [] db = db
run (a ∷ rest) db = run rest (perform a db)

-- What every action keeps, every history keeps.
pub run_keeps {ℓ} :
    (P : Database → Type ℓ)
    → ((a : Action) (db : Database) → P db → P (perform a db))
    → (actions : List Action) (db : Database) → P db
    → P (run actions db)
unfolding run
run_keeps P keep [] db h = h
run_keeps P keep (a ∷ rest) db h = run_keeps P keep rest (perform a db) (keep a db h)
