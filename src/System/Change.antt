-- ===== src/System/Change.antt =====
-- The writes that an action can commit.
use remote_agent_devbox.Common.{
  ℕ, ◌≡◌, refl, true, false, ◌==◌, String, Option, some, [], ◌∷◌, string_eq, update, inl, inr,
  Ensures_after, arith, ◌⊎◌,
}
use remote_agent_devbox.Schema.Workspace.{Uuid, Date, Repository, Workspace, DesiredWorkspaceState}
use remote_agent_devbox.Schema.Security.{InstanceSecurityMetadata}
use remote_agent_devbox.Schema.Outbox.{OutboxCommand}
use remote_agent_devbox.Schema.Artifact.{
  GitArtifact, GitArtifactStatus, artifact_status_eq, ReviewSnapshot,
}
use remote_agent_devbox.Schema.Approval.{ApprovalRequest, ApprovalStatus}
use remote_agent_devbox.Schema.Git.{
  GitOperation, GitOperationState, CredentialLease, CredentialLeaseState,
}
use remote_agent_devbox.Schema.Ide.{IdeAccessCode, IdeAccessSession}
use remote_agent_devbox.Schema.Audit.{AuditEvent}
use remote_agent_devbox.Schema.Task.{AgentTask, TaskStatus}
use remote_agent_devbox.Schema.Database.{Database}
use remote_agent_devbox.Workspaces.{NewWorkspace, workspaces_accepts}
use remote_agent_devbox.Workspaces
use remote_agent_devbox.Workspaces.Effects
use remote_agent_devbox.Metadata
use remote_agent_devbox.Metadata.Effects as MetadataEffects
use remote_agent_devbox.Outbox
use remote_agent_devbox.Outbox.Effects as OutboxEffects
use remote_agent_devbox.Approvals
use remote_agent_devbox.Approvals.{NewApprovalRequest}
use remote_agent_devbox.Approvals.Effects as ApprovalEffects
use remote_agent_devbox.GitOperations
use remote_agent_devbox.GitOperations.{NewGitOperation, GitOperationValues}
use remote_agent_devbox.GitOperations.Binding
use remote_agent_devbox.GitOperations.Effects as GitEffects
use remote_agent_devbox.Leases.{NewLease}
use remote_agent_devbox.Leases.Effects as LeaseEffects
use remote_agent_devbox.IdeAccess.{IssueCodeInput, RedeemCodeInput}
use remote_agent_devbox.IdeAccess.Effects as IdeEffects
use remote_agent_devbox.Tasks.Effects as TaskEffects
use remote_agent_devbox.Audit.Effects as AuditEffects
use remote_agent_devbox.SecurityMigration.{CommitInput, SecurityMigrationResult}
use remote_agent_devbox.SecurityMigration.Effects as MigrationEffects
use remote_agent_devbox.Artifacts
use remote_agent_devbox.Artifacts.{NewGitArtifact}
use remote_agent_devbox.Artifacts.Reviews.{Platform}
use remote_agent_devbox.Artifacts.Effects as ArtifactEffects
use remote_agent_devbox.System.{Action, perform}

-- A write takes an artifact out of the staged state, and keeps what it was created with.
pub record Leaves (f : GitArtifact → GitArtifact) : Type 0 where
  pub decides : (r : GitArtifact) → ((f r).status == GitArtifactStatus.staged) ≡ false
  pub same_id : (r : GitArtifact) → (f r).id ≡ r.id
  pub same_digest : (r : GitArtifact) → (f r).artifact_digest ≡ r.artifact_digest

pub validated-Leaves : (now : Date) → Leaves (Artifacts.validated now)
unfolding artifact_status_eq
validated-Leaves now = record { decides = λ _. refl; same_id = λ _. refl; same_digest = λ _. refl }

rejected-Leaves : (reason : String) (now : Date) → Leaves (Artifacts.rejected reason now)
unfolding artifact_status_eq
rejected-Leaves reason now = record {
  decides = λ _. refl;
  same_id = λ _. refl;
  same_digest = λ _. refl;
}

pub data Change (db db' : Database) : Type 0 where
  same : db' ≡ db → Change db db'
  repository_added :
      (r : Repository) → db' ≡ record db { repositories = r ∷ db.repositories } → Change db db'
  workspace_added :
      (input : NewWorkspace) (at : Date) (w : Workspace)
      → w ≡ Workspaces.new_row input at
      → workspaces_accepts db w ≡ true
      → db' ≡ record db { workspaces = w ∷ db.workspaces }
      → Change db db'
  workspace_updated :
      (id : Uuid) (version : ℕ) (values : Workspace → Workspace) (w : Workspace)
      → ((v : Workspace) → (values v).id ≡ v.id)
      → Effects.Updated id version values db w db'
      → Change db db'
  metadata_seeded :
      (tier : ℕ) (hash : String) (now : Date)
      → db' ≡ record db {
        metadata = some (Metadata.get_or (Metadata.new_row tier hash now) db.metadata);
      }
      → Change db db'
  metadata_set :
      (old m : InstanceSecurityMetadata)
      → db.metadata ≡ some old
      → m.security_epoch ≡ old.security_epoch
      → m.deployment_tier ≡ old.deployment_tier
      → m.security_posture_hash ≡ old.security_posture_hash
      → db' ≡ record db { metadata = some m }
      → Change db db'
  state_requested :
      (id workspace_id : Uuid) (desired : DesiredWorkspaceState) (at : Date)
      (result : Workspace × OutboxCommand) (current : Workspace)
      → OutboxEffects.Requested id workspace_id desired at db result db' current
      → Change db db'
  command_claimed :
      (now : Date) (row : Option OutboxCommand)
      → OutboxEffects.Claimed now db row db'
      → Change db db'
  command_succeeded :
      (id : Uuid) (at : Date)
      → OutboxEffects.Finished id (OutboxEffects.succeeded at) db db'
      → Change db db'
  command_failed :
      (id : Uuid) (error : String) (retry : Option Date) (at : Date)
      → OutboxEffects.Finished id (Outbox.failed_with error retry at) db db'
      → Change db db'
  commands_recovered :
      (before at : Date)
      → db' ≡ record db {
        outbox_commands =
            update (Outbox.is_stale before) (OutboxEffects.recovered at) db.outbox_commands;
      }
      → Change db db'
  approval_requested :
      (input : NewApprovalRequest) (approval : ApprovalRequest) (review : ReviewSnapshot)
      (metadata : InstanceSecurityMetadata)
      → ApprovalEffects.Requested input db approval db' review metadata
      → Change db db'
  approval_decided :
      (id : Uuid) (decision : ApprovalStatus) (by : Uuid) (at : Date)
      (approval old : ApprovalRequest)
      → (decision ≡ ApprovalStatus.approved) ⊎ (decision ≡ ApprovalStatus.denied)
      → ApprovalEffects.Decided id decision by at db approval db' old
      → Change db db'
  operation_created :
      (input : NewGitOperation) (op : GitOperation) → Binding.Binds input db op db' → Change db db'
  operation_moved :
      (id : Uuid) (expected next : GitOperationState) (values : GitOperationValues)
      (op : GitOperation)
      → GitOperations.can_transition_git_operation expected next ≡ true
      → GitEffects.Transitioned id expected next values db op db'
      → Change db db'
  lease_reserved :
      (input : NewLease) (lease : CredentialLease) (operation : GitOperation)
      (metadata : InstanceSecurityMetadata)
      → LeaseEffects.Reserved input db lease db' operation metadata
      → Change db db'
  lease_issued :
      (id : Uuid) (at expires : Date) (lease : CredentialLease)
      → LeaseEffects.Moved id
          (CredentialLeaseState.reserved ∷ [])
          (LeaseEffects.issued at expires)
          db
          lease
          db'
      → Change db db'
  lease_consumed :
      (id : Uuid) (at : Date) (lease : CredentialLease)
      → LeaseEffects.Moved id
          (CredentialLeaseState.issued ∷ [])
          (LeaseEffects.consumed at)
          db
          lease
          db'
      → Change db db'
  lease_failed :
      (id : Uuid) (reason : String) (lease : CredentialLease)
      → LeaseEffects.Moved id
          (CredentialLeaseState.reserved ∷ [])
          (LeaseEffects.failed reason)
          db
          lease
          db'
      → Change db db'
  lease_uncertain :
      (id : Uuid) (reason : String) (lease : CredentialLease)
      → LeaseEffects.Moved id
          (CredentialLeaseState.issued ∷ [])
          (LeaseEffects.uncertain reason)
          db
          lease
          db'
      → Change db db'
  code_issued :
      (input : IssueCodeInput) (code : IdeAccessCode) (c : IdeEffects.Context)
      → IdeEffects.Issued input db code db' c
      → Change db db'
  code_redeemed :
      (input : RedeemCodeInput) (session : IdeAccessSession) (code : IdeAccessCode)
      (c : IdeEffects.Context)
      → IdeEffects.Redeemed input db session db' code c
      → Change db db'
  task_created :
      (t : AgentTask) → db' ≡ record db { agent_tasks = t ∷ db.agent_tasks } → Change db db'
  task_moved :
      (id : Uuid) (from : TaskStatus) (f : AgentTask → AgentTask) (t : AgentTask)
      → TaskEffects.Moved id from f db t db'
      → Change db db'
  audit_appended :
      (e : AuditEvent) → db' ≡ record db { audit_events = e ∷ db.audit_events } → Change db db'
  migrated :
      (input : CommitInput) (result : SecurityMigrationResult) (current : InstanceSecurityMetadata)
      (first second : AuditEvent)
      → MigrationEffects.Committed input db result db' current first second
      → Change db db'
  artifact_added :
      (input : NewGitArtifact) (at : Date) → ArtifactEffects.Added input at db db' → Change db db'
  artifact_decided :
      (id : Uuid) (f : GitArtifact → GitArtifact) (r : GitArtifact)
      → Leaves f
      → ArtifactEffects.Decided id f db r db'
      → Change db db'
  review_added :
      (platform : Platform) (row : ReviewSnapshot) (now : Date) (artifact : GitArtifact)
      → ArtifactEffects.Reviewed platform row now db db' artifact
      → Change db db'

-- Every action makes one of these changes.
pub perform-Change : (a : Action) (db : Database) → Change db (perform a db)
unfolding perform Approvals.approve Approvals.deny
perform-Change (Action.create_repository input at) db =
    Ensures_after (Change db) _ db (Effects.create_repository_effect input at db)
      (λ r _ w. repository_added r w) (λ _ _. same)
perform-Change (Action.create_workspace input at) db =
    Ensures_after (Change db) _ db (Effects.create_workspace_effect input at db)
      (λ w _ (e, ok_, wr). workspace_added input at w e ok_ wr) (λ _ _. same)
perform-Change (Action.set_desired_state id desired version) db =
    Ensures_after (Change db) _ db (Effects.set_desired_state-Updated id version db desired)
      (λ w _ u. workspace_updated id version _ w (λ _. refl) u) (λ _ _. same)
perform-Change (Action.set_observed_state id observed version error) db =
    Ensures_after (Change db) _ db (Effects.set_observed_state-Updated id version db observed error)
      (λ w _ u. workspace_updated id version _ w (λ _. refl) u) (λ _ _. same)
perform-Change (Action.synchronize tier hash now) db =
    Ensures_after (Change db) _ db (MetadataEffects.synchronize_effect tier hash now db)
      (λ m _ (e, _, _, w). metadata_seeded tier hash now (rw (← e) w))
      (λ _ _ h. elim h [ inl w ↦ same w | inr w ↦ metadata_seeded tier hash now w ])
perform-Change (Action.enter_maintenance reason at) db =
    Ensures_after (Change db) _ db (MetadataEffects.enter_effect reason at db)
      (λ m _ (old, eo, em, w). metadata_set old m eo (ground arith) (ground arith) (ground arith) w)
      (λ _ _. same)
perform-Change (Action.exit_maintenance epoch at) db =
    Ensures_after (Change db) _ db (MetadataEffects.exit_effect epoch at db)
      (λ m _ (old, eo, _, _, em, w).
        metadata_set old m eo (ground arith) (ground arith) (ground arith) w)
      (λ _ _. same)
perform-Change (Action.request_workspace_state id workspace desired at) db =
    Ensures_after (Change db) _ db
      (OutboxEffects.request_workspace_state-Requested id workspace desired at db)
      (λ r _ (w, q). state_requested id workspace desired at r w q) (λ _ _. same)
perform-Change (Action.claim_next now) db =
    Ensures_after (Change db) _ db (OutboxEffects.claim_next-Claimed now db)
      (λ r _ c. command_claimed now r c) (λ _ _ h. absurd h)
perform-Change (Action.mark_command_succeeded id at) db =
    Ensures_after (Change db) _ db (OutboxEffects.mark_succeeded-Finished id at db)
      (λ _ _ f. command_succeeded id at f) (λ _ _. same)
perform-Change (Action.mark_command_failed id error retry at) db =
    Ensures_after (Change db) _ db (OutboxEffects.mark_failed-Finished id error retry at db)
      (λ _ _ f. command_failed id error retry at f) (λ _ _. same)
perform-Change (Action.recover_stale before at) db =
    Ensures_after (Change db) _ db (OutboxEffects.recover_stale_effect before at db)
      (λ _ _ (_, w). commands_recovered before at w) (λ _ _ h. absurd h)
perform-Change (Action.create_approval input) db =
    Ensures_after (Change db) _ db (ApprovalEffects.create_bound-Requested input db)
      (λ a _ (r, m, q). approval_requested input a r m q) (λ _ _. same)
perform-Change (Action.approve id by at) db =
    Ensures_after (Change db) _ db
      (ApprovalEffects.decide-Decided id ApprovalStatus.approved by at db)
      (λ a _ (old, d). approval_decided id ApprovalStatus.approved by at a old (inl refl) d)
      (λ _ _. same)
perform-Change (Action.deny id by at) db =
    Ensures_after (Change db) _ db
      (ApprovalEffects.decide-Decided id ApprovalStatus.denied by at db)
      (λ a _ (old, d). approval_decided id ApprovalStatus.denied by at a old (inr refl) d)
      (λ _ _. same)
perform-Change (Action.create_operation input) db =
    Ensures_after (Change db) _ db (Binding.create_bound-Binds input db)
      (λ op _ b. operation_created input op b) (λ _ _. same)
perform-Change (Action.transition_operation id expected next values) db =
    Ensures_after (Change db) _ db (GitEffects.transition-Transitioned id expected next values db)
      (λ op _ (allowed, t). operation_moved id expected next values op allowed t) (λ _ _. same)
perform-Change (Action.reserve_lease input) db =
    Ensures_after (Change db) _ db (LeaseEffects.reserve-Reserved input db)
      (λ l _ (o, m, r). lease_reserved input l o m r) (λ _ _. same)
perform-Change (Action.mark_lease_issued id at expires) db =
    Ensures_after (Change db) _ db (LeaseEffects.mark_issued-Moved id db at expires)
      (λ l _ (_, m). lease_issued id at expires l m) (λ _ _. same)
perform-Change (Action.mark_lease_consumed id at) db =
    Ensures_after (Change db) _ db (LeaseEffects.mark_consumed-Moved id db at)
      (λ l _ m. lease_consumed id at l m) (λ _ _. same)
perform-Change (Action.mark_lease_failed id at reason) db =
    Ensures_after (Change db) _ db (LeaseEffects.mark_failed-Moved id db at reason)
      (λ l _ m. lease_failed id reason l m) (λ _ _. same)
perform-Change (Action.mark_lease_uncertain id at reason) db =
    Ensures_after (Change db) _ db (LeaseEffects.mark_uncertain-Moved id db at reason)
      (λ l _ m. lease_uncertain id reason l m) (λ _ _. same)
perform-Change (Action.issue_code input) db =
    Ensures_after (Change db) _ db (IdeEffects.issue_code-Issued input db)
      (λ code _ (c, i). code_issued input code c i) (λ _ _. same)
perform-Change (Action.redeem_code input) db =
    Ensures_after (Change db) _ db (IdeEffects.redeem_code-Redeemed input db)
      (λ session _ (code, c, r). code_redeemed input session code c r) (λ _ _. same)
perform-Change (Action.create_task input at) db =
    Ensures_after (Change db) _ db (TaskEffects.create_effect input at db)
      (λ t _ (_, w). task_created t w) (λ _ _. same)
perform-Change (Action.mark_task_running id now) db =
    Ensures_after (Change db) _ db (TaskEffects.mark_running-Moved id now db)
      (λ t _ m. task_moved id TaskStatus.pending (TaskEffects.started now) t m) (λ _ _. same)
perform-Change (Action.mark_task_completed id result now) db =
    Ensures_after (Change db) _ db (TaskEffects.mark_completed-Moved id now db result)
      (λ t _ m. task_moved id TaskStatus.running (TaskEffects.completed result now) t m)
      (λ _ _. same)
perform-Change (Action.mark_task_failed id error now) db =
    Ensures_after (Change db) _ db (TaskEffects.mark_failed-Moved id now db error)
      (λ t _ m. task_moved id TaskStatus.running (TaskEffects.failed error now) t m) (λ _ _. same)
perform-Change (Action.append_audit input) db =
    Ensures_after (Change db) _ db (AuditEffects.append_effect input db)
      (λ e _ (_, _, w). audit_appended e w) (λ _ _. same)
perform-Change (Action.commit_migration a b input) db =
    Ensures_after (Change db) _ db (MigrationEffects.commit-Committed a b input db)
      (λ r _ (m, first, second, c). migrated input r m first second c) (λ _ _. same)
perform-Change (Action.create_artifact input at) db =
    Ensures_after (Change db) _ db (ArtifactEffects.create-Added input at db)
      (λ _ _ (_, added). artifact_added input at added)
      (λ _ _ h. elim h [ inl kept ↦ same kept | inr added ↦ artifact_added input at added ])
perform-Change (Action.mark_artifact_validated id now) db =
    Ensures_after (Change db) _ db (ArtifactEffects.mark_validated-Decided id now db)
      (λ r _ d. artifact_decided id _ r (validated-Leaves now) d)
      (λ _ _ h. elim h [
        | inl kept ↦ same kept
        | inr (r, d) ↦ artifact_decided id _ r (validated-Leaves now) d
      ])
perform-Change (Action.mark_artifact_rejected id reason now) db =
    Ensures_after (Change db) _ db (ArtifactEffects.mark_rejected-Decided id reason now db)
      (λ r _ d. artifact_decided id _ r (rejected-Leaves reason now) d)
      (λ _ _ h. elim h [
        | inl kept ↦ same kept
        | inr (r, d) ↦ artifact_decided id _ r (rejected-Leaves reason now) d
      ])
perform-Change (Action.create_review platform row now) db =
    Ensures_after (Change db) _ db
      (ArtifactEffects.create_for_staged_artifact-Reviewed platform row now db)
      (λ r _ (_, (artifact, reviewed)). review_added platform row now artifact reviewed)
      (λ _ _. same)
