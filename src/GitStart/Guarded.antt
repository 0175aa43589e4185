-- ===== src/GitStart/Guarded.antt =====
-- What starting a git operation has checked, and in which states it leaves the operation.
use mathlib.Core.Bool.{true≢false}
use remote_agent_devbox.Common.{
  ◌≡◌, refl, sym, ◌∙◌, true, false, Bool, some, none, Option, ◌⊎◌, inl, inr, Error, code_or,
  Ensures, Ensures-weaken, on_any, on_gets, on_assert, on_required, on_ensured, end_pure,
  end_required, end_catch, Bool-cases, ◌==◌, string_eq, nat_eq, eq_of_==, ◌<>◌, arith,
}
use remote_agent_devbox.Schema.Workspace.{Uuid}
use remote_agent_devbox.Schema.Security.{InstanceSecurityMetadata}
use remote_agent_devbox.Schema.Artifact.{GitArtifact}
use remote_agent_devbox.Schema.Approval.{ApprovalRequest}
use remote_agent_devbox.Schema.Git.{GitOperation, GitOperationState, git_state_eq}
use remote_agent_devbox.Schema.Database.{Database}
use remote_agent_devbox.Metadata.Effects.{assert_available_effect}
use remote_agent_devbox.Approvals
use remote_agent_devbox.Artifacts
use remote_agent_devbox.Artifacts.{first_artifact}
use remote_agent_devbox.Artifacts.Reviews.{Platform}
use remote_agent_devbox.Artifacts.Effects.{Intact, as_artifact_effect}
use remote_agent_devbox.Artifacts.Found.{get_review_effect}
use remote_agent_devbox.Workspaces.{get_workspace, get_repository}
use remote_agent_devbox.GitOperations.{GitOperationValues, set_values, transition}
use remote_agent_devbox.GitOperations.Effects.{transition-Transitioned}
use remote_agent_devbox.GitWrite.Settled.{is_settled, execute-Executed}
use remote_agent_devbox.GitStart.{
  Readings, Deployment, Bound, review_matches, dedicated_branch, require_approval, require_review,
  require_bound, begin_validation, reject_validation, final_validation, validated_operation,
  is_final_mismatch, finish, start,
}

-- The operation has begun to push, or has ended.
abbrev pub is_begun : GitOperationState → Bool
is_begun GitOperationState.pending = false
is_begun GitOperationState.validating = false
is_begun GitOperationState.waiting_credential = false
is_begun _ = true

settled_begun : (s : GitOperationState) → is_settled s ≡ true → is_begun s ≡ true
settled_begun GitOperationState.pending h = h
settled_begun GitOperationState.validating h = h
settled_begun GitOperationState.waiting_credential h = h
settled_begun GitOperationState.pushing h = refl
settled_begun GitOperationState.succeeded h = refl
settled_begun GitOperationState.failed h = refl
settled_begun GitOperationState.conflict h = refl
settled_begun GitOperationState.cancelled h = refl
settled_begun GitOperationState.stale h = refl

otherwise_begun :
    (s : GitOperationState)
    → (s == GitOperationState.pending) ≡ false
    → (s == GitOperationState.validating) ≡ false
    → (s == GitOperationState.waiting_credential) ≡ false
    → is_begun s ≡ true
unfolding git_state_eq
otherwise_begun GitOperationState.pending p v w = sym p
otherwise_begun GitOperationState.validating p v w = sym v
otherwise_begun GitOperationState.waiting_credential p v w = sym w
otherwise_begun GitOperationState.pushing p v w = refl
otherwise_begun GitOperationState.succeeded p v w = refl
otherwise_begun GitOperationState.failed p v w = refl
otherwise_begun GitOperationState.conflict p v w = refl
otherwise_begun GitOperationState.cancelled p v w = refl
otherwise_begun GitOperationState.stale p v w = refl

moved_to :
    (id : Uuid) (expected next : GitOperationState) (values : GitOperationValues) (db : Database)
    → Ensures (λ op _. op.state ≡ next) (λ _ _. Unit {0}) (transition id expected next values) db
unfolding set_values
moved_to id expected next values db =
    Ensures-weaken _ _ (λ op t (_, (x, _, e, _)). rw e refl) (λ _ _ _. tt)
      (transition-Transitioned id expected next values db)

-- What the service has found before it writes.
pub record Guarded (platform : Platform) (approval_id : Uuid) (db : Database) (b : Bound)
    : Type 0 where
  pub metadata : InstanceSecurityMetadata
  pub metadata_row : db.metadata ≡ some metadata
  pub available : metadata.maintenance_mode ≡ false
  pub approval_row : Approvals.get approval_id db ≡ some b.approval
  pub intact : Intact platform b.review
  pub same_workspace : b.review.workspace_id ≡ b.approval.workspace_id
  pub same_digest : b.review.review_digest ≡ b.approval.review_digest
  pub same_profile : b.review.validator_profile_digest ≡ b.approval.validator_profile_digest
  pub same_epoch : b.review.security_epoch ≡ b.approval.security_epoch
  pub workspace_row : get_workspace b.review.workspace_id db ≡ some b.workspace
  pub repository_row : get_repository b.review.repository_id db ≡ some b.repository
  pub same_repository : b.workspace.repository_id ≡ b.repository.id
  pub own_branch : b.workspace.branch_name ≡ "agent/" <> b.workspace.id
  pub not_default : (b.workspace.branch_name == b.repository.default_branch) ≡ false

first_artifact_effect :
    (row : Option GitArtifact) (db : Database)
    → Ensures (λ _ db'. db' ≡ db) (λ _ db'. db' ≡ db) (first_artifact row) db
first_artifact_effect none db = end_pure _ refl
first_artifact_effect (some row) db =
    on_ensured _ _ _ _ (as_artifact_effect row db) (λ _ _ kept. kept)
      λ r t (_, kept). end_pure _ kept

get_artifact_effect :
    (id : Uuid) (db : Database)
    → Ensures (λ _ db'. db' ≡ db) (λ _ db'. db' ≡ db) (Artifacts.get id) db
unfolding Artifacts.get
get_artifact_effect id db = on_gets _ _ (first_artifact_effect _ db)

require_review_effect :
    (platform : Platform) (approval : ApprovalRequest) (db : Database)
    → Ensures
        (λ r db'. (db' ≡ db) × Intact platform r × (review_matches approval r ≡ true))
        (λ _ db'. db' ≡ db)
        (require_review platform approval)
        db
unfolding require_review
require_review_effect platform approval db =
    on_ensured _ _ _ _ (get_review_effect platform _ db) (λ _ _ kept. kept)
      λ found t (kept, _, intact).
        on_required _ _ _ (λ _. kept)
          λ r row. on_assert _ _ _ (λ _. kept) λ matching. end_pure _ (kept, intact r row, matching)

require_approval_effect :
    (id : Uuid) (db : Database)
    → Ensures
        (λ a db'. (db' ≡ db) × (Approvals.get id db ≡ some a))
        (λ _ db'. db' ≡ db)
        (require_approval id)
        db
unfolding require_approval
require_approval_effect id db = on_gets _ _ (end_required _ _ (λ _. refl) λ a row. (refl, row))

pub require_bound-Guarded :
    (platform : Platform) (approval_id : Uuid) (db : Database)
    → Ensures
        (λ b db'. (db' ≡ db) × Guarded platform approval_id db b)
        (λ _ db'. db' ≡ db)
        (require_bound platform approval_id)
        db
unfolding require_bound review_matches dedicated_branch
require_bound-Guarded platform approval_id db =
    on_ensured _ _ _ _ (assert_available_effect "Git operation start" db) (λ _ _ kept. kept)
      λ m t1 (k1, em, open_).
        on_ensured _ _ _ _ (require_approval_effect approval_id t1) (λ _ _ k. k ∙ k1)
          λ a t2 (k2, ea).
            on_ensured _ _ _ _ (require_review_effect platform a t2) (λ _ _ k. k ∙ k2 ∙ k1)
              λ r t3 (k3, intact, matching).
                on_ensured _ _ _ _ (get_artifact_effect r.artifact_id t3)
                  (λ _ _ k. k ∙ k3 ∙ k2 ∙ k1)
                  λ found t k4.
                    let same : t ≡ db = k4 ∙ k3 ∙ k2 ∙ k1 in
                    on_required _ _ _ (λ _. same)
                      λ artifact _. on_gets _ _ (
                        on_required _ _ _ (λ _. same)
                          λ w ew. on_gets _ _ (
                            on_required _ _ _ (λ _. same)
                              λ repository er.
                                on_assert _ _ _ (λ _. same)
                                  λ bound.
                                    on_assert _ _ _ (λ _. same)
                                      λ branch. end_pure _ (
                                        same,
                                        record {
                                          metadata = m;
                                          metadata_row = em;
                                          available = open_;
                                          approval_row = rw (← k1) ea;
                                          intact = intact;
                                          same_workspace = ground (arith, matching);
                                          same_digest = ground (arith, matching);
                                          same_profile = ground (arith, matching);
                                          same_epoch = ground (arith, matching);
                                          workspace_row = rw (← same) ew;
                                          repository_row = rw (← same) er;
                                          same_repository = eq_of_== _ _ bound;
                                          own_branch = ground (arith, branch);
                                          not_default = ground (arith, branch);
                                        },
                                      )))

module _ (deployment : Deployment) (now : Readings) where
  -- The states that may follow each step of `start`.
  abbrev Validating : GitOperation → Type 0
  Validating op = (op.state == GitOperationState.pending) ≡ false

  abbrev Checked : GitOperation ⊎ GitOperation → Type 0
  Checked (inl op) =
      ((op.state == GitOperationState.pending) ≡ false)
      × ((op.state == GitOperationState.validating) ≡ false)
  Checked (inr op) = is_begun op.state ≡ true

  begun_validation :
      (op : GitOperation) (db : Database)
      → Ensures (λ r _. Validating r) (λ _ _. Unit {0}) (begin_validation deployment now op) db
  unfolding begin_validation git_state_eq
  begun_validation op db = elim (Bool-cases (op.state == GitOperationState.pending)) [
    | inl waits ↦ rw waits (
        Ensures-weaken _ _ (λ r _ e. rw e refl) (λ _ _ _. tt)
          (moved_to op.id GitOperationState.pending GitOperationState.validating _ db))
    | inr no_wait ↦ rw no_wait (end_pure _ no_wait)
  ]

  rejected_validation :
      (op : GitOperation) (e : Error) (db : Database)
      → Ensures
          (λ r _. is_begun r.state ≡ true)
          (λ _ _. Unit {0})
          (reject_validation deployment now op e)
          db
  unfolding reject_validation
  rejected_validation op e db =
      elim (Bool-cases (is_final_mismatch (code_or "FINAL_REVALIDATION_FAILED" e))) [
        | inl stale ↦ rw stale (
            Ensures-weaken _ _ (λ r _ e. rw e refl) (λ _ _ _. tt)
              (moved_to op.id GitOperationState.validating GitOperationState.stale _ db))
        | inr failed ↦ rw failed (
            Ensures-weaken _ _ (λ r _ e. rw e refl) (λ _ _ _. tt)
              (moved_to op.id GitOperationState.validating GitOperationState.failed _ db))
      ]

  final_validation-Checked :
      (bound : Bound) (op : GitOperation) (db : Database)
      → Ensures (λ r _. Checked r) (λ _ _. Unit {0}) (final_validation deployment now bound op) db
  unfolding final_validation git_state_eq
  final_validation-Checked bound op db =
      end_catch _ _
        (on_any _ _ (λ _ _. tt)
          λ _ t1.
            on_any _ _ (λ _ _. tt)
              λ _ t2.
                on_ensured _ _ _ _
                  (moved_to op.id GitOperationState.validating GitOperationState.waiting_credential
                    _ t2)
                  (λ _ _ _. tt) λ w t e. end_pure _ (rw e refl, rw e refl))
        (λ e t _.
          on_ensured _ _ _ _ (rejected_validation op e t) (λ _ _ _. tt) λ r u h. end_pure _ h)

  validated-Checked :
      (bound : Bound) (op : GitOperation) (db : Database)
      → Validating op
      → Ensures
          (λ r _. Checked r)
          (λ _ _. Unit {0})
          (validated_operation deployment now bound op)
          db
  unfolding validated_operation
  validated-Checked bound op db h = elim (Bool-cases (op.state == GitOperationState.validating)) [
    | inl now_ ↦ rw now_ (final_validation-Checked bound op db)
    | inr other ↦ rw other (end_pure _ (h, other))
  ]

  finish_begun :
      (bound : Bound) (r : GitOperation ⊎ GitOperation) (db : Database)
      → Checked r
      → Ensures
          (λ op _. is_begun op.state ≡ true)
          (λ _ _. Unit {0})
          (finish deployment now bound r)
          db
  finish_begun bound (inr op) db h = end_pure _ h
  finish_begun bound (inl op) db (p, v) =
      elim (Bool-cases (op.state == GitOperationState.waiting_credential)) [
        | inr other ↦ rw other (end_pure _ (otherwise_begun op.state p v other))
        | inl waits ↦ rw waits (
            Ensures-weaken _ _
              (λ r _ h. elim h [
                | inl settled ↦ settled_begun r.state settled
                | inr (off, _, _) ↦ absurd (true≢false (sym waits ∙ off))
              ])
              (λ _ _ _. tt) (execute-Executed deployment.config deployment.outside now.write _ db))
      ]

  pub start-Guarded :
      (approval_id : Uuid) (db : Database)
      → Ensures
          (λ op _.
            (is_begun op.state ≡ true)
            × ((b : Bound) × Guarded deployment.platform approval_id db b))
          (λ _ _. Unit {0})
          (start deployment now approval_id)
          db
  unfolding start
  start-Guarded approval_id db =
      on_ensured _ _ _ _ (require_bound-Guarded deployment.platform approval_id db) (λ _ _ _. tt)
        λ b t (_, guarded). on_gets _ _ (
          on_any _ _ (λ _ _. tt)
            λ op t1.
              on_ensured _ _ _ _ (begun_validation op t1) (λ _ _ _. tt)
                λ begun t2 h.
                  on_ensured _ _ _ _ (validated-Checked b begun t2 h) (λ _ _ _. tt)
                    λ checked t3 k.
                      Ensures-weaken _ _ (λ r _ e. (e, (b, guarded))) (λ _ _ _. tt)
                        (finish_begun b checked t3 k))
