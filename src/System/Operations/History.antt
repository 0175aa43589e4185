-- ===== src/System/Operations/History.antt =====
-- The history of a git operation: what never changes of it, and how its state moves.
use remote_agent_devbox.Common.{
  ◌≡◌, refl, true, some, List, [], ◌∷◌, ◌==◌, string_eq, find_row, arith, inl, inr, Bool-cases,
  frozen-update, changed-update, frozen-cons, ◌∙◌, ap, member,
}
use remote_agent_devbox.Schema.Workspace.{Uuid, Date}
use remote_agent_devbox.Schema.Git.{GitOperation, GitOperationState, git_state_eq}
use remote_agent_devbox.Schema.Database.{Database}
use remote_agent_devbox.GitOperations.{
  NewGitOperation, GitOperationValues, can_transition_git_operation, in_state, set_values,
}
use remote_agent_devbox.SecurityMigration.{is_cancellable, cancelled}
use remote_agent_devbox.System.{Action, run, run_keeps}
use remote_agent_devbox.System.Change.{perform-Change}
use remote_agent_devbox.System.Operations.{
  OperationsStep, kept, created, moved, withdrawn, Change-OperationsStep,
}

-- What a git operation was created with.
abbrev pub request_of : GitOperation → NewGitOperation
request_of r = record {
  id = r.id;
  workspace_id = r.workspace_id;
  repository_id = r.repository_id;
  review_snapshot_id = r.review_snapshot_id;
  approval_id = r.approval_id;
  branch_name = r.branch_name;
  target_commit = r.target_commit;
  expected_remote_head = r.expected_remote_head;
  review_digest = r.review_digest;
  validator_profile_digest = r.validator_profile_digest;
  security_epoch = r.security_epoch;
  created_at = r.created_at;
}

-- The states that a path of allowed transitions leads to.
pub data Reaches (from : GitOperationState) : GitOperationState → Type 0 where
  here : Reaches from from
  then :
      (mid to : GitOperationState)
      → Reaches from mid
      → can_transition_git_operation mid to ≡ true
      → Reaches from to

-- The row of the operation is there, for the same request, in a state that the path leads to.
pub record Traced (old : GitOperation) (xs : List GitOperation) : Type 0 where
  pub current : GitOperation
  pub row : find_row (λ r. r.id == old.id) xs ≡ some current
  pub request : request_of current ≡ request_of old
  pub path : Reaches old.state current.state

set_values-request :
    (values : GitOperationValues) (next : GitOperationState) (r : GitOperation)
    → request_of (set_values values next r) ≡ request_of r
unfolding set_values
set_values-request values next r = refl

cancelled-request : (at : Date) (r : GitOperation) → request_of (cancelled at r) ≡ request_of r
unfolding cancelled
cancelled-request at r = refl

set_values-id :
    (values : GitOperationValues) (next : GitOperationState) (r : GitOperation)
    → (set_values values next r).id ≡ r.id
unfolding set_values
set_values-id values next r = refl

set_values-state :
    (values : GitOperationValues) (next : GitOperationState) (r : GitOperation)
    → (set_values values next r).state ≡ next
unfolding set_values
set_values-state values next r = refl

cancellable_state_moves :
    (s : GitOperationState)
    → member s (
        GitOperationState.pending ∷ GitOperationState.validating
        ∷ GitOperationState.waiting_credential ∷ [])
      ≡ true
    → can_transition_git_operation s GitOperationState.cancelled ≡ true
unfolding can_transition_git_operation git_state_eq
cancellable_state_moves GitOperationState.pending h = refl
cancellable_state_moves GitOperationState.validating h = refl
cancellable_state_moves GitOperationState.waiting_credential h = refl
cancellable_state_moves GitOperationState.pushing h = ground (arith, h)
cancellable_state_moves GitOperationState.succeeded h = ground (arith, h)
cancellable_state_moves GitOperationState.failed h = ground (arith, h)
cancellable_state_moves GitOperationState.conflict h = ground (arith, h)
cancellable_state_moves GitOperationState.cancelled h = ground (arith, h)
cancellable_state_moves GitOperationState.stale h = ground (arith, h)

cancellable_moves :
    (r : GitOperation)
    → is_cancellable r ≡ true
    → can_transition_git_operation r.state GitOperationState.cancelled ≡ true
unfolding is_cancellable
cancellable_moves r h = cancellable_state_moves r.state h

in_state_holds :
    (id : Uuid) (expected : GitOperationState) (r : GitOperation)
    → in_state id expected r ≡ true
    → r.state ≡ expected
in_state_holds id expected r h = ground arith

OperationsStep-Traced :
    {old : GitOperation} {xs ys : List GitOperation}
    → OperationsStep xs ys
    → Traced old xs
    → Traced old ys
OperationsStep-Traced (kept w) t = record {
  current = t.current;
  row = rw w t.row;
  request = t.request;
  path = t.path;
}
OperationsStep-Traced {old} {xs} (created new _ fresh _ w) t = record {
  current = t.current;
  row = rw w (frozen-cons (λ (r : GitOperation). r.id) old.id new xs t.row fresh);
  request = t.request;
  path = t.path;
}
OperationsStep-Traced {old} {xs} (moved id expected next values allowed w) t =
    let keep = (λ (r : GitOperation). ap (λ i. i == old.id) (set_values-id values next r)) in
    elim (Bool-cases (in_state id expected t.current)) [
      | inl hit ↦ record {
        current = set_values values next t.current;
        row =
            rw w
              (changed-update _ (in_state id expected) (set_values values next) xs keep t.row hit);
        request = set_values-request values next t.current ∙ t.request;
        path =
            rw (set_values-state values next t.current)
              (then expected next (rw (← in_state_holds id expected t.current hit) t.path) allowed);
      }
      | inr miss ↦ record {
        current = t.current;
        row =
            rw w
              (frozen-update _ (in_state id expected) (set_values values next) xs keep t.row miss);
        request = t.request;
        path = t.path;
      }
    ]
OperationsStep-Traced {old} {xs} (withdrawn at w) t =
    let keep : (r : GitOperation) → ((cancelled at r).id == old.id) ≡ (r.id == old.id) =
      λ r. unfold cancelled in refl in
    elim (Bool-cases (is_cancellable t.current)) [
      | inl hit ↦ record {
        current = cancelled at t.current;
        row = rw w (changed-update _ is_cancellable (cancelled at) xs keep t.row hit);
        request = cancelled-request at t.current ∙ t.request;
        path =
            unfold cancelled in
            then t.current.state GitOperationState.cancelled t.path
              (cancellable_moves t.current hit);
      }
      | inr miss ↦ record {
        current = t.current;
        row = rw w (frozen-update _ is_cancellable (cancelled at) xs keep t.row miss);
        request = t.request;
        path = t.path;
      }
    ]

-- Whatever the requests, a git operation keeps what it was created with, and its state moves along
-- allowed transitions only.
pub run-Traced :
    (old : GitOperation) (actions : List Action) (db : Database)
    → find_row (λ r. r.id == old.id) db.git_operations ≡ some old
    → Traced old (run actions db).git_operations
run-Traced old actions db row =
    run_keeps (λ d. Traced old d.git_operations)
      (λ a d. OperationsStep-Traced (Change-OperationsStep (perform-Change a d))) actions db
      (record { current = old; row = row; request = refl; path = here })
