-- ===== src/System/Operations/Single.antt =====
-- The git operations that stand on one approval (packages/git-operations/src/repository.ts).
use remote_agent_devbox.Common.{
  ℕ, ◌≤◌, ◌≡◌, refl, false, Bool, List, ◌∷◌, ◌==◌, string_eq, exists, update, select, length, arith,
  inl, inr, Bool-cases, select-update-le, select_none, length-select-cons, length-select-cons_miss,
  eq_of_==, exists_false-All,
}
use remote_agent_devbox.Schema.Workspace.{Uuid, Date}
use remote_agent_devbox.Schema.Git.{GitOperation, GitOperationState}
use remote_agent_devbox.Schema.Database.{Database}
use remote_agent_devbox.GitOperations.{GitOperationValues, in_state, set_values}
use remote_agent_devbox.SecurityMigration.{is_cancellable, cancelled}
use remote_agent_devbox.System.{Action, run, run_keeps}
use remote_agent_devbox.System.Change.{perform-Change}
use remote_agent_devbox.System.Operations.{
  OperationsStep, kept, created, moved, withdrawn, Change-OperationsStep,
}

-- The number of git operations that stand on an approval.
unfoldable pub operations_on : Uuid → List GitOperation → ℕ
operations_on approval xs = length (select (λ r. r.approval_id == approval) xs)

operations_on-update :
    (approval : Uuid) (p : GitOperation → Bool) (f : GitOperation → GitOperation)
    (xs : List GitOperation)
    → ((r : GitOperation) → (f r).approval_id ≡ r.approval_id)
    → operations_on approval xs ≤ 1
    → operations_on approval (update p f xs) ≤ 1
unfolding operations_on
operations_on-update approval p f xs keep h =
    omega (
      arith,
      select-update-le (λ r. r.approval_id == approval) p f (λ r _ hit. rw (← keep r) hit) xs,
    )

operations_on-create :
    (approval : Uuid) (new : GitOperation) (xs : List GitOperation)
    → exists (λ r. r.approval_id == new.approval_id) xs ≡ false
    → operations_on approval xs ≤ 1
    → operations_on approval (new ∷ xs) ≤ 1
unfolding operations_on
operations_on-create approval new xs fresh h = elim (Bool-cases (new.approval_id == approval)) [
  | inl hit ↦
      let gone : length (select (λ (r : GitOperation). r.approval_id == approval) xs) ≡ 0 =
        rw (← eq_of_== new.approval_id approval hit)
          (select_none _ xs (exists_false-All _ xs fresh)) in
      omega (arith, length-select-cons (λ (r : GitOperation). r.approval_id == approval) new xs)
  | inr miss ↦
      rw (length-select-cons_miss (λ (r : GitOperation). r.approval_id == approval) new xs miss) h
]

set_values-approval :
    (values : GitOperationValues) (next : GitOperationState) (r : GitOperation)
    → (set_values values next r).approval_id ≡ r.approval_id
unfolding set_values
set_values-approval values next r = refl

cancelled-approval : (at : Date) (r : GitOperation) → (cancelled at r).approval_id ≡ r.approval_id
unfolding cancelled
cancelled-approval at r = refl

OperationsStep-operations_on :
    {xs ys : List GitOperation} (approval : Uuid)
    → OperationsStep xs ys
    → operations_on approval xs ≤ 1
    → operations_on approval ys ≤ 1
OperationsStep-operations_on approval (kept w) h = rw w h
OperationsStep-operations_on {xs} approval (created new _ _ fresh w) h =
    rw w (operations_on-create approval new xs fresh h)
OperationsStep-operations_on {xs} approval (moved id expected next values _ w) h = rw w (
    operations_on-update approval (in_state id expected) (set_values values next) xs
      (set_values-approval values next) h)
OperationsStep-operations_on {xs} approval (withdrawn at w) h =
    rw w (operations_on-update approval is_cancellable (cancelled at) xs (cancelled-approval at) h)

-- Where at most one git operation stands on an approval, at most one does after any requests.
pub run-operations_on :
    (approval : Uuid) (actions : List Action) (db : Database)
    → operations_on approval db.git_operations ≤ 1
    → operations_on approval (run actions db).git_operations ≤ 1
run-operations_on approval actions db =
    run_keeps (λ d. operations_on approval d.git_operations ≤ 1)
      (λ a d. OperationsStep-operations_on approval (Change-OperationsStep (perform-Change a d)))
      actions db
