-- ===== src/System/Operations/Ended.antt =====
-- The git operations in a state that nothing leaves (packages/git-operations/src/operation.ts).
use remote_agent_devbox.Common.{
  ◌≡◌, refl, true, false, Bool, some, List, ◌∷◌, ◌==◌, string_eq, find_row, arith, frozen-update,
  frozen-cons, member, [], inl, inr, Bool-cases,
}
use remote_agent_devbox.Schema.Workspace.{Uuid}
use remote_agent_devbox.Schema.Git.{GitOperation, GitOperationState, git_state_eq}
use remote_agent_devbox.Schema.Database.{Database}
use remote_agent_devbox.GitOperations.{can_transition_git_operation, in_state, set_values}
use remote_agent_devbox.SecurityMigration.{is_cancellable, cancelled}
use remote_agent_devbox.System.{Action, run, run_keeps}
use remote_agent_devbox.System.Change.{perform-Change}
use remote_agent_devbox.System.Operations.{
  OperationsStep, kept, created, moved, withdrawn, Change-OperationsStep,
}

-- The states that an operation ends in.
abbrev pub is_final : GitOperationState → Bool
is_final GitOperationState.succeeded = true
is_final GitOperationState.failed = true
is_final GitOperationState.conflict = true
is_final GitOperationState.cancelled = true
is_final GitOperationState.stale = true
is_final _ = false

-- The row of the operation is as it was.
pub record Kept (op : GitOperation) (xs : List GitOperation) : Type 0 where
  pub row : find_row (λ r. r.id == op.id) xs ≡ some op

stuck :
    (s next : GitOperationState) → is_final s ≡ true → can_transition_git_operation s next ≡ false
unfolding can_transition_git_operation
stuck GitOperationState.pending next h = ground (arith, h)
stuck GitOperationState.validating next h = ground (arith, h)
stuck GitOperationState.waiting_credential next h = ground (arith, h)
stuck GitOperationState.pushing next h = ground (arith, h)
stuck GitOperationState.succeeded next h = refl
stuck GitOperationState.failed next h = refl
stuck GitOperationState.conflict next h = refl
stuck GitOperationState.cancelled next h = refl
stuck GitOperationState.stale next h = refl

not_moved :
    (id : Uuid) (expected next : GitOperationState) (op : GitOperation)
    → is_final op.state ≡ true
    → can_transition_git_operation expected next ≡ true
    → in_state id expected op ≡ false
not_moved id expected next op final allowed = elim (Bool-cases (in_state id expected op)) [
  | inl hit ↦
      let e : op.state ≡ expected = ground arith in
      let f : can_transition_git_operation expected next ≡ false =
        rw (← e) (stuck op.state next final) in
      ground arith
  | inr miss ↦ miss
]

final_not_cancellable :
    (s : GitOperationState)
    → is_final s ≡ true
    → member s (
        GitOperationState.pending ∷ GitOperationState.validating
        ∷ GitOperationState.waiting_credential ∷ [])
      ≡ false
unfolding git_state_eq
final_not_cancellable GitOperationState.pending h = ground (arith, h)
final_not_cancellable GitOperationState.validating h = ground (arith, h)
final_not_cancellable GitOperationState.waiting_credential h = ground (arith, h)
final_not_cancellable GitOperationState.pushing h = refl
final_not_cancellable GitOperationState.succeeded h = refl
final_not_cancellable GitOperationState.failed h = refl
final_not_cancellable GitOperationState.conflict h = refl
final_not_cancellable GitOperationState.cancelled h = refl
final_not_cancellable GitOperationState.stale h = refl

not_cancelled : (op : GitOperation) → is_final op.state ≡ true → is_cancellable op ≡ false
unfolding is_cancellable
not_cancelled op final = final_not_cancellable op.state final

OperationsStep-Kept :
    {op : GitOperation} {xs ys : List GitOperation}
    → is_final op.state ≡ true
    → OperationsStep xs ys
    → Kept op xs
    → Kept op ys
OperationsStep-Kept final (kept w) k = record { row = rw w k.row }
OperationsStep-Kept {op} {xs} final (created new _ fresh _ w) k = record {
  row = rw w (frozen-cons (λ (r : GitOperation). r.id) op.id new xs k.row fresh);
}
OperationsStep-Kept {op} {xs} final (moved id expected next values allowed w) k = record {
  row = rw w (
      frozen-update _ (in_state id expected) (set_values values next) xs
        (λ r. unfold set_values in refl) k.row (not_moved id expected next op final allowed));
}
OperationsStep-Kept {op} {xs} final (withdrawn at w) k = record {
  row = rw w (
      frozen-update _ is_cancellable (cancelled at) xs (λ r. unfold cancelled in refl) k.row
        (not_cancelled op final));
}

-- A git operation that has succeeded or failed, or is in conflict, cancelled or stale, never
-- changes again, whatever the requests.
pub run-Kept :
    (op : GitOperation) (actions : List Action) (db : Database)
    → is_final op.state ≡ true
    → find_row (λ r. r.id == op.id) db.git_operations ≡ some op
    → find_row (λ r. r.id == op.id) (run actions db).git_operations ≡ some op
run-Kept op actions db final row =
    (run_keeps (λ d. Kept op d.git_operations)
      (λ a d. OperationsStep-Kept final (Change-OperationsStep (perform-Change a d))) actions db
      (record { row = row })).row
