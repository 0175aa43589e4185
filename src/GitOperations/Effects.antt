-- ===== src/GitOperations/Effects.antt =====
-- What `transition` does to the database, on every branch.
use remote_agent_devbox.Common.{
  ◌≡◌, refl, true, Ensures, Swapped, on_assert, end_swap, Ensures-weaken,
}
use remote_agent_devbox.Schema.Workspace.{Uuid}
use remote_agent_devbox.Schema.Git.{GitOperation, GitOperationState}
use remote_agent_devbox.Schema.Database.{Database}
use remote_agent_devbox.GitOperations.{
  GitOperationValues, can_transition_git_operation, set_values, in_state, transition,
}

abbrev pub Transitioned :
    Uuid
    → GitOperationState
    → GitOperationState
    → GitOperationValues
    → Database
    → GitOperation
    → Database
    → Type 0
Transitioned id expected next values db =
    Swapped (λ d. d.git_operations) (λ rows d. record d { git_operations = rows })
      (in_state id expected) (set_values values next) db

-- A git operation is moved only along an allowed transition and only from the expected state, and
-- nothing else is written; when the move throws, nothing has changed.
pub transition-Transitioned :
    (id : Uuid) (expected next : GitOperationState) (values : GitOperationValues) (db : Database)
    → Ensures
        (λ op db'.
          (can_transition_git_operation expected next ≡ true)
          × Transitioned id expected next values db op db')
        (λ _ db'. db' ≡ db)
        (transition id expected next values)
        db
unfolding transition
transition-Transitioned id expected next values db =
    on_assert _ _ _ (λ _. refl)
      λ allowed.
        Ensures-weaken _ _ (λ _ _ q. (allowed, q)) (λ _ _ x. x)
          (end_swap (λ d. d.git_operations) (λ rows d. record d { git_operations = rows })
            (λ _. refl) _ _ _ db)
