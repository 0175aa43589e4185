-- ===== src/GitWrite/Authorized.antt =====
-- When the executor pushes.
use Prim.Native.Nat.{◌<◌}
use remote_agent_devbox.Schema.Approval.{ApprovalStatus, approval_status_eq}
use remote_agent_devbox.Common.{
  ◌≡◌, refl, true, false, some, Exec, ◌>>=◌, catch, Ensures, end_by, same_after, anything, on_gets,
  on_modify, on_assert, end_required_where, on_ensured, end_pure, Ensures-weaken, Bool-cases, ◌==◌,
  string_eq, nat_eq, find_row, arith, written_row, inl, inr,
}
use remote_agent_devbox.Schema.Workspace.{Uuid, Date}
use remote_agent_devbox.Schema.Security.{InstanceSecurityMetadata}
use remote_agent_devbox.Schema.Git.{GitOperation, GitOperationState, git_state_eq, CredentialLease}
use remote_agent_devbox.Schema.Database.{Database}
use remote_agent_devbox.GitOperations.{no_values, set_values, transition, in_state}
use remote_agent_devbox.GitOperations.Effects.{transition-Transitioned}
use remote_agent_devbox.GitWrite.{
  Outside, Readings, WriteInput, Execution, EphemeralCredential, PushInput, GitHubCredentialConfig,
  enclosing, on_database, input_current, metadata_current, require_current_context,
  obtain_credential, begin_push, deliver, write, recover, attempt, assert_ready, execute,
}

-- The approval is approved and unexpired, and agrees with the operation, as the review does.
pub record InputCurrent (input : WriteInput) (now : Date) : Type 0 where
  pub approved : input.approval.status ≡ ApprovalStatus.approved
  pub unexpired : now < input.approval.expires_at
  pub approval_digest : input.approval.review_digest ≡ input.operation.review_digest
  pub approval_profile :
      input.approval.validator_profile_digest ≡ input.operation.validator_profile_digest
  pub approval_epoch : input.approval.security_epoch ≡ input.operation.security_epoch
  pub review_digest : input.review.review_digest ≡ input.operation.review_digest
  pub review_profile :
      input.review.validator_profile_digest ≡ input.operation.validator_profile_digest
  pub review_epoch : input.review.security_epoch ≡ input.operation.security_epoch

input_current-InputCurrent :
    (input : WriteInput) (now : Date) → input_current input now ≡ true → InputCurrent input now
unfolding input_current
input_current-InputCurrent input now h = record {
  approved = ground arith;
  unexpired = ground arith;
  approval_digest = ground arith;
  approval_profile = ground arith;
  approval_epoch = ground arith;
  review_digest = ground arith;
  review_profile = ground arith;
  review_epoch = ground arith;
}

-- The instance is out of maintenance, in the operation's epoch and with the review's tier and posture.
pub record InstanceCurrent (input : WriteInput) (m : InstanceSecurityMetadata) : Type 0 where
  pub available : m.maintenance_mode ≡ false
  pub epoch : m.security_epoch ≡ input.operation.security_epoch
  pub tier : m.deployment_tier ≡ input.review.deployment_tier
  pub posture : m.security_posture_hash ≡ input.review.security_posture_hash

metadata_current-InstanceCurrent :
    (input : WriteInput) (m : InstanceSecurityMetadata)
    → metadata_current input m ≡ true
    → InstanceCurrent input m
unfolding metadata_current
metadata_current-InstanceCurrent input m h = record {
  available = ground arith;
  epoch = ground arith;
  tier = ground arith;
  posture = ground arith;
}

-- The input and the instance are current, and the operation is pushing.
pub record Authorized (input : WriteInput) (now : Date) (db : Database) : Type 0 where
  pub current : InputCurrent input now
  pub metadata : InstanceSecurityMetadata
  pub metadata_row : db.metadata ≡ some metadata
  pub instance_current : InstanceCurrent input metadata
  pub row : GitOperation
  pub operation_row :
      find_row (in_state input.operation.id GitOperationState.pushing) db.git_operations ≡ some row

becomes_pushing :
    (id : Uuid) (r : GitOperation)
    → in_state id GitOperationState.waiting_credential r ≡ true
    → in_state id GitOperationState.pushing (set_values no_values GitOperationState.pushing r)
      ≡ true
unfolding set_values git_state_eq
becomes_pushing id r h = ground arith

on_database_Ensures :
    {A : Type 0} (Q : A → Database → Type 0) (m : Exec Database A) (s : Execution)
    → Ensures Q (λ _ _. Unit {0}) m s.database
    → Ensures (λ a t. Q a t.database) (λ _ _. Unit {0}) (on_database m) s
unfolding on_database
on_database_Ensures Q m s h =
    end_by (enclosing s) m s.database (on_database m) s refl h (λ _ _ q. q) (λ _ _ _. tt)

module _ (input : WriteInput) (now : Date) where
  Current : InstanceSecurityMetadata → Database → Type 0
  Current m db =
      (input_current input now ≡ true) × (db.metadata ≡ some m) × (metadata_current input m ≡ true)

  context_Current :
      (db : Database) → Ensures Current (λ _ _. Unit {0}) (require_current_context input now) db
  unfolding require_current_context Current
  context_Current db =
      on_gets _ _ (end_required_where _ _ _ tt λ m em pm. (ground arith, em, ground arith))

module _ (outside : Outside) (now : Readings) (input : WriteInput) where
  begin_push-Authorized :
      (credential : EphemeralCredential) (s : Execution)
      → Ensures
          (λ _ t. Authorized input now.rechecked_at t.database)
          (λ _ _. Unit {0})
          (begin_push outside now input credential)
          s
  unfolding begin_push Current
  begin_push-Authorized credential s =
      on_ensured _ _ _ _
        (on_database_Ensures (Current input now.rechecked_at) _ s
          (context_Current input now.rechecked_at s.database))
        (λ _ _ _. tt)
        λ m t (ci, em, cm).
          on_assert _ _ _ (λ _. tt)
            λ _.
              on_ensured _ _ (λ _ u. Authorized input now.rechecked_at u.database) _
                (on_database_Ensures _ _ t (moved t.database m ci em cm)) (λ _ _ _. tt)
                λ op u h. on_modify _ _ (end_pure _ h)
    where
      moved :
          (db : Database) (m : InstanceSecurityMetadata)
          → input_current input now.rechecked_at ≡ true
          → db.metadata ≡ some m
          → metadata_current input m ≡ true
          → Ensures
              (λ _ db'. Authorized input now.rechecked_at db')
              (λ _ _. Unit {0})
              (transition input.operation.id GitOperationState.waiting_credential
                GitOperationState.pushing no_values)
              db
      moved db m ci em cm =
          Ensures-weaken _ _
            (λ op t (_, (x, found, _, w)).
              let (y, row) =
                written_row (in_state input.operation.id GitOperationState.pushing)
                  (in_state input.operation.id GitOperationState.waiting_credential)
                  (set_values no_values GitOperationState.pushing) db.git_operations
                  (becomes_pushing input.operation.id) found in
              record {
                current = input_current-InputCurrent input now.rechecked_at ci;
                metadata = m;
                metadata_row = rw w em;
                instance_current = metadata_current-InstanceCurrent input m cm;
                row = y;
                operation_row = rw w row;
              })
            (λ _ _ _. tt)
            (transition-Transitioned input.operation.id GitOperationState.waiting_credential
              GitOperationState.pushing no_values db)

-- Another push, where it does what the first does whenever the write is authorized.
module _ (outside : Outside) (push' : PushInput → Exec Database (Unit {0})) (now : Readings)
    (input : WriteInput)
    (alike : (sent : PushInput) (db : Database)
      → Authorized input now.rechecked_at db
      → push' sent db ≡ outside.push sent db) where
  abbrev other : Outside
  other = record outside { push = push' }

  deliver_alike :
      (lease : CredentialLease) (credential : EphemeralCredential) (operation : GitOperation)
      (s : Execution)
      → Authorized input now.rechecked_at s.database
      → deliver outside now input lease credential operation s
        ≡ deliver other now input lease credential operation s
  unfolding deliver on_database ◌>>=◌
  deliver_alike lease credential operation s h = rw (alike _ s.database h) refl

  write_alike : (s : Execution) → write outside now input s ≡ write other now input s
  unfolding write obtain_credential begin_push
  write_alike s =
      same_after (obtain_credential outside now input) _ _ s (anything _ s)
        λ (lease, credential) t _.
          same_after (begin_push outside now input credential) _ _ t
            (begin_push-Authorized outside now input credential t)
            λ operation u h. deliver_alike lease credential operation u h

  pub attempt_pushes_authorized :
      (db : Database) → attempt outside now input db ≡ attempt other now input db
  unfolding attempt recover catch
  attempt_pushes_authorized db = rw (write_alike _) refl

  -- The executor calls the push only while the write is authorized: with any other push, which
  -- does the same on every database that has the operation in the state of pushing and the
  -- instance out of maintenance, in the operation's epoch and with the review's tier and posture,
  -- given that the approval is approved, unexpired and agrees with the operation, executing has
  -- the same outcome and leaves the same database.
  pub execute_pushes_authorized :
      (config : GitHubCredentialConfig) (db : Database)
      → execute config outside now input db ≡ execute config other now input db
  unfolding execute
  execute_pushes_authorized config db =
      same_after (assert_ready config) _ _ db (anything _ db) λ _ t _.
        elim (Bool-cases (input.operation.state == GitOperationState.waiting_credential)) [
          | inl waits ↦ rw waits (attempt_pushes_authorized t)
          | inr other_state ↦ rw other_state refl
        ]
