-- ===== src/GitWrite/Settled.antt =====
-- What the executor returns has been settled.
use remote_agent_devbox.Common.{
  ◌≡◌, refl, true, Bool, true, false, some, none, Option, ok, err, Error, Exec, lift, Ensures,
  end_by, on_any, on_gets, on_modify, end_catch, Ensures-weaken, String, Bool-cases, ◌⊎◌, inl, inr,
  ◌==◌, string_eq, code_or, ◌&&◌, on_assert, end_pure,
}
use remote_agent_devbox.Schema.Workspace.{Uuid}
use remote_agent_devbox.Schema.Git.{
  GitOperation, GitOperationState, git_state_eq, CredentialLease, lease_state_eq,
}
use remote_agent_devbox.Schema.Database.{Database}
use remote_agent_devbox.GitOperations.{GitOperationValues, set_values, transition}
use remote_agent_devbox.GitOperations.Effects.{transition-Transitioned}
use remote_agent_devbox.GitWrite.{
  Outside, Readings, WriteInput, Execution, EphemeralCredential, GitHubCredentialConfig, enclosing,
  on_database, record_failure, record_lease_failure, deliver, write, recover, disposed, finished,
  attempt, assert_ready, execute, is_reserved,
}

-- The states in which a write ends.
abbrev pub is_settled : GitOperationState → Bool
is_settled GitOperationState.succeeded = true
is_settled GitOperationState.failed = true
is_settled GitOperationState.conflict = true
is_settled _ = false

abbrev Settles : {S : Type 0} → Exec S GitOperation → S → Type 0
Settles m s = Ensures (λ op _. is_settled op.state ≡ true) (λ _ _. Unit {0}) m s

transition-Settles :
    (id : Uuid) (expected next : GitOperationState) (values : GitOperationValues) (db : Database)
    → is_settled next ≡ true
    → Settles (transition id expected next values) db
unfolding set_values
transition-Settles id expected next values db h =
    Ensures-weaken _ _ (λ op t (_, (x, _, e, _)). rw e h) (λ _ _ _. tt)
      (transition-Transitioned id expected next values db)

on_database-Settles :
    (m : Exec Database GitOperation) (s : Execution)
    → Settles m s.database
    → Settles (on_database m) s
unfolding on_database
on_database-Settles m s h =
    end_by (enclosing s) m s.database (on_database m) s refl h (λ _ _ k. k) (λ _ _ _. tt)

lease_failure-Settles :
    (now : Readings) (operation : GitOperation) (lease : CredentialLease) (code : String)
    (db : Database)
    → Settles (record_lease_failure now operation lease code) db
unfolding record_lease_failure
lease_failure-Settles now operation lease code db = elim (Bool-cases (is_reserved lease)) [
  | inl reserved ↦
      rw reserved
        (on_any _ _ (λ _ _. tt) λ _ t. transition-Settles _ _ GitOperationState.failed _ t refl)
  | inr held ↦
      rw held
        (elim (Bool-cases
          (code == "REMOTE_CAS_CONFLICT" && operation.state == GitOperationState.pushing)) [
            | inl lost ↦ rw lost (
                on_any _ _ (λ _ _. tt)
                  λ _ t. transition-Settles _ _ GitOperationState.conflict _ t refl)
            | inr unknown ↦ rw unknown (
                on_any _ _ (λ _ _. tt)
                  λ _ t. transition-Settles _ _ GitOperationState.failed _ t refl)
          ])
]

failure-Settles :
    (now : Readings) (operation : GitOperation) (lease : Option CredentialLease) (error : Error)
    (db : Database)
    → Settles (record_failure now operation lease error) db
unfolding record_failure
failure-Settles now operation none error db =
    transition-Settles _ _ GitOperationState.failed _ db refl
failure-Settles now operation (some lease) error db =
    lease_failure-Settles now operation lease (code_or "GIT_WRITE_FAILED" error) db

module _ (outside : Outside) (now : Readings) (input : WriteInput) where
  deliver-Settles :
      (lease : CredentialLease) (credential : EphemeralCredential) (operation : GitOperation)
      (s : Execution)
      → Settles (deliver outside now input lease credential operation) s
  unfolding deliver
  deliver-Settles lease credential operation s =
      on_any _ _ (λ _ _. tt)
        λ _ t1.
          on_any _ _ (λ _ _. tt)
            λ _ t2.
              on_any _ _ (λ _ _. tt)
                λ _ t3. on_modify _ _ (
                  on_database-Settles _ _
                    (transition-Settles _ _ GitOperationState.succeeded _ _ refl))

  write-Settles : (s : Execution) → Settles (write outside now input) s
  unfolding write
  write-Settles s =
      on_any _ _ (λ _ _. tt)
        λ (lease, credential) t1.
          on_any _ _ (λ _ _. tt) λ operation t2. deliver-Settles lease credential operation t2

  recover-Settles : (e : Error) (s : Execution) → Settles (recover outside now input e) s
  unfolding recover
  recover-Settles e s =
      on_gets _ _ (
        on_gets _ _
          (on_database-Settles _ s (failure-Settles now s.operation s.lease e s.database)))

  attempt-Settles : (db : Database) → Settles (attempt outside now input) db
  unfolding attempt lift
  attempt-Settles db =
      let tried =
        end_catch (write outside now input) (recover outside now input) (write-Settles _)
          (λ e t _. recover-Settles e t) in
      end_by (finished outside now input) _ _ (attempt outside now input) db refl tried
        (λ op s h.
          (on_any (disposed outside now input s.prepared) (λ _. lift (ok op)) (λ _ _. tt)
            (λ _ t. record { holds = h })).holds)
        (λ e s _.
          (on_any (disposed outside now input s.prepared) (λ _. lift (err e)) (λ _ _. tt)
            (λ _ t. record { holds = tt })).holds)

-- The operation has been settled, or did not wait for a credential and nothing was done.
abbrev pub Executed : WriteInput → Database → GitOperation → Database → Type 0
Executed input db op db' =
    (is_settled op.state ≡ true)
    ⊎ (((input.operation.state == GitOperationState.waiting_credential) ≡ false)
        × (op ≡ input.operation)
        × (db' ≡ db))

-- Whatever its outside calls do, when the executor returns, the operation has succeeded, failed or
-- ended in a conflict; or it did not wait for a credential, and is returned as it was with the
-- database unchanged.
pub execute-Executed :
    (config : GitHubCredentialConfig) (outside : Outside) (now : Readings) (input : WriteInput)
    (db : Database)
    → Ensures (Executed input db) (λ _ _. Unit {0}) (execute config outside now input) db
unfolding execute assert_ready
execute-Executed config outside now input db =
    on_assert _ _ _ (λ _. tt)
      λ _. elim (Bool-cases (input.operation.state == GitOperationState.waiting_credential)) [
        | inl waits ↦ rw waits (
            Ensures-weaken _ _ (λ _ _ h. inl h) (λ _ _ _. tt)
              (attempt-Settles outside now input db))
        | inr other ↦ rw other (end_pure _ (inr (other, refl, refl)))
      ]
