-- ===== src/Leases/Effects.antt =====
-- What the operations on credential leases do to the database, on every branch.
use remote_agent_devbox.Common.{
  ◌<◌, ◌≡◌, refl, true, some, List, ◌∷◌, [], ◌==◌, string_eq, nat_eq, find_row, arith, Ensures,
  Swapped, String, on_gets, on_required_where, on_assert, on_modify, end_pure, end_transaction,
  end_swap, Ensures-weaken,
}
use remote_agent_devbox.Schema.Workspace.{Uuid, Date}
use remote_agent_devbox.Schema.Security.{InstanceSecurityMetadata}
use remote_agent_devbox.Schema.Git.{
  GitOperation, GitOperationState, CredentialLease, CredentialLeaseState,
}
use remote_agent_devbox.Schema.Database.{Database}
use remote_agent_devbox.Leases.{
  NewLease, new_row, credential_leases_accepts, operation_waits, reserve_body, reserve, in_states,
  transition, mark_issued, mark_consumed, mark_failed, mark_uncertain,
}

-- A lease is reserved for an operation that waits for a credential, in the instance's epoch.
pub record Reserved (input : NewLease) (db : Database) (lease : CredentialLease) (db' : Database)
    (operation : GitOperation) (metadata : InstanceSecurityMetadata) : Type 0 where
  pub operation_row : find_row (λ r. r.id == input.operation_id) db.git_operations ≡ some operation
  pub waiting : operation.state ≡ GitOperationState.waiting_credential
  pub repository : operation.repository_id ≡ input.repository_id
  pub epoch : operation.security_epoch ≡ input.security_epoch
  pub metadata_row : db.metadata ≡ some metadata
  pub metadata_epoch : metadata.security_epoch ≡ input.security_epoch
  pub lease_row : lease ≡ new_row input
  pub accepted : credential_leases_accepts db lease ≡ true
  pub written : db' ≡ record db { credential_leases = lease ∷ db.credential_leases }

reserve_body-Reserved :
    (input : NewLease) (db : Database)
    → Ensures
        (λ lease db'.
          (o : GitOperation) × (m : InstanceSecurityMetadata) × Reserved input db lease db' o m)
        (λ _ _. Unit)
        (reserve_body input)
        db
unfolding reserve_body operation_waits
reserve_body-Reserved input db = on_gets _ _ (
    on_gets _ _ (
      on_required_where _ _ _ _ tt λ o eo po. on_required_where _ _ _ _ tt λ m em pm. on_gets _ _ (
        on_assert _ _ _ (λ _. tt)
          λ accepted. on_modify _ _ (
            end_pure _ (
              o,
              m,
              record {
                operation_row = eo;
                waiting = ground arith;
                repository = ground arith;
                epoch = ground arith;
                metadata_row = em;
                metadata_epoch = ground arith;
                lease_row = refl;
                accepted = accepted;
                written = refl;
              },
            )))))

-- A credential lease is reserved only for a git operation of the same repository and epoch that
-- waits for a credential, in the instance's epoch; its row is the only change. When it throws,
-- nothing has changed.
pub reserve-Reserved :
    (input : NewLease) (db : Database)
    → Ensures
        (λ lease db'.
          (o : GitOperation) × (m : InstanceSecurityMetadata) × Reserved input db lease db' o m)
        (λ _ db'. db' ≡ db)
        (reserve input)
        db
unfolding reserve
reserve-Reserved input db = end_transaction _ _ (λ _. refl) (reserve_body-Reserved input db)

-- One lease moves from a state of the list, and is written by `f`.
abbrev pub Moved :
    Uuid
    → List CredentialLeaseState
    → (CredentialLease → CredentialLease)
    → Database
    → CredentialLease
    → Database
    → Type 0
Moved id from f db =
    Swapped (λ d. d.credential_leases) (λ rows d. record d { credential_leases = rows })
      (in_states id from) f db

transition-Moved :
    (id : Uuid) (from : List CredentialLeaseState) (f : CredentialLease → CredentialLease)
    (db : Database)
    → Ensures (Moved id from f db) (λ _ db'. db' ≡ db) (transition id from f) db
unfolding transition
transition-Moved id from f db =
    end_swap (λ d. d.credential_leases) (λ rows d. record d { credential_leases = rows })
      (λ _. refl) _ _ _ db

abbrev pub issued : Date → Date → CredentialLease → CredentialLease
issued issued_at expires_at r = record r {
  issued_at = some issued_at;
  expires_at = some expires_at;
  state = CredentialLeaseState.issued;
}

abbrev pub consumed : Date → CredentialLease → CredentialLease
consumed at r = record r { consumed_at = some at; state = CredentialLeaseState.consumed }

abbrev pub failed : String → CredentialLease → CredentialLease
failed reason r = record r { failure_reason = some reason; state = CredentialLeaseState.failed }

abbrev pub uncertain : String → CredentialLease → CredentialLease
uncertain reason r = record r {
  failure_reason = some reason;
  state = CredentialLeaseState.uncertain;
}

module _ (id : Uuid) (db : Database) where
  -- A lease becomes issued only with an expiry after the issue.
  pub mark_issued-Moved :
      (at expires_at : Date)
      → Ensures
          (λ lease db'.
            (at < expires_at)
            × Moved id (CredentialLeaseState.reserved ∷ []) (issued at expires_at) db lease db')
          (λ _ db'. db' ≡ db)
          (mark_issued id at expires_at)
          db
  unfolding mark_issued
  mark_issued-Moved at expires_at =
      on_assert _ _ _ (λ _. refl)
        λ later.
          Ensures-weaken _ _ (λ _ _ q. (ground arith, q)) (λ _ _ x. x)
            (transition-Moved id (CredentialLeaseState.reserved ∷ []) (issued at expires_at) db)

  pub mark_consumed-Moved :
      (at : Date)
      → Ensures
          (Moved id (CredentialLeaseState.issued ∷ []) (consumed at) db)
          (λ _ db'. db' ≡ db)
          (mark_consumed id at)
          db
  unfolding mark_consumed
  mark_consumed-Moved at = transition-Moved id (CredentialLeaseState.issued ∷ []) (consumed at) db

  pub mark_failed-Moved :
      (at : Date) (reason : String)
      → Ensures
          (Moved id (CredentialLeaseState.reserved ∷ []) (failed reason) db)
          (λ _ db'. db' ≡ db)
          (mark_failed id at reason)
          db
  unfolding mark_failed
  mark_failed-Moved at reason =
      transition-Moved id (CredentialLeaseState.reserved ∷ []) (failed reason) db

  pub mark_uncertain-Moved :
      (at : Date) (reason : String)
      → Ensures
          (Moved id (CredentialLeaseState.issued ∷ []) (uncertain reason) db)
          (λ _ db'. db' ≡ db)
          (mark_uncertain id at reason)
          db
  unfolding mark_uncertain
  mark_uncertain-Moved at reason =
      transition-Moved id (CredentialLeaseState.issued ∷ []) (uncertain reason) db
