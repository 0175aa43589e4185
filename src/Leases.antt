-- ===== src/Leases.antt =====
-- packages/git-operations: `PostgresCredentialLeaseRepository` of repository.ts. The modules below
-- prove.
pub mod Effects
use remote_agent_devbox.Common.{
  ℕ, String, ◌<>◌, Bool, not, ◌&&◌, Option, none, some, List, [], ◌∷◌, ltb, leb, ◌==◌, member,
  string_eq, nat_eq, if◌then◌else◌, find_row, exists, update, returning, Error, rad, other, Exec,
  pure, gets, modify, required, required_where, assert, transaction, ◌>>=◌, ◌>>◌,
}
use remote_agent_devbox.Schema.Workspace.{Uuid, Date, Repository}
use remote_agent_devbox.Schema.Security.{InstanceSecurityMetadata}
use remote_agent_devbox.Schema.Git.{
  GitOperation, GitOperationState, git_state_eq, CredentialLease, CredentialLeaseState,
  lease_state_eq,
}
use remote_agent_devbox.Schema.Database.{Database}

pub record NewLease : Type 0 where
  pub id : Uuid
  pub operation_id : Uuid
  pub repository_id : Uuid
  pub security_epoch : ℕ
  pub created_at : Date

-- The row of `values({ ...input, state: "RESERVED" })`.
unfoldable pub new_row : NewLease → CredentialLease
new_row input = record {
  id = input.id;
  operation_id = input.operation_id;
  repository_id = input.repository_id;
  security_epoch = input.security_epoch;
  state = CredentialLeaseState.reserved;
  issued_at = none;
  expires_at = none;
  consumed_at = none;
  failure_reason = none;
  created_at = input.created_at;
}

-- The constraints of the table `credential_leases` that a new row must meet.
unfoldable pub credential_leases_accepts : Database → CredentialLease → Bool
credential_leases_accepts db row =
    not (exists (λ r. r.id == row.id) db.credential_leases)
    && not (exists (λ r. r.operation_id == row.operation_id) db.credential_leases)
    && exists (λ (o : GitOperation). o.id == row.operation_id) db.git_operations
    && exists (λ (r : Repository). r.id == row.repository_id) db.repositories
    && ltb 0 row.security_epoch

unfoldable pub operation_waits : NewLease → GitOperation → Bool
unfolding git_state_eq
operation_waits input operation =
    operation.state == GitOperationState.waiting_credential
    && operation.repository_id == input.repository_id
    && operation.security_epoch == input.security_epoch

reserve_body : NewLease → Exec Database CredentialLease
reserve_body input = do
  operations ← gets (λ db. db.git_operations)
  metadata ← gets (λ db. db.metadata)
  required_where (operation_waits input) (find_row (λ r. r.id == input.operation_id) operations)
      invalid
  required_where (λ (m : InstanceSecurityMetadata). m.security_epoch == input.security_epoch)
      metadata invalid
  accepted ← gets (λ db. credential_leases_accepts db (new_row input))
  assert accepted (other "credential_leases constraint violated")
  modify (λ db. record db { credential_leases = new_row input ∷ db.credential_leases })
  pure (new_row input)
  where
    invalid : Error
    invalid =
        rad "CREDENTIAL_LEASE_CONTEXT_INVALID"
          "Credential lease does not match a current waiting Git operation"

unfoldable pub reserve : NewLease → Exec Database CredentialLease
unfolding reserve_body credential_leases_accepts operation_waits new_row transaction
reserve input = transaction (reserve_body input)

-- UPDATE … WHERE id = id AND state IN (expected states)
abbrev pub in_states : Uuid → List CredentialLeaseState → CredentialLease → Bool
in_states id expected r = r.id == id && member r.state expected

unfoldable pub transition :
    Uuid
    → List CredentialLeaseState
    → (CredentialLease → CredentialLease)
    → Exec Database CredentialLease
transition id expected set_values = do
  updated ← gets (λ db. returning (in_states id expected) set_values db.credential_leases)
  modify (λ db. record db {
    credential_leases = update (in_states id expected) set_values db.credential_leases;
  })
  required updated
      (rad "CREDENTIAL_LEASE_STATE_CONFLICT" ("Lease " <> id <> " changed concurrently"))

unfoldable pub mark_issued : Uuid → Date → Date → Exec Database CredentialLease
unfolding transition
mark_issued id issued_at expires_at = do
  assert (not (leb expires_at issued_at))
      (rad "CREDENTIAL_EXPIRY_INVALID" "Credential already expired")
  transition id (CredentialLeaseState.reserved ∷ []) (λ r. record r {
    issued_at = some issued_at;
    expires_at = some expires_at;
    state = CredentialLeaseState.issued;
  })

unfoldable pub mark_consumed : Uuid → Date → Exec Database CredentialLease
unfolding transition
mark_consumed id consumed_at =
    transition id (CredentialLeaseState.issued ∷ [])
      (λ r. record r { consumed_at = some consumed_at; state = CredentialLeaseState.consumed })

unfoldable pub mark_failed : Uuid → Date → String → Exec Database CredentialLease
unfolding transition
mark_failed id failed_at reason =
    transition id (CredentialLeaseState.reserved ∷ [])
      (λ r. record r { failure_reason = some reason; state = CredentialLeaseState.failed })

unfoldable pub mark_uncertain : Uuid → Date → String → Exec Database CredentialLease
unfolding transition
mark_uncertain id observed_at reason =
    transition id (CredentialLeaseState.issued ∷ [])
      (λ r. record r { failure_reason = some reason; state = CredentialLeaseState.uncertain })
