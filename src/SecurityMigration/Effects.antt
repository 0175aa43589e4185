-- ===== src/SecurityMigration/Effects.antt =====
-- What the commit of a security migration does to the database, on every branch.
use remote_agent_devbox.Common.{
  ◌<◌, ◌≡◌, refl, true, false, some, ◌∷◌, string_eq, nat_eq, exists, arith, Ensures, on_gets,
  on_required_where, on_assert, on_modify, on_ensured, end_pure, end_transaction,
}
use remote_agent_devbox.Schema.Workspace.{Uuid}
use remote_agent_devbox.Schema.Security.{InstanceSecurityMetadata}
use remote_agent_devbox.Schema.Audit.{AuditEvent}
use remote_agent_devbox.Schema.Database.{Database}
use remote_agent_devbox.Metadata.{instance_metadata_accepts}
use remote_agent_devbox.Audit.Effects.{insert_event_effect}
use remote_agent_devbox.SecurityMigration.{
  CommitInput, SecurityMigrationResult, max_safe_integer, metadata_expected, is_pushing, is_refused,
  invalidate_all, count_all, migrated, commit_body, commit,
}

-- The commit finds the metadata as expected and in maintenance, and no operation pushing. It counts
-- what it invalidates, rotates the metadata and appends two events; other tables stay.
pub record Committed (input : CommitInput) (db : Database) (result : SecurityMigrationResult)
    (db' : Database) (current : InstanceSecurityMetadata) (first second : AuditEvent) : Type 0 where
  pub metadata_row : db.metadata ≡ some current
  pub maintained : current.maintenance_mode ≡ true
  pub tier : current.deployment_tier ≡ input.expected_tier
  pub epoch : current.security_epoch ≡ input.expected_epoch
  pub posture : current.security_posture_hash ≡ input.expected_posture_hash
  pub none_pushing : exists is_pushing db.git_operations ≡ false
  pub none_refused : exists is_refused db.approval_requests ≡ false
  pub no_overflow : input.expected_epoch < max_safe_integer
  pub valid : instance_metadata_accepts (migrated input current) ≡ true
  pub counted : result ≡ count_all db (migrated input current)
  pub written : db' ≡ record (invalidate_all input.completed_at db) {
    metadata = some (migrated input current);
    audit_events = second ∷ first ∷ (invalidate_all input.completed_at db).audit_events;
  }

commit_body-Committed :
    (a b : Uuid) (input : CommitInput) (db : Database)
    → Ensures
        (λ result db'.
          (m : InstanceSecurityMetadata) × (first : AuditEvent) × (second : AuditEvent) × Committed
            input db result db' m first second)
        (λ _ _. Unit)
        (commit_body a b input)
        db
unfolding commit_body metadata_expected
commit_body-Committed a b input db = on_gets _ _ (
    on_required_where _ _ _ _ tt λ m em pm. on_gets _ _ (
      on_assert _ _ _ (λ _. tt)
        λ quiet. on_gets _ _ (
          on_assert _ _ _ (λ _. tt)
            λ allowed. on_gets _ _ (
              on_modify _ _ (
                on_assert _ _ _ (λ _. tt)
                  λ small.
                    on_assert _ _ _ (λ _. tt)
                      λ valid. on_modify _ _ (
                        on_ensured _ _ _ _ (insert_event_effect _ _) (λ _ _ _. tt)
                          λ e₁ t₁ w₁.
                            on_ensured _ _ _ _ (insert_event_effect _ _) (λ _ _ _. tt)
                              λ e₂ t₂ w₂. end_pure _ (
                                m,
                                e₁,
                                e₂,
                                record {
                                  metadata_row = em;
                                  maintained = ground arith;
                                  tier = ground arith;
                                  epoch = ground arith;
                                  posture = ground arith;
                                  none_pushing = ground arith;
                                  none_refused = ground arith;
                                  no_overflow = ground arith;
                                  valid = valid;
                                  counted = refl;
                                  written = rw w₂ (rw w₁ refl);
                                },
                              )))))))

-- The commit of a security migration finds the metadata in maintenance and as expected, no git
-- operation pushing, and an epoch that can still be raised; it counts what it invalidates, writes
-- the new metadata and appends two audit events, and nothing else. When it throws, nothing has
-- changed.
pub commit-Committed :
    (a b : Uuid) (input : CommitInput) (db : Database)
    → Ensures
        (λ result db'.
          (m : InstanceSecurityMetadata) × (first : AuditEvent) × (second : AuditEvent) × Committed
            input db result db' m first second)
        (λ _ db'. db' ≡ db)
        (commit a b input)
        db
unfolding commit
commit-Committed a b input db = end_transaction _ _ (λ _. refl) (commit_body-Committed a b input db)
