-- ===== src/SecurityMigration/Service/Migrated.antt =====
-- What the service that migrates the security posture does to the database, on every branch.
use remote_agent_devbox.Common.{
  ◌<>◌, ◌+◌, ◌==◌, Bool-cases, ◌≤◌, ◌≡◌, refl, sym, ap, ◌∙◌, Bool, true, false, Option, some, List,
  ◌∷◌, String, ◌⊎◌, inl, inr, ok, Error, string_eq, nat_eq, eq_of_==, if◌then◌else◌, arith, Ensures,
  Ensures-weaken, Ensures_returned, on_gets, on_required, on_assert, on_ensured, end_pure,
  end_raise, end_catch, end_assert,
}
use remote_agent_devbox.Schema.Workspace.{Date}
use remote_agent_devbox.Schema.Security.{InstanceSecurityMetadata}
use remote_agent_devbox.Schema.Audit.{AuditEvent, NewAuditEvent}
use remote_agent_devbox.Schema.Database.{Database}
use remote_agent_devbox.Names.{decimal}
use remote_agent_devbox.Metadata.{entered}
use remote_agent_devbox.Metadata.Effects.{enter_effect}
use remote_agent_devbox.Audit.{append}
use remote_agent_devbox.Audit.Effects.{append_effect}
use remote_agent_devbox.Lifecycle.{SandboxSupervisor, reconcile_all}
use remote_agent_devbox.Lifecycle.Settled.{reconcile_all_returns}
use remote_agent_devbox.SecurityMigration.{
  SecurityMigrationInput, SecurityMigrationResult, count_all, migrated,
}
use remote_agent_devbox.SecurityMigration.Effects.{Committed, commit-Committed}
use remote_agent_devbox.SecurityMigration.Service.{
  Readings, confirmation_text, changes_posture, validate_migration_input, maintenance_reason,
  commit_input, commit_and_reconcile, report_failure, migrate,
}

-- The input names a change of the current posture, and its confirmation is that of the change.
pub record Confirmed (input : SecurityMigrationInput) (current : InstanceSecurityMetadata)
    : Type 0 where
  pub low : 1 ≤ input.target_tier
  pub high : input.target_tier ≤ 3
  pub confirmation :
      input.confirmation
      ≡ "MIGRATE EPOCH "
        <> decimal current.security_epoch
        <> " TIER "
        <> decimal current.deployment_tier
        <> "->"
        <> decimal input.target_tier
  pub changes :
      (input.force_epoch_rotation ≡ true)
      ⊎ ¬ (input.target_tier ≡ current.deployment_tier)
      ⊎ ¬ (input.target_posture_hash ≡ current.security_posture_hash)

change_cases :
    (input : SecurityMigrationInput) (current : InstanceSecurityMetadata)
    → changes_posture input current ≡ true
    → (input.force_epoch_rotation ≡ true)
      ⊎ ¬ (input.target_tier ≡ current.deployment_tier)
      ⊎ ¬ (input.target_posture_hash ≡ current.security_posture_hash)
unfolding changes_posture
change_cases input current h = elim (Bool-cases input.force_epoch_rotation) [
  | inl forced ↦ inl forced
  | inr free ↦ elim (Bool-cases (input.target_tier == current.deployment_tier)) [
    | inr moved ↦ inr (inl (λ e. ground (arith, moved, e)))
    | inl stays ↦ inr (inr (λ e. ground (arith, h, free, stays, e)))
  ]
]

confirms :
    (is_uuid : String → Bool) (input : SecurityMigrationInput) (current : InstanceSecurityMetadata)
    (db : Database)
    → Ensures
        (λ _ db'. (db' ≡ db) × Confirmed input current)
        (λ _ db'. db' ≡ db)
        (validate_migration_input is_uuid input current)
        db
unfolding validate_migration_input confirmation_text
confirms is_uuid input current db =
    on_assert _ _ _ (λ _. refl)
      λ tier.
        on_assert _ _ _ (λ _. refl)
          λ _.
            on_assert _ _ _ (λ _. refl)
              λ _.
                on_assert _ _ _ (λ _. refl)
                  λ _.
                    on_assert _ _ _ (λ _. refl)
                      λ text.
                        end_assert _ _ (λ _. refl)
                          λ changes. (
                            refl,
                            record {
                              low = ground (arith, tier);
                              high = ground (arith, tier);
                              confirmation = eq_of_== _ _ text;
                              changes = change_cases input current changes;
                            },
                          )

choice :
    {A : Type 0} (b : Bool) (x y : A)
    → ((b ≡ true) × ((if b then x else y) ≡ x)) ⊎ ((b ≡ false) × ((if b then x else y) ≡ y))
choice true x y = inl (refl, refl)
choice false x y = inr (refl, refl)

module _ (db : Database) where
  -- The database with this row of metadata and these audit events.
  abbrev pub Logged : Option InstanceSecurityMetadata → Database → Type 0
  Logged x t = (events : List AuditEvent) × (t ≡ record db { metadata = x; audit_events = events })

  -- Nothing but the audit log has changed, and the instance may have entered maintenance.
  abbrev pub Unmigrated : SecurityMigrationInput → Date → Database → Type 0
  Unmigrated input at t =
      (x : Option InstanceSecurityMetadata) × Logged x t
      × ((x ≡ db.metadata)
          ⊎ ((m : InstanceSecurityMetadata) × (db.metadata ≡ some m)
              × (m.maintenance_mode ≡ false)
              × (x
                  ≡ some (record m {
                    maintenance_mode = true;
                    maintenance_reason = some ("security-migration:" <> input.reason);
                    maintenance_started_at = some at;
                    updated_at = at;
                  }))))

  -- Whether an event is appended or refused, nothing but the audit log changes.
  logs :
      (x : Option InstanceSecurityMetadata) (e : NewAuditEvent) (t : Database)
      → Logged x t
      → Ensures (λ _ v. Logged x v) (λ _ v. Logged x v) (append e) t
  logs x e t (events, same) =
      Ensures-weaken _ _ (λ event v (_, _, added). (event ∷ events, rw added (rw same refl)))
        (λ _ v kept. rw kept (events, same)) (append_effect e t)

  -- The row of metadata is replaced.
  put-Logged :
      (x : Option InstanceSecurityMetadata) (m : InstanceSecurityMetadata) (t u : Database)
      → Logged x t
      → u ≡ record t { metadata = some m }
      → Logged (some m) u
  put-Logged x m t u (events, same) put = (events, rw put (rw same refl))

  enters :
      (input : SecurityMigrationInput) (at : Date) (old m : InstanceSecurityMetadata)
      → db.metadata ≡ some old
      → m ≡ (if old.maintenance_mode then old else entered (maintenance_reason input) at old)
      → (t : Database) → Logged (some m) t
      → Unmigrated input at t
  enters input at old m row same t logged =
      elim (choice old.maintenance_mode old (entered (maintenance_reason input) at old)) [
        | inl (on, e) ↦ (some m, logged, inl (ap some (same ∙ e) ∙ sym row))
        | inr (off, e) ↦ (some m, logged, inr (old, row, off, ap some (same ∙ e)))
      ]

module _ (is_uuid : String → Bool) (supervisor : SandboxSupervisor) (now : Readings) where
  -- A migration that has returned: the change was confirmed, the commit was made of the database
  -- with only the audit log and the maintenance changed, and all workspaces were reconciled.
  pub record Migrated (input : SecurityMigrationInput) (db : Database)
      (result : SecurityMigrationResult) (db' : Database) : Type 0 where
    pub current : InstanceSecurityMetadata
    pub metadata_row : db.metadata ≡ some current
    pub confirmed : Confirmed input current
    pub locked : Database
    pub unmigrated : Unmigrated db input now.requested_at locked
    pub committed : Database
    pub before : InstanceSecurityMetadata
    pub first : AuditEvent
    pub second : AuditEvent
    pub commit_made :
        Committed
          (commit_input input current now.completed_at)
          locked
          result
          committed
          before
          first
          second
    pub raised : result.metadata.security_epoch ≡ current.security_epoch + 1
    pub to_tier : result.metadata.deployment_tier ≡ input.target_tier
    pub to_posture : result.metadata.security_posture_hash ≡ input.target_posture_hash
    pub stored : committed.metadata ≡ some result.metadata
    pub opened : result.metadata.maintenance_mode ≡ false
    pub reconciled : reconcile_all supervisor committed ≡ (ok tt, db')

  commits :
      (input : SecurityMigrationInput) (current : InstanceSecurityMetadata) (db t : Database)
      → db.metadata ≡ some current
      → Confirmed input current
      → Unmigrated db input now.requested_at t
      → Ensures
          (Migrated input db)
          (λ _ v. v ≡ t)
          (commit_and_reconcile is_uuid supervisor now input current)
          t
  unfolding commit_and_reconcile count_all migrated commit_input
  commits input current db t row confirmed unmigrated =
      on_ensured _ _ _ _ (commit-Committed _ _ _ t) (λ _ _ kept. kept)
        λ result u (m, first, second, made).
          let (v, run) = reconcile_all_returns supervisor u in
          on_ensured _ _ (λ _ w. reconcile_all supervisor u ≡ (ok tt, w)) (λ _ _. ⊥)
            (Ensures_returned _ _ run run) (λ _ _ none_here. absurd none_here)
            λ _ w reconciled. end_pure result (record {
              current = current;
              metadata_row = row;
              confirmed = confirmed;
              locked = t;
              unmigrated = unmigrated;
              committed = u;
              before = m;
              first = first;
              second = second;
              commit_made = made;
              raised = rw made.counted refl;
              to_tier = rw made.counted refl;
              to_posture = rw made.counted refl;
              stored = rw made.counted (rw made.written refl);
              opened = rw made.counted refl;
              reconciled = reconciled;
            })

  reports :
      {Q : SecurityMigrationResult → Database → Type 0} (input : SecurityMigrationInput)
      (current maintenance : InstanceSecurityMetadata) (e : Error) (at : Date) (db t : Database)
      → Unmigrated db input at t
      → Ensures Q
          (λ _ v. Unmigrated db input at v)
          (report_failure is_uuid supervisor now input current maintenance e)
          t
  unfolding report_failure
  reports input current maintenance e at db t (x, logged, mode) =
      on_ensured _ _ _ _ (logs db x _ t logged) (λ _ v kept. (x, kept, mode))
        λ _ v kept. end_raise _ (x, kept, mode)

  -- When a migration returns, its input named another tier or posture hash or forced a rotation,
  -- and its confirmation spelled the stored epoch and tier and the new tier; it was committed from
  -- the stored metadata, with only the audit log and the maintenance changed before it; the
  -- metadata that was stored then has the next epoch, the tier and the posture that were asked for
  -- and no maintenance; and the run over all workspaces that follows, which passes over each
  -- failure, returned. When it throws, nothing but the audit log has changed, except that the
  -- instance may have entered maintenance for this migration and stays in it.
  pub migrate-Migrated :
      (input : SecurityMigrationInput) (db : Database)
      → Ensures
          (Migrated input db)
          (λ _ db'. Unmigrated db input now.requested_at db')
          (migrate is_uuid supervisor now input)
          db
  unfolding migrate
  migrate-Migrated input db =
      let unmoved : (t : Database)
          → Logged db db.metadata t
          → Unmigrated db input now.requested_at t =
        λ t logged. (db.metadata, logged, inl refl) in
      let fresh : Logged db db.metadata db = (db.audit_events, refl) in
      on_gets _ _ (
        on_required _ _ _ (λ _. unmoved db fresh)
          λ current row.
            on_ensured _ _ _ _ (confirms is_uuid input current db)
              (λ _ v kept. unmoved v (rw kept fresh))
              λ _ t1 (k1, confirmed).
                on_ensured _ _ _ _ (logs db db.metadata _ t1 (rw k1 fresh)) (λ _ v l. unmoved v l)
                  λ _ t2 l2.
                    on_assert _ _ _ (λ _. unmoved t2 l2)
                      λ _.
                        on_ensured _ _ _ _ (enter_effect _ _ t2)
                          (λ _ v kept. unmoved v (rw kept l2))
                          λ m t3 (old, eo, em, put).
                            let (x, l3, mode) =
                              enters db input now.requested_at old m
                                (sym (ap (λ d. d.metadata) l2.1) ∙ eo) em t3
                                (put-Logged db db.metadata m t2 t3 l2 put) in
                            on_assert _ _ _ (λ _. (x, l3, mode))
                              λ _.
                                on_ensured _ _ _ _ (logs db x _ t3 l3) (λ _ v l. (x, l, mode))
                                  λ _ t4 l4.
                                    end_catch _ _
                                      (commits input current db t4 row confirmed (x, l4, mode))
                                      (λ e v kept.
                                        reports input current m e now.requested_at db v
                                          (rw kept (x, l4, mode))))
