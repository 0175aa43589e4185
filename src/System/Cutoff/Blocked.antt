-- ===== src/System/Cutoff/Blocked.antt =====
-- Which approval requests keep a security migration from being committed.
use remote_agent_devbox.Common.{
  ap, sym, ◌∙◌, exists, String, Bool, Ensures, ◌⊎◌, inl, inr, ◌≡◌, refl, true, some, List, ◌==◌,
  string_eq, find_row, Ensures-weaken,
}
use remote_agent_devbox.Schema.Workspace.{Uuid}
use remote_agent_devbox.Schema.Approval.{ApprovalRequest, ApprovalStatus, approval_status_eq}
use remote_agent_devbox.Schema.Database.{Database}
use remote_agent_devbox.Approvals.{is_active}
use remote_agent_devbox.SecurityMigration.{
  CommitInput, SecurityMigrationInput, SecurityMigrationResult, is_refused, commit,
}
use remote_agent_devbox.Lifecycle.{SandboxSupervisor}
use remote_agent_devbox.SecurityMigration.Service.{Readings, migrate}
use remote_agent_devbox.SecurityMigration.Service.Migrated.{Unmigrated, migrate-Migrated}
use remote_agent_devbox.SecurityMigration.Effects.{commit-Committed}
use remote_agent_devbox.System.{Action, run}
use remote_agent_devbox.System.Once.{Refused}
use remote_agent_devbox.System.Requests.Checked.{Checked, refused_row, run-Approved}

active_status :
    (a : ApprovalRequest)
    → (a.status ≡ ApprovalStatus.pending) ⊎ (a.status ≡ ApprovalStatus.approved)
    → is_active a ≡ true
unfolding is_active
active_status a (inl h) = rw h refl
active_status a (inr h) = rw h refl

module _ (a b : Uuid) (input : CommitInput) where
  -- Where the rows of the table of approval requests meet its constraints and one of them is
  -- pending or approved, committing a security migration throws and changes nothing.
  pub commit_blocked :
      (id : Uuid) (approval : ApprovalRequest) (db : Database)
      → Checked db.approval_requests
      → find_row (λ r. r.id == id) db.approval_requests ≡ some approval
      → (approval.status ≡ ApprovalStatus.pending) ⊎ (approval.status ≡ ApprovalStatus.approved)
      → Refused SecurityMigrationResult (commit a b input) db
  commit_blocked id approval db checked row active =
      Ensures-weaken _ _
        (λ _ _ (_, _, _, c).
          refused_row id approval db.approval_requests checked row (active_status approval active)
            c.none_refused)
        (λ _ _ kept. kept) (commit-Committed a b input db)

  -- Where the rows of the table of approval requests meet its constraints and one of them is
  -- approved, no security migration is committed after any requests: committing one throws and
  -- changes nothing.
  pub approved_blocks :
      (id : Uuid) (approval : ApprovalRequest) (actions : List Action) (db : Database)
      → Checked db.approval_requests
      → find_row (λ r. r.id == id) db.approval_requests ≡ some approval
      → approval.status ≡ ApprovalStatus.approved
      → Refused SecurityMigrationResult (commit a b input) (run actions db)
  approved_blocks id approval actions db checked row approved =
      let later =
        run-Approved id approval actions db
          (record { checked = checked; row = row; approved = approved }) in
      commit_blocked id approval (run actions db) later.checked later.row (inr later.approved)

-- Where the rows of the table of approval requests meet its constraints and one of them is pending
-- or approved, the migration service throws; nothing but the audit log has changed, except that
-- the instance may have entered maintenance for this migration and stays in it.
pub migrate_blocked :
    (is_uuid : String → Bool) (supervisor : SandboxSupervisor) (now : Readings)
    (input : SecurityMigrationInput) (id : Uuid) (approval : ApprovalRequest) (db : Database)
    → Checked db.approval_requests
    → find_row (λ r. r.id == id) db.approval_requests ≡ some approval
    → (approval.status ≡ ApprovalStatus.pending) ⊎ (approval.status ≡ ApprovalStatus.approved)
    → Ensures {A = SecurityMigrationResult}
        (λ _ _. ⊥)
        (λ _ db'. Unmigrated db input now.requested_at db')
        (migrate is_uuid supervisor now input)
        db
migrate_blocked is_uuid supervisor now input id approval db checked row active =
    Ensures-weaken _ _
      (λ result db' made.
        let (_, (_, same), _) = made.unmigrated in
        refused_row id approval db.approval_requests checked row (active_status approval active) (
          ap (λ d. exists is_refused d.approval_requests) (sym same)
          ∙ made.commit_made.none_refused))
      (λ _ _ kept. kept) (migrate-Migrated is_uuid supervisor now input db)
