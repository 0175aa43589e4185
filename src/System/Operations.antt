-- ===== src/System/Operations.antt =====
-- What an action can do to the table of git operations.
pub mod History
pub mod Single
pub mod Ended
use remote_agent_devbox.Common.{
  ◌≡◌, refl, true, false, List, ◌∷◌, ◌==◌, string_eq, ◌&&◌, exists, update, ap, arith,
}
use remote_agent_devbox.Schema.Workspace.{Uuid, Date}
use remote_agent_devbox.Schema.Git.{GitOperation, GitOperationState}
use remote_agent_devbox.Schema.Database.{Database}
use remote_agent_devbox.GitOperations.{
  NewGitOperation, GitOperationValues, can_transition_git_operation, git_operations_accepts,
  in_state, new_row, set_values,
}
use remote_agent_devbox.Outbox.Effects as OutboxEffects
use remote_agent_devbox.SecurityMigration.{invalidate_all, is_cancellable, cancelled}
use remote_agent_devbox.System.Change.{Change}

pub data OperationsStep (xs ys : List GitOperation) : Type 0 where
  kept : ys ≡ xs → OperationsStep xs ys
  created :
      (new : GitOperation)
      → new.state ≡ GitOperationState.pending
      → exists (λ r. r.id == new.id) xs ≡ false
      → exists (λ r. r.approval_id == new.approval_id) xs ≡ false
      → ys ≡ new ∷ xs
      → OperationsStep xs ys
  moved :
      (id : Uuid) (expected next : GitOperationState) (values : GitOperationValues)
      → can_transition_git_operation expected next ≡ true
      → ys ≡ update (in_state id expected) (set_values values next) xs
      → OperationsStep xs ys
  withdrawn : (at : Date) → ys ≡ update is_cancellable (cancelled at) xs → OperationsStep xs ys

pending_row :
    (input : NewGitOperation) (op : GitOperation)
    → op ≡ new_row input
    → op.state ≡ GitOperationState.pending
unfolding new_row
pending_row input op h = rw h refl

fresh_id :
    (db : Database) (row : GitOperation)
    → git_operations_accepts db row ≡ true
    → exists (λ r. r.id == row.id) db.git_operations ≡ false
unfolding git_operations_accepts
fresh_id db row h = ground arith

fresh_approval :
    (db : Database) (row : GitOperation)
    → git_operations_accepts db row ≡ true
    → exists (λ r. r.approval_id == row.approval_id) db.git_operations ≡ false
unfolding git_operations_accepts
fresh_approval db row h = ground arith

pub Change-OperationsStep :
    {db db' : Database} → Change db db' → OperationsStep db.git_operations db'.git_operations
unfolding invalidate_all
Change-OperationsStep (Change.same w) = kept (ap (λ (d : Database). d.git_operations) w)
Change-OperationsStep (Change.repository_added r w) =
    kept (ap (λ (d : Database). d.git_operations) w)
Change-OperationsStep (Change.workspace_added input at x e a w) =
    kept (ap (λ (d : Database). d.git_operations) w)
Change-OperationsStep (Change.workspace_updated id v f x k u) =
    kept (ap (λ (d : Database). d.git_operations) u.3)
Change-OperationsStep (Change.metadata_seeded t h n w) =
    kept (ap (λ (d : Database). d.git_operations) w)
Change-OperationsStep (Change.metadata_set old m e a b c w) =
    kept (ap (λ (d : Database). d.git_operations) w)
Change-OperationsStep (Change.state_requested i j d at r c q) =
    kept (ap (λ (d : Database). d.git_operations) q.written)
Change-OperationsStep (Change.command_claimed now r (OutboxEffects.idle e f w)) =
    kept (ap (λ (d : Database). d.git_operations) w)
Change-OperationsStep (Change.command_claimed now r (OutboxEffects.one c e f w)) =
    kept (ap (λ (d : Database). d.git_operations) w)
Change-OperationsStep (Change.command_succeeded id at f) =
    kept (ap (λ (d : Database). d.git_operations) f.2)
Change-OperationsStep (Change.command_failed id e r at f) =
    kept (ap (λ (d : Database). d.git_operations) f.2)
Change-OperationsStep (Change.commands_recovered b at w) =
    kept (ap (λ (d : Database). d.git_operations) w)
Change-OperationsStep (Change.approval_requested i a r m q) =
    kept (ap (λ (d : Database). d.git_operations) q.written)
Change-OperationsStep (Change.approval_decided id d by at a old f q) =
    kept (ap (λ (d : Database). d.git_operations) q.swapped.3)
Change-OperationsStep {db} (Change.operation_created i op b) =
    created op (pending_row i op b.1) (fresh_id db op b.2) (fresh_approval db op b.2)
      (ap (λ (d : Database). d.git_operations) b.3)
Change-OperationsStep (Change.operation_moved id e n v op al t) =
    moved id e n v al (ap (λ (d : Database). d.git_operations) t.3)
Change-OperationsStep (Change.lease_reserved i l o m q) =
    kept (ap (λ (d : Database). d.git_operations) q.written)
Change-OperationsStep (Change.lease_issued id at x l m) =
    kept (ap (λ (d : Database). d.git_operations) m.3)
Change-OperationsStep (Change.lease_consumed id at l m) =
    kept (ap (λ (d : Database). d.git_operations) m.3)
Change-OperationsStep (Change.lease_failed id r l m) =
    kept (ap (λ (d : Database). d.git_operations) m.3)
Change-OperationsStep (Change.lease_uncertain id r l m) =
    kept (ap (λ (d : Database). d.git_operations) m.3)
Change-OperationsStep (Change.code_issued i code c q) =
    kept (ap (λ (d : Database). d.git_operations) q.written)
Change-OperationsStep (Change.code_redeemed i s code c q) =
    kept (ap (λ (d : Database). d.git_operations) q.written)
Change-OperationsStep (Change.task_created t w) = kept (ap (λ (d : Database). d.git_operations) w)
Change-OperationsStep (Change.task_moved id from f t m) =
    kept (ap (λ (d : Database). d.git_operations) m.3)
Change-OperationsStep (Change.artifact_added input at added) =
    kept (ap (λ (d : Database). d.git_operations) added.written)
Change-OperationsStep (Change.artifact_decided id f r leaves (_, _, _, w)) =
    kept (ap (λ (d : Database). d.git_operations) w)
Change-OperationsStep (Change.review_added platform row now artifact reviewed) =
    kept (ap (λ (d : Database). d.git_operations) reviewed.written)
Change-OperationsStep (Change.audit_appended e w) = kept (ap (λ (d : Database). d.git_operations) w)
Change-OperationsStep (Change.migrated i r c f g q) =
    withdrawn i.completed_at (ap (λ (d : Database). d.git_operations) q.written)
