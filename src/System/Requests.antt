-- ===== src/System/Requests.antt =====
-- What an action can do to the table of approval requests, and the requests that are denied or stale.
pub mod Active
pub mod Checked
use remote_agent_devbox.Common.{
  ◌⊎◌, ◌≡◌, refl, true, false, Option, some, List, ◌∷◌, ◌==◌, ◌&&◌, string_eq, exists, find_row,
  update, ap, arith, frozen-update, frozen-cons,
}
use remote_agent_devbox.Schema.Workspace.{Uuid, Date}
use remote_agent_devbox.Schema.Approval.{
  ApprovalRequest, ApprovalStatus, ApprovalStaleReason, approval_status_eq,
}
use remote_agent_devbox.Schema.Database.{Database}
use remote_agent_devbox.Approvals.{
  NewApprovalRequest, new_row, meets_checks, is_active, decided, pending_with,
  approval_requests_accepts,
}
use remote_agent_devbox.Outbox.Effects as OutboxEffects
use remote_agent_devbox.SecurityMigration.{invalidate_all, staled, is_refused}
use remote_agent_devbox.System.{Action, perform, run, run_keeps}
use remote_agent_devbox.System.Change.{Change, perform-Change}

pub data ApprovalsStep (xs ys : List ApprovalRequest) : Type 0 where
  kept : ys ≡ xs → ApprovalsStep xs ys
  requested :
      (new : ApprovalRequest)
      → exists (λ r. r.id == new.id) xs ≡ false
      → exists (λ r. r.review_snapshot_id == new.review_snapshot_id && is_active r) xs ≡ false
      → meets_checks new ≡ true
      → ys ≡ new ∷ xs
      → ApprovalsStep xs ys
  decision :
      (id : Uuid) (reason : Option ApprovalStaleReason) (status : ApprovalStatus) (by : Uuid)
      (at : Date)
      → (status ≡ ApprovalStatus.approved) ⊎ (status ≡ ApprovalStatus.denied)
      → ys ≡ update (pending_with id) (decided reason status by at) xs
      → ApprovalsStep xs ys
  withdrawn : exists is_refused xs ≡ false → ys ≡ update is_active staled xs → ApprovalsStep xs ys

fresh_id :
    (db : Database) (row : ApprovalRequest)
    → approval_requests_accepts db row ≡ true
    → exists (λ r. r.id == row.id) db.approval_requests ≡ false
unfolding approval_requests_accepts
fresh_id db row h = ground arith

single_active :
    (db : Database) (row : ApprovalRequest)
    → approval_requests_accepts db row ≡ true
    → exists
        (λ r. r.review_snapshot_id == row.review_snapshot_id && is_active r)
        db.approval_requests
      ≡ false
unfolding approval_requests_accepts
single_active db row h = ground arith

new_row_meets : (input : NewApprovalRequest) → meets_checks (new_row input) ≡ true
unfolding meets_checks new_row
new_row_meets input = refl

pub Change-ApprovalsStep :
    {db db' : Database} → Change db db' → ApprovalsStep db.approval_requests db'.approval_requests
unfolding invalidate_all
Change-ApprovalsStep (Change.same w) = kept (ap (λ (d : Database). d.approval_requests) w)
Change-ApprovalsStep (Change.repository_added r w) =
    kept (ap (λ (d : Database). d.approval_requests) w)
Change-ApprovalsStep (Change.workspace_added input at x e a w) =
    kept (ap (λ (d : Database). d.approval_requests) w)
Change-ApprovalsStep (Change.workspace_updated id v f x k u) =
    kept (ap (λ (d : Database). d.approval_requests) u.3)
Change-ApprovalsStep (Change.metadata_seeded t h n w) =
    kept (ap (λ (d : Database). d.approval_requests) w)
Change-ApprovalsStep (Change.metadata_set old m e a b c w) =
    kept (ap (λ (d : Database). d.approval_requests) w)
Change-ApprovalsStep (Change.state_requested i j d at r c q) =
    kept (ap (λ (d : Database). d.approval_requests) q.written)
Change-ApprovalsStep (Change.command_claimed now r (OutboxEffects.idle e f w)) =
    kept (ap (λ (d : Database). d.approval_requests) w)
Change-ApprovalsStep (Change.command_claimed now r (OutboxEffects.one c e f w)) =
    kept (ap (λ (d : Database). d.approval_requests) w)
Change-ApprovalsStep (Change.command_succeeded id at f) =
    kept (ap (λ (d : Database). d.approval_requests) f.2)
Change-ApprovalsStep (Change.command_failed id e r at f) =
    kept (ap (λ (d : Database). d.approval_requests) f.2)
Change-ApprovalsStep (Change.commands_recovered b at w) =
    kept (ap (λ (d : Database). d.approval_requests) w)
Change-ApprovalsStep {db} (Change.approval_requested i a r m q) =
    requested a (fresh_id db a q.accepted) (single_active db a q.accepted)
      (rw q.approval_row (new_row_meets i)) (ap (λ (d : Database). d.approval_requests) q.written)
Change-ApprovalsStep (Change.approval_decided id d by at a old f q) =
    decision id _ d by at f (ap (λ (d : Database). d.approval_requests) q.swapped.3)
Change-ApprovalsStep (Change.operation_created i op b) =
    kept (ap (λ (d : Database). d.approval_requests) b.3)
Change-ApprovalsStep (Change.operation_moved id e n v op al t) =
    kept (ap (λ (d : Database). d.approval_requests) t.3)
Change-ApprovalsStep (Change.lease_reserved i l o m q) =
    kept (ap (λ (d : Database). d.approval_requests) q.written)
Change-ApprovalsStep (Change.lease_issued id at x l m) =
    kept (ap (λ (d : Database). d.approval_requests) m.3)
Change-ApprovalsStep (Change.lease_consumed id at l m) =
    kept (ap (λ (d : Database). d.approval_requests) m.3)
Change-ApprovalsStep (Change.lease_failed id r l m) =
    kept (ap (λ (d : Database). d.approval_requests) m.3)
Change-ApprovalsStep (Change.lease_uncertain id r l m) =
    kept (ap (λ (d : Database). d.approval_requests) m.3)
Change-ApprovalsStep (Change.code_issued i code c q) =
    kept (ap (λ (d : Database). d.approval_requests) q.written)
Change-ApprovalsStep (Change.code_redeemed i s code c q) =
    kept (ap (λ (d : Database). d.approval_requests) q.written)
Change-ApprovalsStep (Change.task_created t w) = kept (ap (λ (d : Database). d.approval_requests) w)
Change-ApprovalsStep (Change.task_moved id from f t m) =
    kept (ap (λ (d : Database). d.approval_requests) m.3)
Change-ApprovalsStep (Change.artifact_added input at added) =
    kept (ap (λ (d : Database). d.approval_requests) added.written)
Change-ApprovalsStep (Change.artifact_decided id f r leaves (_, _, _, w)) =
    kept (ap (λ (d : Database). d.approval_requests) w)
Change-ApprovalsStep (Change.review_added platform row now artifact reviewed) =
    kept (ap (λ (d : Database). d.approval_requests) reviewed.written)
Change-ApprovalsStep (Change.audit_appended e w) =
    kept (ap (λ (d : Database). d.approval_requests) w)
Change-ApprovalsStep (Change.migrated i r c f g q) =
    withdrawn q.none_refused (ap (λ (d : Database). d.approval_requests) q.written)

pub decided-id :
    (reason : Option ApprovalStaleReason) (status : ApprovalStatus) (by : Uuid) (at : Date)
    (r : ApprovalRequest)
    → (decided reason status by at r).id ≡ r.id
unfolding decided
decided-id reason status by at r = ground arith

-- The request with this id, which is denied or stale.
pub record Settled (id : Uuid) (approval : ApprovalRequest) (xs : List ApprovalRequest)
    : Type 0 where
  pub row : find_row (λ r. r.id == id) xs ≡ some approval
  pub inactive : is_active approval ≡ false

not_pending : (id : Uuid) (a : ApprovalRequest) → is_active a ≡ false → pending_with id a ≡ false
unfolding is_active
not_pending id a h = ground arith

ApprovalsStep-Settled :
    {id : Uuid} {approval : ApprovalRequest} {xs ys : List ApprovalRequest}
    → ApprovalsStep xs ys
    → Settled id approval xs
    → Settled id approval ys
ApprovalsStep-Settled (kept w) b = record { row = rw w b.row; inactive = b.inactive }
ApprovalsStep-Settled {id} {xs} (requested new fresh _ _ w) b = record {
  row = rw w (frozen-cons (λ (r : ApprovalRequest). r.id) id new xs b.row fresh);
  inactive = b.inactive;
}
ApprovalsStep-Settled {id} {approval} {xs} (decision i reason status by at _ w) b = record {
  row = rw w (
      frozen-update _ _ (decided reason status by at) xs
        (λ r. rw (decided-id reason status by at r) refl) b.row
        (not_pending i approval b.inactive));
  inactive = b.inactive;
}
ApprovalsStep-Settled {xs} (withdrawn _ w) b = record {
  row = rw w (frozen-update _ _ staled xs (λ r. unfold staled in refl) b.row b.inactive);
  inactive = b.inactive;
}

-- An approval request that is denied or stale never changes again, whatever the requests.
pub run-Settled :
    (id : Uuid) (approval : ApprovalRequest) (actions : List Action) (db : Database)
    → Settled id approval db.approval_requests
    → Settled id approval (run actions db).approval_requests
run-Settled id approval actions db =
    run_keeps (λ d. Settled id approval d.approval_requests)
      (λ a d. ApprovalsStep-Settled (Change-ApprovalsStep (perform-Change a d))) actions db
