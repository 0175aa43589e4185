-- ===== src/System/Requests/Active.antt =====
-- The pending and approved requests of one review (packages/approvals/src/repository.ts).
use remote_agent_devbox.Common.{
  ℕ, ◌≤◌, ◌≡◌, true, false, Bool, Option, List, ◌∷◌, ◌==◌, ◌&&◌, string_eq, exists, update, select,
  length, arith, inl, inr, Bool-cases, select-update-le, select_none, length-select-cons,
  length-select-cons_miss, eq_of_==, exists_false-All,
}
use remote_agent_devbox.Schema.Workspace.{Uuid, Date}
use remote_agent_devbox.Schema.Approval.{
  ApprovalRequest, ApprovalStatus, ApprovalStaleReason, approval_status_eq,
}
use remote_agent_devbox.Schema.Database.{Database}
use remote_agent_devbox.Approvals.{is_active, decided, pending_with}
use remote_agent_devbox.SecurityMigration.{staled}
use remote_agent_devbox.System.{Action, run, run_keeps}
use remote_agent_devbox.System.Change.{perform-Change}
use remote_agent_devbox.System.Requests.{
  ApprovalsStep, kept, requested, decision, withdrawn, Change-ApprovalsStep,
}

-- A request for this review that is pending or approved.
abbrev pub active_for : Uuid → ApprovalRequest → Bool
active_for review r = r.review_snapshot_id == review && is_active r

-- The number of active requests for a review.
unfoldable pub active_requests : Uuid → List ApprovalRequest → ℕ
active_requests review xs = length (select (active_for review) xs)

active_requests-update :
    (review : Uuid) (p : ApprovalRequest → Bool) (f : ApprovalRequest → ApprovalRequest)
    (xs : List ApprovalRequest)
    → ((r : ApprovalRequest)
        → p r ≡ true
        → active_for review (f r) ≡ true
        → active_for review r ≡ true)
    → active_requests review xs ≤ 1
    → active_requests review (update p f xs) ≤ 1
unfolding active_requests
active_requests-update review p f xs shrink h =
    omega (arith, select-update-le (active_for review) p f shrink xs)

active_requests-request :
    (review : Uuid) (new : ApprovalRequest) (xs : List ApprovalRequest)
    → exists (active_for new.review_snapshot_id) xs ≡ false
    → active_requests review xs ≤ 1
    → active_requests review (new ∷ xs) ≤ 1
unfolding active_requests
active_requests-request review new xs fresh h =
    elim (Bool-cases (new.review_snapshot_id == review)) [
      | inl hit ↦
          let gone : length (select (active_for review) xs) ≡ 0 =
            rw (← eq_of_== new.review_snapshot_id review hit)
              (select_none _ xs (exists_false-All _ xs fresh)) in
          omega (arith, length-select-cons (active_for review) new xs)
      | inr miss ↦ rw (length-select-cons_miss (active_for review) new xs (ground arith)) h
    ]

decided-review :
    (reason : Option ApprovalStaleReason) (status : ApprovalStatus) (by : Uuid) (at : Date)
    (r : ApprovalRequest)
    → (decided reason status by at r).review_snapshot_id ≡ r.review_snapshot_id
unfolding decided
decided-review reason status by at r = ground arith

was_active :
    (review id : Uuid) (reason : Option ApprovalStaleReason) (status : ApprovalStatus) (by : Uuid)
    (at : Date) (r : ApprovalRequest)
    → pending_with id r ≡ true
    → active_for review (decided reason status by at r) ≡ true
    → active_for review r ≡ true
unfolding is_active
was_active review id reason status by at r pending active =
    let same = decided-review reason status by at r in ground arith

was_staled :
    (review : Uuid) (r : ApprovalRequest)
    → is_active r ≡ true
    → active_for review (staled r) ≡ true
    → active_for review r ≡ true
unfolding staled
was_staled review r active after = ground arith

ApprovalsStep-active_requests :
    {xs ys : List ApprovalRequest} (review : Uuid)
    → ApprovalsStep xs ys
    → active_requests review xs ≤ 1
    → active_requests review ys ≤ 1
ApprovalsStep-active_requests review (kept w) h = rw w h
ApprovalsStep-active_requests {xs} review (requested new _ single _ w) h =
    rw w (active_requests-request review new xs single h)
ApprovalsStep-active_requests {xs} review (decision id reason status by at _ w) h = rw w (
    active_requests-update review (pending_with id) (decided reason status by at) xs
      (was_active review id reason status by at) h)
ApprovalsStep-active_requests {xs} review (withdrawn _ w) h =
    rw w (active_requests-update review is_active staled xs (was_staled review) h)

-- Where a review has at most one approval request that is pending or approved, it has at most one
-- after any requests.
pub run-active_requests :
    (review : Uuid) (actions : List Action) (db : Database)
    → active_requests review db.approval_requests ≤ 1
    → active_requests review (run actions db).approval_requests ≤ 1
run-active_requests review actions db =
    run_keeps (λ d. active_requests review d.approval_requests ≤ 1)
      (λ a d. ApprovalsStep-active_requests review (Change-ApprovalsStep (perform-Change a d)))
      actions db
