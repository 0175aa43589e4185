-- ===== src/System/Requests/Checked.antt =====
-- The constraints of the table of approval requests, and the requests that are approved
-- (packages/approvals/migrations/0001_approval_requests.sql).
use remote_agent_devbox.Common.{
  Bool, ◌⊎◌, inl, inr, ◌≡◌, refl, true, false, Option, none, some, List, [], ◌∷◌, ◌==◌, string_eq,
  exists, find_row, update, arith, frozen-update, frozen-cons, Bool-cases, All, All_at_row,
  exists_false-All,
}
use remote_agent_devbox.Schema.Workspace.{Uuid, Date}
use remote_agent_devbox.Schema.Approval.{
  ApprovalRequest, ApprovalStatus, ApprovalStaleReason, approval_status_eq,
}
use remote_agent_devbox.Schema.Database.{Database}
use remote_agent_devbox.Approvals.{is_active, meets_checks, decided, pending_with}
use remote_agent_devbox.SecurityMigration.{staled, is_refused}
use remote_agent_devbox.System.{Action, run, run_keeps}
use remote_agent_devbox.System.Change.{perform-Change}
use remote_agent_devbox.System.Requests.{
  ApprovalsStep, kept, requested, decision, withdrawn, Change-ApprovalsStep, decided-id,
}

-- The rows of the table meet its constraints.
abbrev pub Checked : List ApprovalRequest → Type 0
Checked xs = All (λ a. meets_checks a ≡ true) xs

-- The request with these columns.
abbrev with_columns : ApprovalStatus → Option Uuid → Option Date → ApprovalRequest → ApprovalRequest
with_columns s by at a = record a { status = s; decided_by = by; decided_at = at }

refused_columns :
    (s : ApprovalStatus) (by : Option Uuid) (at : Option Date) (a : ApprovalRequest)
    → is_active (with_columns s by at a) ≡ true
    → meets_checks (with_columns s by at a) ≡ true
    → is_refused (with_columns s by at a) ≡ true
unfolding is_refused meets_checks staled is_active approval_status_eq
refused_columns ApprovalStatus.pending none none a active h = refl
refused_columns ApprovalStatus.pending none (some at) a active h = ground (arith, h)
refused_columns ApprovalStatus.pending (some by) none a active h = ground (arith, h)
refused_columns ApprovalStatus.pending (some by) (some at) a active h = ground (arith, h)
refused_columns ApprovalStatus.approved none none a active h = ground (arith, h)
refused_columns ApprovalStatus.approved none (some at) a active h = ground (arith, h)
refused_columns ApprovalStatus.approved (some by) none a active h = ground (arith, h)
refused_columns ApprovalStatus.approved (some by) (some at) a active h = refl
refused_columns ApprovalStatus.denied by at a active h = ground (arith, active)
refused_columns ApprovalStatus.stale by at a active h = ground (arith, active)

-- A request that is active and meets the constraints does not meet them once the migration has
-- made it stale.
active_is_refused :
    (a : ApprovalRequest) → is_active a ≡ true → meets_checks a ≡ true → is_refused a ≡ true
active_is_refused a active h = refused_columns a.status a.decided_by a.decided_at a active h

decided_meets :
    (reason : Option ApprovalStaleReason) (status : ApprovalStatus) (by : Uuid) (at : Date)
    (a : ApprovalRequest)
    → (status ≡ ApprovalStatus.approved) ⊎ (status ≡ ApprovalStatus.denied)
    → meets_checks (decided reason status by at a) ≡ true
unfolding decided meets_checks
decided_meets (some reason) status by at a f = refl
decided_meets none status by at a (inl e) = rw e refl
decided_meets none status by at a (inr e) = rw e refl

update-Checked :
    (p : ApprovalRequest → Bool) (f : ApprovalRequest → ApprovalRequest) (xs : List ApprovalRequest)
    → All (λ a. p a ≡ true → meets_checks (f a) ≡ true) xs
    → Checked xs
    → Checked (update p f xs)
unfolding update
update-Checked p f [] h c = tt
update-Checked p f (x ∷ xs) h c = elim (Bool-cases (p x)) [
  | inl hit ↦ rw hit (h.0 hit, update-Checked p f xs h.1 c.1)
  | inr miss ↦ rw miss (c.0, update-Checked p f xs h.1 c.1)
]

allowed_meets :
    (a : ApprovalRequest)
    → is_refused a ≡ false
    → is_active a ≡ true
    → meets_checks (staled a) ≡ true
unfolding is_refused
allowed_meets a h active = ground arith

always :
    {P : ApprovalRequest → Type 0}
    → ((a : ApprovalRequest) → P a)
    → (xs : List ApprovalRequest) → All P xs
always h [] = tt
always h (x ∷ xs) = (h x, always h xs)

-- The constraints hold, and the request with this id is there, approved.
pub record Approved (id : Uuid) (a : ApprovalRequest) (xs : List ApprovalRequest) : Type 0 where
  pub checked : Checked xs
  pub row : find_row (λ r. r.id == id) xs ≡ some a
  pub approved : a.status ≡ ApprovalStatus.approved

approved_is_active : (a : ApprovalRequest) → a.status ≡ ApprovalStatus.approved → is_active a ≡ true
unfolding is_active
approved_is_active a h = rw h refl

decided_already :
    (id : Uuid) (a : ApprovalRequest)
    → a.status ≡ ApprovalStatus.approved
    → pending_with id a ≡ false
unfolding approval_status_eq
decided_already id a h = rw h (ground arith)

-- No migration is let through where an active request meets the constraints.
pub refused_row :
    (id : Uuid) (a : ApprovalRequest) (xs : List ApprovalRequest)
    → Checked xs
    → find_row (λ r. r.id == id) xs ≡ some a
    → is_active a ≡ true
    → exists is_refused xs ≡ false
    → ⊥
refused_row id a xs checked row active none_refused =
    let meets : meets_checks a ≡ true = All_at_row (λ r. meets_checks r ≡ true) _ xs checked row in
    let off : is_refused a ≡ false =
      All_at_row (λ r. is_refused r ≡ false) _ xs (exists_false-All _ xs none_refused) row in
    let on = active_is_refused a active meets in ground (arith, on, off)

ApprovalsStep-Approved :
    {id : Uuid} {a : ApprovalRequest} {xs ys : List ApprovalRequest}
    → ApprovalsStep xs ys
    → Approved id a xs
    → Approved id a ys
ApprovalsStep-Approved (kept w) h = rw w h
ApprovalsStep-Approved {id} {xs} (requested new fresh _ meets w) h = record {
  checked = rw w (meets, h.checked);
  row = rw w (frozen-cons (λ (r : ApprovalRequest). r.id) id new xs h.row fresh);
  approved = h.approved;
}
ApprovalsStep-Approved {id} {a} {xs} (decision i reason status by at f w) h = record {
  checked = rw w (
      update-Checked (pending_with i) (decided reason status by at) xs
        (always (λ r _. decided_meets reason status by at r f) xs) h.checked);
  row = rw w (
      frozen-update _ _ (decided reason status by at) xs
        (λ r. rw (decided-id reason status by at r) refl) h.row (decided_already i a h.approved));
  approved = h.approved;
}
ApprovalsStep-Approved {id} {a} {xs} (withdrawn none_refused w) h =
    absurd (refused_row id a xs h.checked h.row (approved_is_active a h.approved) none_refused)

-- An approved request stays approved, whatever the requests.
pub run-Approved :
    (id : Uuid) (a : ApprovalRequest) (actions : List Action) (db : Database)
    → Approved id a db.approval_requests
    → Approved id a (run actions db).approval_requests
run-Approved id a actions db =
    run_keeps (λ d. Approved id a d.approval_requests)
      (λ act d. ApprovalsStep-Approved (Change-ApprovalsStep (perform-Change act d))) actions db
