-- ===== src/Approvals/Effects.antt =====
-- What the operations on approvals do to the database, on every branch.
use remote_agent_devbox.Common.{
  ◌≡◌, refl, true, some, ◌∷◌, ◌==◌, string_eq, nat_eq, find_row, Swapped, arith, Ensures, on_gets,
  on_required, on_required_where, on_assert, on_modify, end_pure, end_transaction, end_swap,
  Ensures-weaken,
}
use remote_agent_devbox.Schema.Workspace.{Uuid, Date}
use remote_agent_devbox.Schema.Security.{InstanceSecurityMetadata}
use remote_agent_devbox.Schema.Artifact.{ReviewSnapshot}
use remote_agent_devbox.Schema.Approval.{ApprovalRequest, ApprovalStatus, approval_status_eq}
use remote_agent_devbox.Schema.Database.{Database}
use remote_agent_devbox.Approvals.{
  NewApprovalRequest, new_row, approval_requests_accepts, metadata_matches, approval_matches_review,
  create_bound_body, create_bound, get, stale_reason_at, decided, pending_with, decide_body, decide,
}

-- A request is created for a review and a security context that it agrees with, as pending.
pub record Requested (input : NewApprovalRequest) (db : Database) (approval : ApprovalRequest)
    (db' : Database) (review : ReviewSnapshot) (metadata : InstanceSecurityMetadata) : Type 0 where
  pub metadata_row : db.metadata ≡ some metadata
  pub metadata_agrees : metadata_matches input metadata ≡ true
  pub review_row :
      find_row (λ r. r.id == input.review_snapshot_id) db.review_snapshots ≡ some review
  pub review_agrees : approval_matches_review input review ≡ true
  pub approval_row : approval ≡ new_row input
  pub accepted : approval_requests_accepts db approval ≡ true
  pub written : db' ≡ record db { approval_requests = approval ∷ db.approval_requests }

create_bound_body-Requested :
    (input : NewApprovalRequest) (db : Database)
    → Ensures
        (λ approval db'.
          (r : ReviewSnapshot) × (m : InstanceSecurityMetadata) × Requested input db approval db' r
            m)
        (λ _ _. Unit)
        (create_bound_body input)
        db
unfolding create_bound_body
create_bound_body-Requested input db = on_gets _ _ (
    on_required_where _ _ _ _ tt λ m em pm. on_gets _ _ (
      on_required_where _ _ _ _ tt λ r er pr. on_gets _ _ (
        on_assert _ _ _ (λ _. tt)
          λ accepted. on_modify _ _ (
            end_pure _ (
              r,
              m,
              record {
                metadata_row = em;
                metadata_agrees = pm;
                review_row = er;
                review_agrees = pr;
                approval_row = refl;
                accepted = accepted;
                written = refl;
              },
            )))))

-- An approval request is created only where the instance's metadata and the review agree with what
-- it names and the review has no other active request; it is new and pending, and its row is the
-- only change. When it throws, nothing has changed.
pub create_bound-Requested :
    (input : NewApprovalRequest) (db : Database)
    → Ensures
        (λ approval db'.
          (r : ReviewSnapshot) × (m : InstanceSecurityMetadata) × Requested input db approval db' r
            m)
        (λ _ db'. db' ≡ db)
        (create_bound input)
        db
unfolding create_bound
create_bound-Requested input db =
    end_transaction _ _ (λ _. refl) (create_bound_body-Requested input db)

-- A pending request is decided: as asked for, or as stale for a reason that holds at that time.
pub record Decided (id : Uuid) (decision : ApprovalStatus) (by : Uuid) (at : Date) (db : Database)
    (approval : ApprovalRequest) (db' : Database) (old : ApprovalRequest) : Type 0 where
  pub old_row : get id db ≡ some old
  pub was_pending : old.status ≡ ApprovalStatus.pending
  pub swapped :
      Swapped
        (λ d. d.approval_requests)
        (λ rows d. record d { approval_requests = rows })
        (pending_with id)
        (decided (stale_reason_at at old db) decision by at)
        db
        approval
        db'

decide_body-Decided :
    (id : Uuid) (decision : ApprovalStatus) (by : Uuid) (at : Date) (db : Database)
    → Ensures
        (λ approval db'. (old : ApprovalRequest) × Decided id decision by at db approval db' old)
        (λ _ _. Unit)
        (decide_body id decision by at)
        db
unfolding decide_body
decide_body-Decided id decision by at db = on_gets _ _ (
    on_required _ _ _ (λ _. tt)
      λ old eo.
        on_assert _ _ _ (λ _. tt)
          λ pending. on_gets _ _ (
            Ensures-weaken _ _
              (λ _ _ q. (old, record { old_row = eo; was_pending = ground arith; swapped = q }))
              (λ _ _ _. tt)
              (end_swap (λ d. d.approval_requests) (λ rows d. record d { approval_requests = rows })
                (λ _. refl) _ _ _ db)))

-- A decision is made only on a request that is pending; it writes that request alone, with the
-- decision or, where the request has expired or its security context or review has changed, as
-- stale. When it throws, nothing has changed.
pub decide-Decided :
    (id : Uuid) (decision : ApprovalStatus) (by : Uuid) (at : Date) (db : Database)
    → Ensures
        (λ approval db'. (old : ApprovalRequest) × Decided id decision by at db approval db' old)
        (λ _ db'. db' ≡ db)
        (decide id decision by at)
        db
unfolding decide
decide-Decided id decision by at db =
    end_transaction _ _ (λ _. refl) (decide_body-Decided id decision by at db)
