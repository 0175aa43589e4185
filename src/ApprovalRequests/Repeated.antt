-- ===== src/ApprovalRequests/Repeated.antt =====
-- What a request for an approval leaves behind, and that asking again returns the same.
use remote_agent_devbox.Common.{
  ◌≡◌, refl, sym, ap, ◌∙◌, false, some, none, Option, ok, ◌∷◌, string_eq, nat_eq, eq_of_==, ℕ,
  find_row_holds, find_row-cons_hit, arith, Ensures, Ensures-weaken, on_gets, on_required,
  on_assert, on_ensured, end_pure, ◌>>=◌,
}
use remote_agent_devbox.Schema.Workspace.{Uuid}
use remote_agent_devbox.Schema.Security.{InstanceSecurityMetadata}
use remote_agent_devbox.Schema.Approval.{ApprovalRequest, approval_status_eq}
use remote_agent_devbox.Schema.Database.{Database}
use remote_agent_devbox.Metadata.{assert_available}
use remote_agent_devbox.Metadata.Effects.{assert_available_effect}
use remote_agent_devbox.Artifacts.Reviews.{Platform}
use remote_agent_devbox.Artifacts.Found.{get_review_effect}
use remote_agent_devbox.Approvals.{new_row, is_active, find_active_by_review, NewApprovalRequest}
use remote_agent_devbox.Approvals.Effects.{create_bound-Requested}
use remote_agent_devbox.ApprovalRequests.{Readings, binding, existing_or_new, request}

-- The request stands as the active one of the review, and the instance is as it was.
abbrev pub Standing : Uuid → Database → ApprovalRequest → Database → Type 0
Standing review_snapshot_id db a db' =
    (find_active_by_review review_snapshot_id db' ≡ some a) × (db'.metadata ≡ db.metadata)

new_active :
    (input : NewApprovalRequest) (id : Uuid) (db : Database)
    → input.review_snapshot_id ≡ id
    → find_active_by_review id
        (record db { approval_requests = new_row input ∷ db.approval_requests })
      ≡ some (new_row input)
unfolding find_active_by_review is_active new_row approval_status_eq
new_active input id db same =
    find_row-cons_hit _ (new_row input) db.approval_requests (ground arith)

module _ (platform : Platform) (ttl_seconds : ℕ) where
  existing_or_new-Standing :
      (now : Readings) (id by : Uuid) (row : Option ApprovalRequest) (db : Database)
      → find_active_by_review id db ≡ row
      → Ensures
          (Standing id db)
          (λ _ db'. db' ≡ db)
          (existing_or_new platform ttl_seconds now id by row)
          db
  unfolding existing_or_new
  existing_or_new-Standing now id by (some a) db found = end_pure _ (found, refl)
  existing_or_new-Standing now id by none db found =
      on_ensured _ _ _ _ (get_review_effect platform id db) (λ _ _ kept. kept)
        λ review_row t (kept, same, _).
          on_required _ _ _ (λ _. kept)
            λ review er. on_gets _ _ (
              on_required _ _ _ (λ _. kept)
                λ m em.
                  on_assert _ _ _ (λ _. kept)
                    λ current.
                      Ensures-weaken _ _
                        (λ a db' (r, m', made). (
                          rw made.written (
                              rw made.approval_row (
                                new_active (binding ttl_seconds now by review) id t
                                  (eq_of_== _ _ (find_row_holds _ _ (sym same ∙ er))))),
                          rw made.written (ap (λ d. d.metadata) kept),
                        ))
                        (λ _ _ k. k ∙ kept)
                        (create_bound-Requested (binding ttl_seconds now by review) t))

  request-Standing :
      (now : Readings) (id by : Uuid) (db : Database)
      → Ensures
          (λ a db'.
            Standing id db a db'
            × ((m : InstanceSecurityMetadata) × (db.metadata ≡ some m)
                × (m.maintenance_mode ≡ false)))
          (λ _ db'. db' ≡ db)
          (request platform ttl_seconds now id by)
          db
  unfolding request
  request-Standing now id by db =
      on_ensured _ _ _ _ (assert_available_effect "Approval request" db) (λ _ _ kept. kept)
        λ m t (kept, em, open_). on_gets _ _ (
          Ensures-weaken _ _
            (λ a db' (found, stays). ((found, stays ∙ ap (λ d. d.metadata) kept), (m, em, open_)))
            (λ _ _ k. k ∙ kept) (existing_or_new-Standing now id by _ t refl))

  -- Out of maintenance and with an active request, asking returns that request.
  asks_again :
      (now : Readings) (id by : Uuid) (db : Database) (a : ApprovalRequest)
      (m : InstanceSecurityMetadata)
      → db.metadata ≡ some m
      → m.maintenance_mode ≡ false
      → find_active_by_review id db ≡ some a
      → request platform ttl_seconds now id by db ≡ (ok a, db)
  unfolding request assert_available existing_or_new ◌>>=◌
  asks_again now id by db a m em open_ found = rw (em, open_, found) refl

  -- Once asking for the approval of a review has returned, asking again in the database that is
  -- left, whoever asks and at whatever time, returns the same approval request and changes
  -- nothing. When the first request throws, nothing has changed.
  pub request-request :
      (now now' : Readings) (id by by' : Uuid) (db : Database)
      → Ensures
          (λ a db'. request platform ttl_seconds now' id by' db' ≡ (ok a, db'))
          (λ _ db'. db' ≡ db)
          (request platform ttl_seconds now id by)
          db
  request-request now now' id by by' db =
      Ensures-weaken _ _
        (λ a db' ((found, stays), (m, em, open_)).
          asks_again now' id by' db' a m (stays ∙ em) open_ found)
        (λ _ _ kept. kept) (request-Standing now id by db)
