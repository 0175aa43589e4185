-- ===== src/Audit/Effects.antt =====
-- What the operations on audit events do to the database, on every branch.
use remote_agent_devbox.Common.{
  ◌≡◌, refl, true, ◌∷◌, Ensures, on_gets, on_assert, on_modify, end_pure, Ensures-weaken,
}
use remote_agent_devbox.Schema.Audit.{NewAuditEvent}
use remote_agent_devbox.Schema.Database.{Database}
use remote_agent_devbox.Audit.{is_event_type, accepts_details, insert_event, append}

pub insert_event_effect :
    (input : NewAuditEvent) (db : Database)
    → Ensures
        (λ e db'. db' ≡ record db { audit_events = e ∷ db.audit_events })
        (λ _ db'. db' ≡ db)
        (insert_event input)
        db
unfolding insert_event
insert_event_effect input db =
    on_gets _ _
      (on_assert _ _ _ (λ _. refl) λ accepted. on_gets _ _ (on_modify _ _ (end_pure _ refl)))

-- Only an event whose type and details the schemas accept is appended.
pub append_effect :
    (input : NewAuditEvent) (db : Database)
    → Ensures
        (λ e db'.
          (is_event_type input.event_type ≡ true)
          × (accepts_details input.details ≡ true)
          × (db' ≡ record db { audit_events = e ∷ db.audit_events }))
        (λ _ db'. db' ≡ db)
        (append input)
        db
unfolding append
append_effect input db =
    on_assert _ _ _ (λ _. refl)
      λ typed.
        on_assert _ _ _ (λ _. refl)
          λ detailed.
            Ensures-weaken _ _ (λ _ _ w. (typed, detailed, w)) (λ _ _ x. x)
              (insert_event_effect input db)
