-- ===== src/Audit.antt =====
-- packages/audit-events: the schemas of event.ts and `PostgresAuditEventRepository` of repository.ts.
-- The modules below prove.
pub mod Effects
use Prim.Native.Nat.{zero, suc, max}
use remote_agent_devbox.Common.{
  ℕ, ◌+◌, ◌-◌, min, String, Bool, true, false, not, ◌&&◌, ◌||◌, Option, none, some, List, [], ◌∷◌,
  map, length, ltb, leb, ◌==◌, string_eq, nat_eq, if◌then◌else◌, exists, Error, rad, other, Exec,
  pure, gets, modify, assert, ◌>>=◌, ◌>>◌,
}
use remote_agent_devbox.Names.{codes, every, starts_with}
use remote_agent_devbox.Schema.Audit.{AuditEvent, NewAuditEvent, AuditDetail}
use remote_agent_devbox.Schema.Database.{Database}

abbrev is_upper : ℕ → Bool
is_upper c = leb b'A' c && leb c b'Z'

starts_upper : List ℕ → Bool
starts_upper [] = false
starts_upper (c ∷ s) = is_upper c

-- /^[A-Z][A-Z0-9_]{2,127}$/
unfoldable pub is_event_type : String → Bool
unfolding starts_upper every
is_event_type s =
    let cs = codes s in
    starts_upper cs
    && every (λ c. is_upper c || (leb b'0' c && leb c b'9') || c == b'_') cs
    && leb 3 (length cs)
    && leb (length cs) 128

-- The letter without its case.
unfoldable pub lower : ℕ → ℕ
lower c = if is_upper c then c + 32 else c

unfoldable pub contains : List ℕ → List ℕ → Bool
unfolding starts_with
contains word [] = starts_with word []
contains word (c ∷ s) = starts_with word (c ∷ s) || contains word s

-- /(secret|token|password|credential|private[_-]?key)/i
unfoldable pub is_forbidden_key : String → Bool
unfolding lower contains
is_forbidden_key key =
    let cs = map lower (codes key) in
    contains (codes "secret") cs
    || contains (codes "token") cs
    || contains (codes "password") cs
    || contains (codes "credential") cs
    || contains (codes "privatekey") cs
    || contains (codes "private_key") cs
    || contains (codes "private-key") cs

-- A text has at most 2000 characters.
abbrev is_detail_value : AuditDetail → Bool
is_detail_value (AuditDetail.text s) = leb (length (codes s)) 2000
is_detail_value _ = true

abbrev is_detail_key : String → Bool
is_detail_key key =
    leb 1 (length (codes key)) && leb (length (codes key)) 100 && not (is_forbidden_key key)

-- auditDetailsSchema
unfoldable pub accepts_details : List (String × AuditDetail) → Bool
unfolding is_forbidden_key
accepts_details [] = true
accepts_details ((key, value) ∷ rest) =
    is_detail_key key && is_detail_value value && accepts_details rest

-- The number that the database gives to the next event: those of the table are below it.
unfoldable pub next_sequence : List AuditEvent → ℕ
next_sequence [] = 1
next_sequence (e ∷ es) = e.sequence + 1

-- A row of the table: `insert(auditEvents)`, with its check constraints.
unfoldable pub insert_event : NewAuditEvent → Exec Database AuditEvent
unfolding next_sequence
insert_event input = do
  accepted ← gets (λ db.
      not (exists (λ (e : AuditEvent). e.event.id == input.id) db.audit_events)
      && ltb 0 input.security_epoch
      && leb 1 input.deployment_tier
      && leb input.deployment_tier 3)
  assert accepted (other "audit_events constraint violated")
  event ← gets (λ db. record { sequence = next_sequence db.audit_events; event = input })
  modify (λ db. record db { audit_events = event ∷ db.audit_events })
  pure event

-- append
unfoldable pub append : NewAuditEvent → Exec Database AuditEvent
unfolding is_event_type accepts_details insert_event
append input = do
  assert (is_event_type input.event_type) (other "Invalid audit event type")
  assert (accepts_details input.details) (other "Invalid audit details")
  insert_event input

unfoldable pub take : ℕ → List AuditEvent → List AuditEvent
take zero es = []
take (suc n) [] = []
take (suc n) (e ∷ es) = e ∷ take n es

-- listRecent: newest first, at most 200, at least 1
unfoldable pub list_recent : ℕ → Database → List AuditEvent
unfolding take
list_recent limit db = take (max 1 (min 200 limit)) db.audit_events
