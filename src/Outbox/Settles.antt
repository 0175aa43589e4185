-- ===== src/Outbox/Settles.antt =====
-- A command after its round in the dispatcher (packages/outbox/src/dispatcher.ts), and the loop.
use mathlib.Core.Option.{some-ne-none, some-injective}
use mathlib.Core.Path.{subst}
use remote_agent_devbox.Common.{
  ◌==◌, ◌&&◌, Error, not, slice_to, ltb, min, ◌*◌, ◌^◌, if◌then◌else◌, ℕ, zero, suc, ◌+◌, ◌≤◌, ◌≡◌,
  refl, ◌⊎◌, inl, inr, Option, none, some, List, ◌∷◌, sym, find_row, update, returning, arith, Bool,
  select, Ensures-weaken, Ensures_returned, written_row, find_row_holds, returning-some, true,
  false, All, All-select, All-selected, none_exists, exists_false-All, returning-none, ==_refl,
  Bool-cases, leb, string_eq, [], message, Exec, Result, ok, err, handled, continue, ◌>>=◌, Yields,
  on_read, on_write, on_found, Yields-pure, Ensures, on_ensured, end_pure,
}
use remote_agent_devbox.Schema.Workspace.{Uuid, Date}
use remote_agent_devbox.Schema.Outbox.{OutboxCommand, OutboxCommandState, outbox_state_eq}
use remote_agent_devbox.Schema.Database.{Database}
use remote_agent_devbox.Outbox.{
  processing_with, pending_with, claimed, earlier, finish, mark_succeeded, failed_with, mark_failed,
  oldest, is_due,
}
use remote_agent_devbox.Outbox.Effects.{Claimed, idle, one, claim_next-Claimed}
use remote_agent_devbox.Outbox.Dispatcher.{
  Readings, retry_at, dispatch_command, dispatch, dispatch_claimed, dispatch_available,
}

-- The earlier one of two commands is one of them.
earlier_of :
    (P : OutboxCommand → Type 0) (x : OutboxCommand) (o : Option OutboxCommand) {c : OutboxCommand}
    → P x
    → ((d : OutboxCommand) → o ≡ some d → P d)
    → earlier x o ≡ some c
    → P c
earlier_of P x none {c} hx hd e = subst P (some-injective x c e) hx
earlier_of P x (some d) {c} hx hd e = elim (Bool-cases (leb x.created_at d.created_at)) [
  | inl first ↦ subst P (some-injective x c (rw first at e)) hx
  | inr second ↦ subst P (some-injective d c (rw second at e)) (hd d refl)
]

-- The oldest command is one of them.
All-oldest :
    (P : OutboxCommand → Type 0) (xs : List OutboxCommand) {c : OutboxCommand}
    → All P xs
    → oldest xs ≡ some c
    → P c
unfolding oldest
All-oldest P [] h e = absurd (some-ne-none _ (sym e))
All-oldest P (x ∷ xs) h e = earlier_of P x (oldest xs) h.0 (λ _ f. All-oldest P xs h.1 f) e

due_and_missing :
    (now : Date) (c : OutboxCommand) → is_due now c ≡ true → pending_with c.id c ≡ false → ⊥
unfolding is_due
due_and_missing now c due missing = let same = ==_refl c.id in ground arith

-- The command that is claimed is there.
claim_found :
    (now : Date) (xs : List OutboxCommand) (c : OutboxCommand)
    → oldest (select (is_due now) xs) ≡ some c
    → returning (pending_with c.id) claimed xs ≡ none
    → ⊥
claim_found now xs c e missed =
    let absent =
      exists_false-All (pending_with c.id) xs
        (none_exists _ xs (returning-none (pending_with c.id) claimed xs missed)) in
    due_and_missing now c (All-oldest (λ x. is_due now x ≡ true) _ (All-selected (is_due now) xs) e)
      (All-oldest (λ x. pending_with c.id x ≡ false) _ (All-select _ (is_due now) xs absent) e)

returning_found :
    (p : OutboxCommand → Bool) (f : OutboxCommand → OutboxCommand) (xs : List OutboxCommand)
    {c : OutboxCommand}
    → find_row p xs ≡ some c
    → returning p f xs ≡ some (f c)
unfolding returning
returning_found p f xs h = rw h refl

finish_runs :
    (id : Uuid) (set : OutboxCommand → OutboxCommand) (db : Database) {c : OutboxCommand}
    → find_row (processing_with id) db.outbox_commands ≡ some c
    → Yields
        (finish id set)
        db
        tt
        (record db { outbox_commands = update (processing_with id) set db.outbox_commands })
unfolding finish
finish_runs id set db h = on_read _ _ (
    on_write _ _ (
      on_found _ _ _ (returning_found (processing_with id) set db.outbox_commands h)
        (Yields-pure _ _)))

-- The command is due again: two seconds after its first attempt, then after twice as long each
-- time, but within a minute.
abbrev pub due_again : Readings → OutboxCommand → Error → OutboxCommand → OutboxCommand
due_again now command e c = record c {
  state = OutboxCommandState.pending;
  available_at = now.retry_from + min 60000 (1000 * 2 ^ command.attempts);
  processed_at = none;
  last_error = some (slice_to 2000 (message e));
}

abbrev pub given_up : Readings → Error → OutboxCommand → OutboxCommand
given_up now e c = record c {
  state = OutboxCommandState.failed;
  available_at = now.failed_at;
  processed_at = some now.failed_at;
  last_error = some (slice_to 2000 (message e));
}

abbrev pub done : Readings → OutboxCommand → OutboxCommand
done now c = record c {
  state = OutboxCommandState.succeeded;
  processed_at = some now.succeeded_at;
  last_error = none;
}

-- What becomes of a command, by how its handler ended.
abbrev pub settled_by :
    ℕ → Readings → OutboxCommand → Result (Unit {0}) → OutboxCommand → OutboxCommand
settled_by maximum_attempts now command (ok _) = done now
settled_by maximum_attempts now command (err e) =
    if ltb command.attempts maximum_attempts then due_again now command e else given_up now e

retry_cases :
    (maximum_attempts : ℕ) (now : Readings) (command : OutboxCommand) (e : Error) (spent : Bool)
    → (n : ℕ) → n ≡ 1000 * 2 ^ command.attempts
    → failed_with
        (message e)
        (if spent then none else some (now.retry_from + min 60000 n))
        now.failed_at
      ≡ (if not spent then due_again now command e else given_up now e)
unfolding failed_with
retry_cases maximum_attempts now command e true n same = refl
retry_cases maximum_attempts now command e false n same = rw same refl

failed_is_settled :
    (maximum_attempts : ℕ) (now : Readings) (command : OutboxCommand) (e : Error)
    → failed_with (message e) (retry_at maximum_attempts now.retry_from command) now.failed_at
      ≡ settled_by maximum_attempts now command (err e)
unfolding retry_at
failed_is_settled maximum_attempts now command e =
    let flip : not (leb maximum_attempts command.attempts) ≡ ltb command.attempts maximum_attempts =
      ground arith in
    rw (← flip) (
      retry_cases maximum_attempts now command e (leb maximum_attempts command.attempts)
        (2 ^ command.attempts * 1000) (omega arith))

module _ (handle : OutboxCommand → Exec Database (Unit {0})) (maximum_attempts : ℕ) (now : Readings)
    (command : OutboxCommand) where
  settles :
      (o : Result (Unit {0}) × Database) {found : OutboxCommand}
      → find_row (processing_with command.id) o.1.outbox_commands ≡ some found
      → handled
          (λ error.
            mark_failed command.id
              (message error)
              (retry_at maximum_attempts now.retry_from command)
              now.failed_at)
          (continue (λ _. mark_succeeded command.id now.succeeded_at) o)
        ≡ (
          ok tt,
          record o.1 {
            outbox_commands =
                update
                  (processing_with command.id)
                  (settled_by maximum_attempts now command o.0)
                  o.1.outbox_commands;
          },
        )
  unfolding mark_failed mark_succeeded
  settles (ok _, db) h = rw ((finish_runs command.id (done now) db h).outcome) refl
  settles (err e, db) h = rw (← failed_is_settled maximum_attempts now command e) (
      (finish_runs command.id
        (failed_with (message e) (retry_at maximum_attempts now.retry_from command) now.failed_at)
        db h).outcome)

  -- Dispatching a command that is in processing after its handler never throws: the command
  -- succeeds where the handler returned; where it threw, it is pending again, due two seconds
  -- after its first attempt and then after twice as long each time, but within a minute, or has
  -- failed once it has had its attempts; no command with another id is written.
  pub dispatch_command_settles :
      (db : Database) {found : OutboxCommand}
      → find_row
          (λ c. c.id == command.id && c.state == OutboxCommandState.processing)
          (handle command db).1.outbox_commands
        ≡ some found
      → dispatch_command handle maximum_attempts now command db ≡ (
        ok tt,
        record (handle command db).1 {
          outbox_commands =
              update
                (λ c. c.id == command.id && c.state == OutboxCommandState.processing)
                (settled_by maximum_attempts now command (handle command db).0)
                (handle command db).1.outbox_commands;
        },
      )
  unfolding dispatch_command ◌>>=◌
  dispatch_command_settles db h = settles (handle command db) h

-- A command that has just been claimed is in processing.
claimed_row :
    (xs : List OutboxCommand) (c d : OutboxCommand)
    → some d ≡ returning (pending_with c.id) claimed xs
    → (y : OutboxCommand) × (find_row (processing_with d.id) (update (pending_with c.id) claimed xs)
        ≡ some y)
unfolding claimed outbox_state_eq
claimed_row xs c d e =
    let (x, found, made) = returning-some (pending_with c.id) claimed xs (sym e) in
    let hit = find_row_holds (pending_with c.id) xs found in
    let same : d.id ≡ c.id = ground (arith, made, hit) in
    rw same (written_row _ _ claimed xs (λ y h. ground (arith, h)) found)

-- Nothing was due when the dispatcher stopped before its limit.
abbrev pub Drained : (ℕ → Readings) → ℕ → ℕ → ℕ → Database → Type 0
Drained now start rounds n db =
    (n ≡ start + rounds)
    ⊎ ((n ≤ start + rounds)
        × (oldest (select (is_due (now n).claimed_at) db.outbox_commands) ≡ none))

further :
    (now : ℕ → Readings) (rounds processed n : ℕ) (db : Database)
    → Drained now (processed + 1) rounds n db
    → Drained now processed (suc rounds) n db
further now rounds processed n db (inl e) = inl (omega arith)
further now rounds processed n db (inr (le, e)) = inr (omega arith, e)

module _ (handle : OutboxCommand → Exec Database (Unit {0})) (maximum_attempts : ℕ)
    (keeps : (c : OutboxCommand) (d : Database)
      → (handle c d).1.outbox_commands ≡ d.outbox_commands)
    (now : ℕ → Readings) where
  after :
      (rounds processed : ℕ) (next : Exec Database ℕ) (row : Option OutboxCommand) (db t : Database)
      → ((d : Database) → Ensures (Drained now (processed + 1) rounds) (λ _ _. ⊥) next d)
      → Claimed (now processed).claimed_at db row t
      → Ensures
          (Drained now processed (suc rounds))
          (λ _ _. ⊥)
          (dispatch_claimed handle maximum_attempts (now processed) next processed row)
          t
  unfolding dispatch_claimed
  after rounds processed next none db t rest (idle e r w) = end_pure _ (inr (omega arith, rw w e))
  after rounds processed next (some c) db t rest (idle e r w) = absurd (some-ne-none c r)
  after rounds processed next none db t rest (one c e r w) =
      absurd (claim_found (now processed).claimed_at db.outbox_commands c e (sym r))
  after rounds processed next (some c) db t rest (one d e r w) =
      let (y, found) = claimed_row db.outbox_commands d c r in
      let there : find_row (processing_with c.id) (handle c t).1.outbox_commands ≡ some y =
        rw (keeps c t, w) found in
      on_ensured _ _ (λ _ _. Unit {0}) (λ _ _. ⊥)
        (Ensures_returned _ t
          (dispatch_command_settles handle maximum_attempts (now processed) c t there) tt)
        (λ _ _ h. absurd h)
        λ _ u _.
          Ensures-weaken _ _ (λ n v h. further now rounds processed n v h) (λ _ _ x. x) (rest u)

  dispatch-Drained :
      (rounds processed : ℕ) (db : Database)
      → Ensures
          (Drained now processed rounds)
          (λ _ _. ⊥)
          (dispatch handle maximum_attempts now rounds processed)
          db
  unfolding dispatch
  dispatch-Drained zero processed db = end_pure _ (inl (omega arith))
  dispatch-Drained (suc rounds) processed db =
      on_ensured _ _ _ _ (claim_next-Claimed (now processed).claimed_at db) (λ _ _ h. absurd h)
        λ row t claim.
          after rounds processed _ row db t (dispatch-Drained rounds (processed + 1)) claim

  -- With a handler that leaves the outbox as it is, whether it returns or throws, the dispatcher
  -- always returns: it has processed as many commands as its limit, or at most as many and found
  -- none due.
  pub dispatch_available-Drained :
      (limit : ℕ) (db : Database)
      → Ensures
          (Drained now 0 limit)
          (λ _ _. ⊥)
          (dispatch_available handle maximum_attempts now limit)
          db
  unfolding dispatch_available
  dispatch_available-Drained limit db = dispatch-Drained limit 0 db
