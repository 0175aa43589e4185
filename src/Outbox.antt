-- ===== src/Outbox.antt =====
-- packages/outbox: `PostgresOutboxRepository` of repository.ts. The dispatcher and the proofs are in
-- the modules below.
pub mod Effects
pub mod Dispatcher
pub mod Settles
use remote_agent_devbox.Common.{
  ℕ, ◌+◌, String, ◌<>◌, Bool, true, false, not, ◌&&◌, Option, none, some, List, [], ◌∷◌, length,
  ltb, leb, ◌==◌, string_eq, if◌then◌else◌, find_row, select, exists, update, returning, Error, rad,
  other, slice_to, Exec, pure, gets, modify, required, assert, transaction, ◌>>=◌, ◌>>◌,
}
use remote_agent_devbox.Schema.Workspace.{
  Uuid, Date, Workspace, DesiredWorkspaceState, ObservedWorkspaceState, observed_eq,
}
use remote_agent_devbox.Schema.Outbox.{
  OutboxCommand, OutboxCommandType, OutboxCommandState, outbox_state_eq,
}
use remote_agent_devbox.Schema.Database.{Database}

-- commandForState
unfoldable pub command_for_state :
    ObservedWorkspaceState → DesiredWorkspaceState → OutboxCommandType
unfolding observed_eq
command_for_state observed DesiredWorkspaceState.running =
    if observed == ObservedWorkspaceState.missing
    then OutboxCommandType.provision
    else OutboxCommandType.start
command_for_state observed DesiredWorkspaceState.suspended = OutboxCommandType.suspend
command_for_state observed DesiredWorkspaceState.stopped = OutboxCommandType.stop
command_for_state observed DesiredWorkspaceState.destroyed = OutboxCommandType.destroy

-- The row of the command that `requestWorkspaceState` inserts; `id` is `randomUUID()`.
unfoldable pub new_command :
    Uuid → Uuid → ObservedWorkspaceState → DesiredWorkspaceState → Date → OutboxCommand
unfolding command_for_state
new_command id workspace_id observed desired requested_at = record {
  id = id;
  aggregate_id = workspace_id;
  command_type = command_for_state observed desired;
  payload = desired;
  state = OutboxCommandState.pending;
  attempts = 0;
  last_error = none;
  created_at = requested_at;
  available_at = requested_at;
  processed_at = none;
}

request_body :
    Uuid → Uuid → DesiredWorkspaceState → Date → Exec Database (Workspace × OutboxCommand)
request_body id workspace_id desired requested_at = do
  row ← gets (λ db. find_row (λ w. w.id == workspace_id) db.workspaces)
  current ← required row (rad "WORKSPACE_NOT_FOUND" ("Workspace " <> workspace_id <> " not found"))
  let set = λ (w : Workspace). record w {
    desired_state = desired;
    state_version = current.state_version + 1;
  }
  modify (λ db. record db { workspaces = update (λ w. w.id == workspace_id) set db.workspaces })
  let command = new_command id workspace_id current.observed_state desired requested_at
  accepted ← gets (λ db. not (exists (λ c. c.id == id) db.outbox_commands))
  assert accepted (other "outbox_commands constraint violated")
  modify (λ db. record db { outbox_commands = command ∷ db.outbox_commands })
  pure (set current, command)

unfoldable pub request_workspace_state :
    Uuid → Uuid → DesiredWorkspaceState → Date → Exec Database (Workspace × OutboxCommand)
unfolding request_body new_command transaction
request_workspace_state id workspace_id desired requested_at =
    transaction (request_body id workspace_id desired requested_at)

-- WHERE state = 'PENDING' AND available_at <= now
unfoldable pub is_due : Date → OutboxCommand → Bool
unfolding outbox_state_eq
is_due now c = c.state == OutboxCommandState.pending && leb c.available_at now

abbrev earlier : OutboxCommand → Option OutboxCommand → Option OutboxCommand
earlier c none = some c
earlier c (some d) = if leb c.created_at d.created_at then some c else some d

-- ORDER BY created_at LIMIT 1
unfoldable pub oldest : List OutboxCommand → Option OutboxCommand
oldest [] = none
oldest (c ∷ cs) = earlier c (oldest cs)

-- `set({ state: "PROCESSING", attempts: attempts + 1 })`
unfoldable pub claimed : OutboxCommand → OutboxCommand
claimed c = record c { state = OutboxCommandState.processing; attempts = c.attempts + 1 }

-- UPDATE … WHERE id = id AND state = 'PENDING'
abbrev pending_with : Uuid → OutboxCommand → Bool
pending_with id c = c.id == id && c.state == OutboxCommandState.pending

-- The rest of `claimNext` for the row that was selected.
claim_candidate : Option OutboxCommand → Exec Database (Option OutboxCommand)
claim_candidate none = pure none
claim_candidate (some c) = do
  row ← gets (λ db. returning (pending_with c.id) claimed db.outbox_commands)
  modify
      (λ db. record db { outbox_commands = update (pending_with c.id) claimed db.outbox_commands })
  pure row

-- Nothing else holds a lock: `SKIP LOCKED` skips no row.
unfoldable pub claim_next : Date → Exec Database (Option OutboxCommand)
unfolding is_due oldest claimed claim_candidate outbox_state_eq
claim_next now = do
  candidate ← gets (λ db. oldest (select (is_due now) db.outbox_commands))
  claim_candidate candidate

-- UPDATE … WHERE id = id AND state = 'PROCESSING'
abbrev pub processing_with : Uuid → OutboxCommand → Bool
processing_with id c = c.id == id && c.state == OutboxCommandState.processing

finish : Uuid → (OutboxCommand → OutboxCommand) → Exec Database (Unit {0})
finish id set = do
  updated ← gets (λ db. returning (processing_with id) set db.outbox_commands)
  modify (λ db. record db { outbox_commands = update (processing_with id) set db.outbox_commands })
  required updated (rad "OUTBOX_STATE_CONFLICT" ("Command " <> id <> " is not processing"))
  pure tt

unfoldable pub mark_succeeded : Uuid → Date → Exec Database (Unit {0})
unfolding finish outbox_state_eq
mark_succeeded id processed_at = finish id (λ c. record c {
  state = OutboxCommandState.succeeded;
  processed_at = some processed_at;
  last_error = none;
})

-- Without a time for a retry the command has failed.
unfoldable pub failed_with : String → Option Date → Date → OutboxCommand → OutboxCommand
failed_with error (some retry_at) processed_at c = record c {
  state = OutboxCommandState.pending;
  available_at = retry_at;
  processed_at = none;
  last_error = some (slice_to 2000 error);
}
failed_with error none processed_at c = record c {
  state = OutboxCommandState.failed;
  available_at = processed_at;
  processed_at = some processed_at;
  last_error = some (slice_to 2000 error);
}

unfoldable pub mark_failed : Uuid → String → Option Date → Date → Exec Database (Unit {0})
unfolding finish failed_with outbox_state_eq
mark_failed id error retry_at processed_at = finish id (failed_with error retry_at processed_at)

-- WHERE state = 'PROCESSING' AND available_at <= staleBefore
unfoldable pub is_stale : Date → OutboxCommand → Bool
unfolding outbox_state_eq
is_stale stale_before c =
    c.state == OutboxCommandState.processing && leb c.available_at stale_before

unfoldable pub recover_stale : Date → Date → Exec Database ℕ
unfolding is_stale
recover_stale stale_before available_at = do
  count ← gets (λ db. length (select (is_stale stale_before) db.outbox_commands))
  modify (λ db. record db {
    outbox_commands =
        update (is_stale stale_before)
          (λ c. record c {
            state = OutboxCommandState.pending;
            available_at = available_at;
            last_error = some "Recovered stale processing claim";
          })
          db.outbox_commands;
  })
  pure count
