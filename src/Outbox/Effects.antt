-- ===== src/Outbox/Effects.antt =====
-- What the operations on the outbox do to the database, on every branch.
use remote_agent_devbox.Common.{
  ℕ, ◌+◌, ◌≡◌, refl, false, Option, none, some, ◌∷◌, ◌==◌, string_eq, find_row, select, exists,
  update, returning, length, String, arith, Ensures, on_gets, on_required, on_assert, on_modify,
  end_pure, end_transaction, update-none, returning-none, returning-some,
}
use remote_agent_devbox.Schema.Workspace.{Uuid, Date, Workspace, DesiredWorkspaceState}
use remote_agent_devbox.Schema.Outbox.{OutboxCommand, OutboxCommandState, outbox_state_eq}
use remote_agent_devbox.Schema.Database.{Database}
use remote_agent_devbox.Outbox.{
  new_command, request_body, request_workspace_state, is_due, oldest, claimed, pending_with,
  claim_candidate, claim_next, processing_with, finish, mark_succeeded, failed_with, mark_failed,
  is_stale, recover_stale,
}

abbrev pub desired_next : DesiredWorkspaceState → ℕ → Workspace → Workspace
desired_next desired version w = record w { desired_state = desired; state_version = version + 1 }

-- The intent is written to the workspace, and a command for it stands in the outbox.
pub record Requested (id workspace_id : Uuid) (desired : DesiredWorkspaceState) (at : Date)
    (db : Database) (result : Workspace × OutboxCommand) (db' : Database) (current : Workspace)
    : Type 0 where
  pub workspace_row : find_row (λ w. w.id == workspace_id) db.workspaces ≡ some current
  pub workspace : result.0 ≡ desired_next desired current.state_version current
  pub command : result.1 ≡ new_command id workspace_id current.observed_state desired at
  pub fresh : exists (λ (c : OutboxCommand). c.id == id) db.outbox_commands ≡ false
  pub written : db' ≡ record db {
    workspaces =
        update
          (λ w. w.id == workspace_id)
          (desired_next desired current.state_version)
          db.workspaces;
    outbox_commands = result.1 ∷ db.outbox_commands;
  }

request_body-Requested :
    (id workspace_id : Uuid) (desired : DesiredWorkspaceState) (at : Date) (db : Database)
    → Ensures
        (λ result db'. (w : Workspace) × Requested id workspace_id desired at db result db' w)
        (λ _ _. Unit)
        (request_body id workspace_id desired at)
        db
unfolding request_body
request_body-Requested id workspace_id desired at db = on_gets _ _ (
    on_required _ _ _ (λ _. tt)
      λ current ec. on_modify _ _ (
        on_gets _ _ (
          on_assert _ _ _ (λ _. tt)
            λ accepted. on_modify _ _ (
              end_pure _ (
                current,
                record {
                  workspace_row = ec;
                  workspace = refl;
                  command = refl;
                  fresh = ground arith;
                  written = refl;
                },
              )))))

-- Requesting a state of a workspace writes the workspace with its next version and appends one
-- command for it, together; when it throws, nothing has changed.
pub request_workspace_state-Requested :
    (id workspace_id : Uuid) (desired : DesiredWorkspaceState) (at : Date) (db : Database)
    → Ensures
        (λ result db'. (w : Workspace) × Requested id workspace_id desired at db result db' w)
        (λ _ db'. db' ≡ db)
        (request_workspace_state id workspace_id desired at)
        db
unfolding request_workspace_state
request_workspace_state-Requested id workspace_id desired at db =
    end_transaction _ _ (λ _. refl) (request_body-Requested id workspace_id desired at db)

-- One command in PROCESSING is written by `set`.
abbrev pub Finished : Uuid → (OutboxCommand → OutboxCommand) → Database → Database → Type 0
Finished id set db db' =
    (c : OutboxCommand) × (find_row (processing_with id) db.outbox_commands ≡ some c)
    × (db' ≡ record db { outbox_commands = update (processing_with id) set db.outbox_commands })

finish-Finished :
    (id : Uuid) (set : OutboxCommand → OutboxCommand) (db : Database)
    → Ensures (λ _ db'. Finished id set db db') (λ _ db'. db' ≡ db) (finish id set) db
unfolding finish
finish-Finished id set db = on_gets _ _ (
    on_modify _ _ (
      on_required _ _ _
        (λ missed. rw (update-none _ set db.outbox_commands (returning-none _ set _ missed)) refl)
        λ y found.
          let (x, ex, ey) = returning-some _ set db.outbox_commands found in
          end_pure _ (x, ex, refl)))

abbrev pub succeeded : Date → OutboxCommand → OutboxCommand
succeeded at c = record c {
  state = OutboxCommandState.succeeded;
  processed_at = some at;
  last_error = none;
}

pub mark_succeeded-Finished :
    (id : Uuid) (at : Date) (db : Database)
    → Ensures
        (λ _ db'. Finished id (succeeded at) db db')
        (λ _ db'. db' ≡ db)
        (mark_succeeded id at)
        db
unfolding mark_succeeded
mark_succeeded-Finished id at db = finish-Finished id (succeeded at) db

pub mark_failed-Finished :
    (id : Uuid) (error : String) (retry_at : Option Date) (at : Date) (db : Database)
    → Ensures
        (λ _ db'. Finished id (failed_with error retry_at at) db db')
        (λ _ db'. db' ≡ db)
        (mark_failed id error retry_at at)
        db
unfolding mark_failed
mark_failed-Finished id error retry_at at db = finish-Finished id (failed_with error retry_at at) db

-- Nothing is due, or the oldest due command is claimed.
pub data Claimed (now : Date) (db : Database) (row : Option OutboxCommand) (db' : Database)
    : Type 0 where
  idle :
      oldest (select (is_due now) db.outbox_commands) ≡ none
      → row ≡ none
      → db' ≡ db
      → Claimed now db row db'
  one :
      (c : OutboxCommand)
      → oldest (select (is_due now) db.outbox_commands) ≡ some c
      → row ≡ returning (pending_with c.id) claimed db.outbox_commands
      → db' ≡ record db { outbox_commands = update (pending_with c.id) claimed db.outbox_commands }
      → Claimed now db row db'

claim_candidate-Claimed :
    (now : Date) (db : Database) (o : Option OutboxCommand)
    → oldest (select (is_due now) db.outbox_commands) ≡ o
    → Ensures (Claimed now db) (λ _ _. ⊥) (claim_candidate o) db
unfolding claim_candidate
claim_candidate-Claimed now db none e = end_pure _ (idle e refl refl)
claim_candidate-Claimed now db (some c) e =
    on_gets _ _ (on_modify _ _ (end_pure _ (one c e refl refl)))

-- Claiming a command never throws: it claims the command that is due and was created first, which
-- was pending and is now being processed with one more attempt, or none where no command is due.
pub claim_next-Claimed :
    (now : Date) (db : Database) → Ensures (Claimed now db) (λ _ _. ⊥) (claim_next now) db
unfolding claim_next
claim_next-Claimed now db = on_gets _ _ (claim_candidate-Claimed now db _ refl)

abbrev pub recovered : Date → OutboxCommand → OutboxCommand
recovered available_at c = record c {
  state = OutboxCommandState.pending;
  available_at = available_at;
  last_error = some "Recovered stale processing claim";
}

pub recover_stale_effect :
    (stale_before available_at : Date) (db : Database)
    → Ensures
        (λ n db'.
          (n ≡ length (select (is_stale stale_before) db.outbox_commands))
          × (db' ≡ record db {
            outbox_commands =
                update (is_stale stale_before) (recovered available_at) db.outbox_commands;
          }))
        (λ _ _. ⊥)
        (recover_stale stale_before available_at)
        db
unfolding recover_stale
recover_stale_effect stale_before available_at db =
    on_gets _ _ (on_modify _ _ (end_pure _ (refl, refl)))
