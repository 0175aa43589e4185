-- ===== src/Tests/Access.antt =====
-- IDE access on concrete data.
use remote_agent_devbox.Common.{
  ◌≡◌, ◌≤◌, true, false, refl, some, [], ◌∷◌, ok, ◌==◌, nat_eq, string_eq, find_row, exists, update,
  select, ◌>>=◌, Ensures, arith,
}
use remote_agent_devbox.Names.{is_sha256_digest}
use remote_agent_devbox.Schema.Ide.{IdeAccessCode, IdeAccessSession}
use remote_agent_devbox.Schema.Database.{Database}
use remote_agent_devbox.IdeAccess.{
  issue_code, redeem_code, resolve_session, new_session, new_code, is_live_code, is_live_session,
}
use remote_agent_devbox.IdeAccess.Effects.{Context, Resolved, resolve_session-Resolved}
use remote_agent_devbox.IdeAccess.Grants.{Granted, GrantWritten, redeem_code-Granted}
use remote_agent_devbox.IdeAccess.Granted.{issue_redeem_resolve}
use remote_agent_devbox.System.{Action, run}
use remote_agent_devbox.System.Codes.Laws.{live_codes, run-live_codes}
use remote_agent_devbox.System.Sessions.Laws.{live_sessions, run-live_sessions}
use remote_agent_devbox.System.Once.{Refused, redeem_once, issue_replaces, redeem_revokes}
use remote_agent_devbox.Tests.Data.{
  database, code, workspace, session, metadata, code_digest, next_code_digest, session_digest,
  next_session_digest, issue_input, redeem_input,
}

abbrev redeemed : Database
redeemed = (redeem_code (redeem_input code_digest "next session") database).1

abbrev redeemed_session : IdeAccessSession
redeemed_session = new_session (redeem_input code_digest "next session") code workspace

redeem_code_run :
    redeem_code (redeem_input code_digest "next session") database ≡ (ok redeemed_session, redeemed)
unfolding redeem_code new_session ◌>>=◌ is_sha256_digest nat_eq find_row string_eq exists update
redeem_code_run = refl

redeem_once_example :
    Refused IdeAccessSession
      (redeem_code (redeem_input code_digest "third session"))
      (run (Action.issue_code issue_input ∷ []) redeemed)
redeem_once_example =
    redeem_once (redeem_input code_digest "next session") database redeem_code_run
      (Action.issue_code issue_input ∷ []) (redeem_input code_digest "third session") refl

abbrev replaced : Database
replaced = (issue_code issue_input database).1

issue_code_run :
    issue_code issue_input database ≡ (ok (new_code issue_input metadata workspace), replaced)
unfolding issue_code new_code ◌>>=◌ is_sha256_digest nat_eq find_row string_eq exists update
issue_code_run = refl

code_row : find_row (λ c. c.code_digest == code_digest) database.ide_access_codes ≡ some code
unfolding find_row string_eq
code_row = refl

session_row :
    find_row (λ s. s.session_digest == session_digest) database.ide_access_sessions ≡ some session
unfolding find_row string_eq
session_row = refl

-- The old code is offered after the new code has been redeemed.
issue_replaces_example :
    Refused IdeAccessSession
      (redeem_code (redeem_input code_digest "third session"))
      (run (Action.redeem_code (redeem_input next_code_digest "next session") ∷ []) replaced)
issue_replaces_example =
    issue_replaces issue_input database issue_code_run
      (Action.redeem_code (redeem_input next_code_digest "next session") ∷ []) code
      (redeem_input code_digest "third session") code_row refl

same_workspace : session.workspace_id ≡ redeemed_session.workspace_id
unfolding new_session
same_workspace = refl

redeem_revokes_example :
    Refused IdeAccessSession
      (resolve_session session_digest 80)
      (run (Action.issue_code issue_input ∷ []) redeemed)
redeem_revokes_example =
    redeem_revokes (redeem_input code_digest "next session") database redeem_code_run
      (Action.issue_code issue_input ∷ []) session session_digest 80 session_row same_workspace

one_code : live_codes "workspace" database.ide_access_codes ≤ 1
unfolding live_codes string_eq select is_live_code
one_code = omega arith

run-live_codes_example :
    live_codes "workspace"
      (run
        (Action.issue_code issue_input ∷ Action.issue_code issue_input ∷ [])
        database).ide_access_codes
    ≤ 1
run-live_codes_example =
    run-live_codes "workspace" (Action.issue_code issue_input ∷ Action.issue_code issue_input ∷ [])
      database one_code

one_session : live_sessions "workspace" database.ide_access_sessions ≤ 1
unfolding live_sessions string_eq select is_live_session
one_session = omega arith

run-live_sessions_example :
    live_sessions "workspace"
      (run
        (Action.redeem_code (redeem_input code_digest "next session") ∷ [])
        database).ide_access_sessions
    ≤ 1
run-live_sessions_example =
    run-live_sessions "workspace"
      (Action.redeem_code (redeem_input code_digest "next session") ∷ []) database one_session

redeem_code-Granted_example :
    Ensures
      (λ new db'.
        (old : IdeAccessCode) × (c : Context) × Granted
          (redeem_input code_digest "next session")
          database
          new
          old
          c
        × GrantWritten (redeem_input code_digest "next session") database new old db')
      (λ _ db'. db' ≡ database)
      (redeem_code (redeem_input code_digest "next session"))
      database
redeem_code-Granted_example = redeem_code-Granted (redeem_input code_digest "next session") database

resolve_session-Resolved_example :
    Ensures
      (λ found db'.
        (db' ≡ database) × ((c : Context) × Resolved session_digest 80 database found c))
      (λ _ db'. db' ≡ database)
      (resolve_session session_digest 80)
      database
resolve_session-Resolved_example = resolve_session-Resolved session_digest 80 database

workspace_row : find_row (λ w. w.id == "workspace") database.workspaces ≡ some workspace
unfolding find_row string_eq
workspace_row = refl

next_digest_ok : is_sha256_digest next_session_digest ≡ true
unfolding is_sha256_digest nat_eq
next_digest_ok = refl

next_id_free : exists (λ s. s.id == "next session") database.ide_access_sessions ≡ false
unfolding exists string_eq
next_id_free = refl

next_digest_free :
    exists (λ s. s.session_digest == next_session_digest) database.ide_access_sessions ≡ false
unfolding exists string_eq
next_digest_free = refl

-- The database in which the code is redeemed: its audit log is shorter.
abbrev between : Database
between = record replaced { audit_events = [] }

abbrev granted : Database
granted = record ((redeem_code (redeem_input next_code_digest "next session") between).1) {
  agent_tasks = [];
}

issue_redeem_resolve_example :
    (new : IdeAccessSession) × ((redeem_code
        (redeem_input next_code_digest "next session")
        between).0
      ≡ ok new)
    × (resolve_session next_session_digest 5000 granted ≡ (ok new, granted))
unfolding issue_code ◌>>=◌ exists is_sha256_digest nat_eq string_eq update redeem_code
issue_redeem_resolve_example =
    issue_redeem_resolve issue_input database issue_code_run
      (redeem_input next_code_digest "next session") workspace refl workspace_row between refl refl
      refl next_digest_ok next_id_free next_digest_free (omega arith) (omega arith) granted refl
      refl refl 5000 (omega arith)
