-- ===== src/System/Sessions/Laws.antt =====
-- The sessions of packages/ide-access/src/repository.ts that are revoked, and those that are live.
use remote_agent_devbox.Common.{
  Bool, All-unselected, ℕ, ◌≤◌, ◌≡◌, refl, true, false, some, List, ◌∷◌, ◌==◌, String, string_eq,
  find_row, update, select, length, arith, frozen-update, frozen-cons, select-update-le,
  select_none, length-select-cons, length-select-cons_miss, Bool-cases, inl, inr, eq_of_==,
}
use remote_agent_devbox.Schema.Workspace.{Uuid, Date}
use remote_agent_devbox.Schema.Ide.{IdeAccessSession}
use remote_agent_devbox.Schema.Database.{Database}
use remote_agent_devbox.IdeAccess.{is_live_session}
use remote_agent_devbox.System.{Action, run, run_keeps}
use remote_agent_devbox.System.Change.{perform-Change}
use remote_agent_devbox.System.Sessions.{
  SessionsStep, kept, opened, revoked, revoke, of_workspace, Change-SessionsStep,
}

-- The session with this digest, which is revoked.
pub record Revoked (digest : String) (session : IdeAccessSession) (xs : List IdeAccessSession)
    : Type 0 where
  pub row : find_row (λ s. s.session_digest == digest) xs ≡ some session
  pub dead : is_live_session session ≡ false

SessionsStep-Revoked :
    {digest : String} {session : IdeAccessSession} {xs ys : List IdeAccessSession}
    → SessionsStep xs ys
    → Revoked digest session xs
    → Revoked digest session ys
SessionsStep-Revoked (kept w) b = record { row = rw w b.row; dead = b.dead }
SessionsStep-Revoked {digest} {xs} (opened workspace at new _ fresh w) b = record {
  row = rw w (
      frozen-cons (λ s. s.session_digest) digest new _
        (frozen-update _ (of_workspace workspace) (revoke at) xs (λ _. refl) b.row (ground arith))
        fresh);
  dead = b.dead;
}
SessionsStep-Revoked {xs} (revoked at w) b = record {
  row = rw w (frozen-update _ _ (revoke at) xs (λ _. refl) b.row b.dead);
  dead = b.dead;
}

pub run-Revoked :
    (digest : String) (session : IdeAccessSession) (actions : List Action) (db : Database)
    → Revoked digest session db.ide_access_sessions
    → Revoked digest session (run actions db).ide_access_sessions
run-Revoked digest session actions db =
    run_keeps (λ d. Revoked digest session d.ide_access_sessions)
      (λ a d. SessionsStep-Revoked (Change-SessionsStep (perform-Change a d))) actions db

-- The number of live sessions of a workspace.
unfoldable pub live_sessions : Uuid → List IdeAccessSession → ℕ
live_sessions workspace xs = length (select (of_workspace workspace) xs)

dead_after :
    (workspace : Uuid) (at : Date) (s : IdeAccessSession)
    → of_workspace workspace (revoke at s) ≡ true
    → of_workspace workspace s ≡ true
unfolding is_live_session
dead_after workspace at s h = ground arith

live_sessions-update :
    (workspace : Uuid) (p : IdeAccessSession → Bool) (f : IdeAccessSession → IdeAccessSession)
    (xs : List IdeAccessSession)
    → ((s : IdeAccessSession)
        → of_workspace workspace (f s) ≡ true
        → of_workspace workspace s ≡ true)
    → live_sessions workspace xs ≤ 1
    → live_sessions workspace (update p f xs) ≤ 1
unfolding live_sessions
live_sessions-update workspace p f xs shrink h =
    omega (arith, select-update-le (of_workspace workspace) p f (λ s _. shrink s) xs)

-- The other sessions of the workspace are revoked before a new one is inserted.
live_sessions-open :
    (workspace other : Uuid) (at : Date) (new : IdeAccessSession) (xs : List IdeAccessSession)
    → new.workspace_id ≡ other
    → live_sessions workspace xs ≤ 1
    → live_sessions workspace (new ∷ update (of_workspace other) (revoke at) xs) ≤ 1
unfolding live_sessions
live_sessions-open workspace other at new xs e h = elim (Bool-cases (workspace == other)) [
  | inl hit ↦
      let gone : length
            (select (of_workspace workspace) (update (of_workspace other) (revoke at) xs))
          ≡ 0 =
        rw (eq_of_== workspace other hit) (
          select_none _ _ (
            All-unselected (of_workspace other) (revoke at)
              (λ s _. unfold is_live_session in ground arith) xs)) in
      omega (
        arith,
        length-select-cons (of_workspace workspace) new
            (update (of_workspace other) (revoke at) xs),
      )
  | inr miss ↦
      rw
        (length-select-cons_miss (of_workspace workspace) new
          (update (of_workspace other) (revoke at) xs) (ground arith))
        (live_sessions-update workspace (of_workspace other) (revoke at) xs
          (dead_after workspace at) h)
]

SessionsStep-live_sessions :
    {xs ys : List IdeAccessSession} (workspace : Uuid)
    → SessionsStep xs ys
    → live_sessions workspace xs ≤ 1
    → live_sessions workspace ys ≤ 1
SessionsStep-live_sessions workspace (kept w) h = rw w h
SessionsStep-live_sessions {xs} workspace (opened other at new e _ w) h =
    rw w (live_sessions-open workspace other at new xs e h)
SessionsStep-live_sessions {xs} workspace (revoked at w) h =
    rw w (live_sessions-update workspace _ (revoke at) xs (dead_after workspace at) h)

-- Where a workspace has at most one IDE session that is not revoked, it has at most one after any
-- requests.
pub run-live_sessions :
    (workspace : Uuid) (actions : List Action) (db : Database)
    → live_sessions workspace db.ide_access_sessions ≤ 1
    → live_sessions workspace (run actions db).ide_access_sessions ≤ 1
run-live_sessions workspace actions db =
    run_keeps (λ d. live_sessions workspace d.ide_access_sessions ≤ 1)
      (λ a d. SessionsStep-live_sessions workspace (Change-SessionsStep (perform-Change a d)))
      actions db
