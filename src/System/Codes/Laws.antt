-- ===== src/System/Codes/Laws.antt =====
-- The codes of packages/ide-access/src/repository.ts that are consumed or invalidated, and those that
-- are live.
use remote_agent_devbox.Common.{
  Bool, All-unselected, ℕ, ◌≤◌, ◌≡◌, refl, true, false, some, List, ◌∷◌, ◌==◌, String, string_eq,
  find_row, update, select, length, arith, frozen-update, frozen-cons, select-update-le,
  select_none, length-select-cons, length-select-cons_miss, Bool-cases, inl, inr, eq_of_==,
}
use remote_agent_devbox.Schema.Workspace.{Uuid, Date}
use remote_agent_devbox.Schema.Ide.{IdeAccessCode}
use remote_agent_devbox.Schema.Database.{Database}
use remote_agent_devbox.IdeAccess.{is_live_code}
use remote_agent_devbox.System.{Action, run, run_keeps}
use remote_agent_devbox.System.Change.{perform-Change}
use remote_agent_devbox.System.Codes.{
  CodesStep, kept, issued, consumed, invalidated, invalidate, consume, of_workspace,
  Change-CodesStep,
}

-- The code with this digest, which is consumed or invalidated.
pub record Burnt (digest : String) (code : IdeAccessCode) (xs : List IdeAccessCode) : Type 0 where
  pub row : find_row (λ c. c.code_digest == digest) xs ≡ some code
  pub dead : is_live_code code ≡ false

CodesStep-Burnt :
    {digest : String} {code : IdeAccessCode} {xs ys : List IdeAccessCode}
    → CodesStep xs ys
    → Burnt digest code xs
    → Burnt digest code ys
CodesStep-Burnt (kept w) b = record { row = rw w b.row; dead = b.dead }
CodesStep-Burnt {digest} {xs} (issued workspace at new _ fresh w) b = record {
  row = rw w (
      frozen-cons (λ c. c.code_digest) digest new _
        (frozen-update _ (of_workspace workspace) (invalidate at) xs (λ _. refl) b.row
          (ground arith))
        fresh);
  dead = b.dead;
}
CodesStep-Burnt {xs} (consumed id at w) b = record {
  row = rw w (frozen-update _ _ (consume at) xs (λ _. refl) b.row (ground arith));
  dead = b.dead;
}
CodesStep-Burnt {xs} (invalidated at w) b = record {
  row = rw w (frozen-update _ _ (invalidate at) xs (λ _. refl) b.row b.dead);
  dead = b.dead;
}

pub run-Burnt :
    (digest : String) (code : IdeAccessCode) (actions : List Action) (db : Database)
    → Burnt digest code db.ide_access_codes
    → Burnt digest code (run actions db).ide_access_codes
run-Burnt digest code actions db =
    run_keeps (λ d. Burnt digest code d.ide_access_codes)
      (λ a d. CodesStep-Burnt (Change-CodesStep (perform-Change a d))) actions db

-- The number of live codes of a workspace.
unfoldable pub live_codes : Uuid → List IdeAccessCode → ℕ
live_codes workspace xs = length (select (of_workspace workspace) xs)

dead_after :
    (workspace : Uuid) (at : Date) (c : IdeAccessCode)
    → of_workspace workspace (invalidate at c) ≡ true
    → of_workspace workspace c ≡ true
unfolding is_live_code
dead_after workspace at c h = ground arith

spent_after :
    (workspace : Uuid) (at : Date) (c : IdeAccessCode)
    → of_workspace workspace (consume at c) ≡ true
    → of_workspace workspace c ≡ true
unfolding is_live_code
spent_after workspace at c h = ground arith

live_codes-update :
    (workspace : Uuid) (p : IdeAccessCode → Bool) (f : IdeAccessCode → IdeAccessCode)
    (xs : List IdeAccessCode)
    → ((c : IdeAccessCode) → of_workspace workspace (f c) ≡ true → of_workspace workspace c ≡ true)
    → live_codes workspace xs ≤ 1
    → live_codes workspace (update p f xs) ≤ 1
unfolding live_codes
live_codes-update workspace p f xs shrink h =
    omega (arith, select-update-le (of_workspace workspace) p f (λ c _. shrink c) xs)

-- The other codes of the workspace are invalidated before a new one is inserted.
live_codes-issue :
    (workspace other : Uuid) (at : Date) (new : IdeAccessCode) (xs : List IdeAccessCode)
    → new.workspace_id ≡ other
    → live_codes workspace xs ≤ 1
    → live_codes workspace (new ∷ update (of_workspace other) (invalidate at) xs) ≤ 1
unfolding live_codes
live_codes-issue workspace other at new xs e h = elim (Bool-cases (workspace == other)) [
  | inl hit ↦
      let gone : length
            (select (of_workspace workspace) (update (of_workspace other) (invalidate at) xs))
          ≡ 0 =
        rw (eq_of_== workspace other hit) (
          select_none _ _ (
            All-unselected (of_workspace other) (invalidate at)
              (λ c _. unfold is_live_code in ground arith) xs)) in
      omega (
        arith,
        length-select-cons (of_workspace workspace) new
            (update (of_workspace other) (invalidate at) xs),
      )
  | inr miss ↦
      rw
        (length-select-cons_miss (of_workspace workspace) new
          (update (of_workspace other) (invalidate at) xs) (ground arith))
        (live_codes-update workspace (of_workspace other) (invalidate at) xs
          (dead_after workspace at) h)
]

CodesStep-live_codes :
    {xs ys : List IdeAccessCode} (workspace : Uuid)
    → CodesStep xs ys
    → live_codes workspace xs ≤ 1
    → live_codes workspace ys ≤ 1
CodesStep-live_codes workspace (kept w) h = rw w h
CodesStep-live_codes {xs} workspace (issued other at new e _ w) h =
    rw w (live_codes-issue workspace other at new xs e h)
CodesStep-live_codes {xs} workspace (consumed id at w) h =
    rw w (live_codes-update workspace _ (consume at) xs (spent_after workspace at) h)
CodesStep-live_codes {xs} workspace (invalidated at w) h =
    rw w (live_codes-update workspace _ (invalidate at) xs (dead_after workspace at) h)

-- Where a workspace has at most one IDE access code that is neither consumed nor invalidated, it
-- has at most one after any requests.
pub run-live_codes :
    (workspace : Uuid) (actions : List Action) (db : Database)
    → live_codes workspace db.ide_access_codes ≤ 1
    → live_codes workspace (run actions db).ide_access_codes ≤ 1
run-live_codes workspace actions db =
    run_keeps (λ d. live_codes workspace d.ide_access_codes ≤ 1)
      (λ a d. CodesStep-live_codes workspace (Change-CodesStep (perform-Change a d))) actions db
