-- ===== src/IdeAccess/Granted.antt =====
-- A code that is issued, redeemed and resolved (packages/ide-access/src/repository.ts).
use remote_agent_devbox.Common.{
  ◌+◌, ◌*◌, min, ◌<◌, ◌≡◌, refl, sym, ◌∙◌, ap, true, false, not, some, List, ◌∷◌, leb, ◌==◌, ◌&&◌,
  nat_eq, string_eq, ==_refl, find_row, exists, update, find_row-cons_hit, arith, ok, Ensures_at_ok,
  Yields, exists-update,
}
use mathlib.Core.Option.{some-injective}
use mathlib.Core.Path.{subst}
use remote_agent_devbox.Names.{is_sha256_digest}
use remote_agent_devbox.Schema.Workspace.{Date, Workspace}
use remote_agent_devbox.Schema.Security.{InstanceSecurityMetadata}
use remote_agent_devbox.Schema.Ide.{IdeAccessCode, IdeAccessSession}
use remote_agent_devbox.Schema.Database.{Database}
use remote_agent_devbox.IdeAccess.{
  IssueCodeInput, RedeemCodeInput, is_open, is_open_at, is_live_code, is_live_session,
  is_redeemable, is_usable, epoch_current, new_code, new_session, session_expiry,
  ide_access_codes_accepts, ide_access_sessions_accepts, redeem_code, resolve_session, issue_code,
}
use remote_agent_devbox.IdeAccess.Effects.{issue_code-Issued}
use remote_agent_devbox.IdeAccess.Runs.{resolve_session_runs, cleared, redeemed, redeem_code_runs}

-- What the new code and its context say, put together from what issuing ensures.
new_code_opens :
    (input : IssueCodeInput) (m : InstanceSecurityMetadata) (w : Workspace)
    (again : RedeemCodeInput) (now : Date)
    → is_open input.created_at w ≡ true
    → now < session_expiry again w
    → is_open_at (new_code input m w).workspace_state_version now w ≡ true
unfolding new_code is_open_at is_open session_expiry
new_code_opens input m w again now open_ lasting = ground arith

new_code_lives :
    (input : IssueCodeInput) (m : InstanceSecurityMetadata) (w : Workspace) (at : Date)
    → at < input.expires_at
    → is_redeemable at (new_code input m w) ≡ true
unfolding new_code is_redeemable is_live_code
new_code_lives input m w at h = ground arith

new_code_epoch :
    (input : IssueCodeInput) (m : InstanceSecurityMetadata) (w : Workspace)
    → m.maintenance_mode ≡ false
    → epoch_current (new_code input m w).security_epoch m ≡ true
unfolding new_code epoch_current
new_code_epoch input m w h = ground arith

session_lasts :
    (again : RedeemCodeInput) (w : Workspace)
    → again.redeemed_at < session_expiry again w
    → not (leb (session_expiry again w) again.redeemed_at) ≡ true
session_lasts again w h = ground arith

-- The constraints of the sessions, from those that the code met and from what is new of the session.
session_accepted :
    (input : IssueCodeInput) (m : InstanceSecurityMetadata) (w : Workspace)
    (again : RedeemCodeInput) (before db : Database)
    → ide_access_codes_accepts before (new_code input m w) ≡ true
    → db.workspaces ≡ before.workspaces
    → is_sha256_digest again.session_digest ≡ true
    → exists (λ s. s.id == again.session_id) db.ide_access_sessions ≡ false
    → exists (λ s. s.session_digest == again.session_digest) db.ide_access_sessions ≡ false
    → again.redeemed_at < session_expiry again w
    → ide_access_sessions_accepts
        (cleared again (new_code input m w) db)
        (new_session again (new_code input m w) w)
      ≡ true
unfolding ide_access_codes_accepts ide_access_sessions_accepts new_code new_session
session_accepted input m w again before db code_ok same digest_ok fresh_id fresh_digest lasting =
    let id_free : exists (λ s. s.id == again.session_id)
          (cleared again (new_code input m w) db).ide_access_sessions
        ≡ false =
      exists-update _ _ _ db.ide_access_sessions (λ _. refl) fresh_id in
    let digest_free : exists (λ s. s.session_digest == again.session_digest)
          (cleared again (new_code input m w) db).ide_access_sessions
        ≡ false =
      exists-update _ _ _ db.ide_access_sessions (λ _. refl) fresh_digest in
    let there : exists (λ v. v.id == input.workspace_id) db.workspaces ≡ true =
      rw same (ground arith) in
    ground arith

code_digest_ok :
    (input : IssueCodeInput) (m : InstanceSecurityMetadata) (w : Workspace) (before : Database)
    → ide_access_codes_accepts before (new_code input m w) ≡ true
    → is_sha256_digest input.code_digest ≡ true
unfolding ide_access_codes_accepts new_code
code_digest_ok input m w before h = ground arith

new_code_found :
    (input : IssueCodeInput) (m : InstanceSecurityMetadata) (w : Workspace)
    → ((new_code input m w).id == (new_code input m w).id && is_live_code (new_code input m w))
      ≡ true
unfolding new_code is_live_code
new_code_found input m w = rw (==_refl input.id) refl

granted_usable :
    (input : IssueCodeInput) (m : InstanceSecurityMetadata) (w : Workspace)
    (again : RedeemCodeInput) (now : Date)
    → now < session_expiry again w
    → is_usable now (new_session again (new_code input m w) w) ≡ true
unfolding new_session is_usable is_live_session
granted_usable input m w again now h = ground arith

module _ (input : IssueCodeInput) (m : InstanceSecurityMetadata) (w : Workspace) (db : Database)
    (again : RedeemCodeInput) (rest : List IdeAccessCode) where
  -- The database with the new code.
  abbrev with_code : Database
  with_code = record db { ide_access_codes = new_code input m w ∷ rest }

  abbrev granted : IdeAccessSession
  granted = new_session again (new_code input m w) w

  module _ (em : db.metadata ≡ some m)
      (ew : find_row (λ w. w.id == input.workspace_id) db.workspaces ≡ some w)
      (out : m.maintenance_mode ≡ false) (open_ : is_open input.created_at w ≡ true)
      (same : again.code_digest ≡ input.code_digest)
      (digest_ok : is_sha256_digest again.session_digest ≡ true)
      (lasting : again.redeemed_at < session_expiry again w) where
    redeem_granted :
        (before : Database)
        → before.workspaces ≡ db.workspaces
        → ide_access_codes_accepts before (new_code input m w) ≡ true
        → again.redeemed_at < input.expires_at
        → exists (λ s. s.id == again.session_id) db.ide_access_sessions ≡ false
        → exists (λ s. s.session_digest == again.session_digest) db.ide_access_sessions ≡ false
        → Yields
            (redeem_code again)
            with_code
            granted
            (redeemed again (new_code input m w) w with_code)
    unfolding new_code
    redeem_granted before tables code_ok soon fresh_id fresh_digest =
        redeem_code_runs again with_code (rw same (code_digest_ok input m w before code_ok))
          digest_ok (find_row-cons_hit _ _ rest (rw same (==_refl input.code_digest)))
          (new_code_lives input m w again.redeemed_at soon) em (new_code_epoch input m w out) ew
          (new_code_opens input m w again again.redeemed_at open_ lasting)
          (session_lasts again w lasting) (find_row-cons_hit _ _ rest (new_code_found input m w))
          (session_accepted input m w again before with_code code_ok (sym tables) digest_ok fresh_id
            fresh_digest lasting)

-- The codes after those of the workspace have been invalidated.
abbrev replaced : IssueCodeInput → Database → List IdeAccessCode
replaced input db =
    update (λ k. k.workspace_id == input.workspace_id && is_live_code k)
      (λ k. record k { invalidated_at = some input.created_at }) db.ide_access_codes

-- A code that has been issued can be redeemed before it, the session's lifetime and the workspace
-- expire, for a session whose id and digest are new, in every later database with the same
-- metadata, workspaces and codes; and the session that is returned is resolved, before it expires,
-- in every later database with the same metadata, workspaces and sessions. The other tables may
-- have changed.
pub issue_redeem_resolve :
    (input : IssueCodeInput) (db : Database) {code : IdeAccessCode} {db' : Database}
    → issue_code input db ≡ (ok code, db')
    → (again : RedeemCodeInput) (w : Workspace) → again.code_digest ≡ input.code_digest
    → find_row (λ w. w.id == input.workspace_id) db.workspaces ≡ some w
    → (e : Database) → e.metadata ≡ db'.metadata
    → e.workspaces ≡ db'.workspaces
    → e.ide_access_codes ≡ db'.ide_access_codes
    → is_sha256_digest again.session_digest ≡ true
    → exists (λ s. s.id == again.session_id) e.ide_access_sessions ≡ false
    → exists (λ s. s.session_digest == again.session_digest) e.ide_access_sessions ≡ false
    → again.redeemed_at < input.expires_at
    → again.redeemed_at < min (again.redeemed_at + again.session_ttl_seconds * 1000) w.expires_at
    → (f : Database) → f.metadata ≡ e.metadata
    → f.workspaces ≡ e.workspaces
    → f.ide_access_sessions ≡ (redeem_code again e).1.ide_access_sessions
    → (now : Date) → now < min (again.redeemed_at + again.session_ttl_seconds * 1000) w.expires_at
    → (session : IdeAccessSession) × ((redeem_code again e).0 ≡ ok session)
      × (resolve_session again.session_digest now f ≡ (ok session, f))
unfolding new_code new_session session_expiry
issue_redeem_resolve input db {code} {db'} done again w same row e em ew ec digest_ok fresh_id
      fresh_digest soon lasting f fm fw fs now before_expiry =
    let (c, i) = Ensures_at_ok _ db (issue_code-Issued input db) done in
    let here : c.workspace ≡ w = some-injective c.workspace w (sym i.workspace_row ∙ row) in
    let open_ : is_open input.created_at w ≡ true = rw (← here) i.workspace_open in
    let m = c.metadata in
    let made : code ≡ new_code input m w = i.code_row ∙ ap (new_code input m) here in
    let others = replaced input db in
    let before : Database = record db { ide_access_codes = others } in
    let code_ok = subst (λ k. ide_access_codes_accepts before k ≡ true) made i.accepted in
    let session = granted input m w e again others in
    let tables : e.workspaces ≡ db.workspaces = ew ∙ ap (λ d. d.workspaces) i.written in
    let metadata : e.metadata ≡ some m = em ∙ ap (λ d. d.metadata) i.written ∙ i.metadata_row in
    let there = ap (find_row (λ (v : Workspace). v.id == input.workspace_id)) tables ∙ row in
    let codes : e.ide_access_codes ≡ new_code input m w ∷ others =
      ec ∙ ap (λ d. d.ide_access_codes) i.written ∙ ap (λ k. k ∷ others) made in
    let entered : e ≡ with_code input m w e again others =
      ap (λ k. record e { ide_access_codes = k }) codes in
    let ran =
      ap (redeem_code again) entered
      ∙ (redeem_granted input m w e again others metadata there i.out_of_maintenance open_ same
          digest_ok lasting before (sym tables) code_ok soon fresh_id fresh_digest).outcome in
    let sessions = fs ∙ ap (λ o. o.1.ide_access_sessions) ran in
    (
      session,
      ap (λ o. o.0) ran,
      (resolve_session_runs again.session_digest now f digest_ok
          (ap (find_row (λ (s : IdeAccessSession). s.session_digest == again.session_digest))
              sessions
            ∙ find_row-cons_hit _ _ _ (==_refl again.session_digest))
          (granted_usable input m w again now before_expiry) (fm ∙ metadata)
          (new_code_epoch input m w i.out_of_maintenance)
          (ap (find_row (λ (v : Workspace). v.id == input.workspace_id)) fw ∙ there)
          (new_code_opens input m w again now open_ before_expiry)).outcome,
    )
