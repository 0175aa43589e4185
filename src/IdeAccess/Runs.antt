-- ===== src/IdeAccess/Runs.antt =====
-- The steps of `redeemCode` and `resolveSession` where every test goes through.
use remote_agent_devbox.Common.{
  ◌≡◌, true, not, some, String, ◌∷◌, leb, ◌==◌, ◌&&◌, nat_eq, string_eq, find_row, update,
  on_found_where, on_found, on_holds, on_read, on_write, Yields-committed, Yields-pure, Yields,
}
use remote_agent_devbox.Names.{is_sha256_digest}
use remote_agent_devbox.Schema.Workspace.{Date, Workspace}
use remote_agent_devbox.Schema.Security.{InstanceSecurityMetadata}
use remote_agent_devbox.Schema.Ide.{IdeAccessCode, IdeAccessSession}
use remote_agent_devbox.Schema.Database.{Database}
use remote_agent_devbox.IdeAccess.{
  RedeemCodeInput, is_open_at, is_live_code, is_live_session, is_redeemable, is_usable,
  epoch_current, new_session, session_expiry, ide_access_sessions_accepts, redeem_code_body,
  redeem_code, resolve_session,
}

pub resolve_session_runs :
    (digest : String) (now : Date) (db : Database) {session : IdeAccessSession}
    {m : InstanceSecurityMetadata} {w : Workspace}
    → is_sha256_digest digest ≡ true
    → find_row (λ s. s.session_digest == digest) db.ide_access_sessions ≡ some session
    → is_usable now session ≡ true
    → db.metadata ≡ some m
    → epoch_current session.security_epoch m ≡ true
    → find_row (λ w. w.id == session.workspace_id) db.workspaces ≡ some w
    → is_open_at session.workspace_state_version now w ≡ true
    → Yields (resolve_session digest now) db session db
unfolding resolve_session
resolve_session_runs digest now db digest_ok row usable em epoch ew open_ =
    on_holds _ _ _ digest_ok (
      on_read _ _ (
        on_found_where _ _ _ _ row usable (
          on_read _ _ (
            on_found_where _ _ _ _ em epoch
              (on_read _ _ (on_found_where _ _ _ _ ew open_ (Yields-pure _ _)))))))

-- The database in which the code is consumed and the sessions of the workspace are revoked.
abbrev pub cleared : RedeemCodeInput → IdeAccessCode → Database → Database
cleared input code db = record db {
  ide_access_codes =
      update (λ c. c.id == code.id && is_live_code c)
        (λ c. record c { consumed_at = some input.redeemed_at }) db.ide_access_codes;
  ide_access_sessions =
      update (λ s. s.workspace_id == code.workspace_id && is_live_session s)
        (λ s. record s { revoked_at = some input.redeemed_at }) db.ide_access_sessions;
}

abbrev pub redeemed : RedeemCodeInput → IdeAccessCode → Workspace → Database → Database
redeemed input code w db = record (cleared input code db) {
  ide_access_sessions = new_session input code w ∷ (cleared input code db).ide_access_sessions;
}

pub redeem_code_runs :
    (input : RedeemCodeInput) (db : Database) {code other : IdeAccessCode}
    {m : InstanceSecurityMetadata} {w : Workspace}
    → is_sha256_digest input.code_digest ≡ true
    → is_sha256_digest input.session_digest ≡ true
    → find_row (λ c. c.code_digest == input.code_digest) db.ide_access_codes ≡ some code
    → is_redeemable input.redeemed_at code ≡ true
    → db.metadata ≡ some m
    → epoch_current code.security_epoch m ≡ true
    → find_row (λ w. w.id == code.workspace_id) db.workspaces ≡ some w
    → is_open_at code.workspace_state_version input.redeemed_at w ≡ true
    → not (leb (session_expiry input w) input.redeemed_at) ≡ true
    → find_row (λ c. c.id == code.id && is_live_code c) db.ide_access_codes ≡ some other
    → ide_access_sessions_accepts (cleared input code db) (new_session input code w) ≡ true
    → Yields (redeem_code input) db (new_session input code w) (redeemed input code w db)
unfolding redeem_code redeem_code_body
redeem_code_runs input db c_ok s_ok row live em epoch ew open_ lasting consumed accepted =
    on_holds _ _ _ c_ok (
      on_holds _ _ _ s_ok (
        Yields-committed _ (
          on_read _ _ (
            on_found_where _ _ _ _ row live (
              on_read _ _ (
                on_found_where _ _ _ _ em epoch (
                  on_read _ _ (
                    on_found_where _ _ _ _ ew open_ (
                      on_holds _ _ _ lasting (
                        on_read _ _ (
                          on_write _ _ (
                            on_found _ _ _ consumed (
                              on_write _ _ (
                                on_read _ _ (
                                  on_holds _ _ _ accepted
                                    (on_write _ _ (Yields-pure _ _)))))))))))))))))
