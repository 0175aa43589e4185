-- ===== src/IdeAccess/Effects.antt =====
-- What the operations on IDE access do to the database, on every branch.
use remote_agent_devbox.Common.{
  ◌<◌, ◌≡◌, refl, true, false, ◌&&◌, leb, none, some, String, ◌∷◌, ◌==◌, string_eq, nat_eq,
  find_row, update, arith, Ensures, on_gets, on_required, on_required_where, on_assert, on_modify,
  on_ensured, end_pure, end_transaction,
}
use remote_agent_devbox.Schema.Workspace.{
  Workspace, Date, DesiredWorkspaceState, ObservedWorkspaceState,
}
use remote_agent_devbox.Schema.Security.{InstanceSecurityMetadata}
use remote_agent_devbox.Schema.Ide.{IdeAccessCode, IdeAccessSession}
use remote_agent_devbox.Schema.Database.{Database}
use remote_agent_devbox.IdeAccess.{
  IssueCodeInput, RedeemCodeInput, is_open, require_issuable_context, is_live_code, is_live_session,
  new_code, ide_access_codes_accepts, issue_code_body, issue_code, is_redeemable, epoch_current,
  is_open_at, session_expiry, new_session, ide_access_sessions_accepts, redeem_code_body,
  redeem_code, resolve_session,
}

-- The rows in which an operation finds its context.
pub record Context : Type 0 where
  pub metadata : InstanceSecurityMetadata
  pub workspace : Workspace

-- A code is issued for a workspace that is open, out of maintenance; the live codes of the
-- workspace are invalidated, and the new code carries the epoch and the version of now.
pub record Issued (input : IssueCodeInput) (db : Database) (code : IdeAccessCode) (db' : Database)
    (c : Context) : Type 0 where
  pub metadata_row : db.metadata ≡ some c.metadata
  pub workspace_row : find_row (λ w. w.id == input.workspace_id) db.workspaces ≡ some c.workspace
  pub out_of_maintenance : c.metadata.maintenance_mode ≡ false
  pub workspace_open : is_open input.created_at c.workspace ≡ true
  pub code_row : code ≡ new_code input c.metadata c.workspace
  pub accepted :
      ide_access_codes_accepts
        (record db {
          ide_access_codes =
              update
                (λ k. k.workspace_id == input.workspace_id && is_live_code k)
                (λ k. record k { invalidated_at = some input.created_at })
                db.ide_access_codes;
        })
        code
      ≡ true
  pub written : db' ≡ record db {
    ide_access_codes =
        code
        ∷ update
            (λ k. k.workspace_id == input.workspace_id && is_live_code k)
            (λ k. record k { invalidated_at = some input.created_at })
            db.ide_access_codes;
  }

issue_code_body-Issued :
    (input : IssueCodeInput) (db : Database)
    → Ensures
        (λ code db'. (c : Context) × Issued input db code db' c)
        (λ _ _. Unit)
        (issue_code_body input)
        db
unfolding issue_code_body require_issuable_context
issue_code_body-Issued input db = on_gets _ _ (
    on_gets _ _ (
      on_ensured _ _
        (λ c db'.
          (db' ≡ db)
          × (db.metadata ≡ some c.0)
          × (c.0.maintenance_mode ≡ false)
          × (find_row (λ w. w.id == input.workspace_id) db.workspaces ≡ some c.1)
          × (is_open input.created_at c.1 ≡ true))
        (λ _ _. Unit)
        (on_required _ _ _ (λ _. tt)
          λ m em.
            on_assert _ _ _ (λ _. tt)
              λ off.
                on_required _ _ _ (λ _. tt)
                  λ w ew.
                    on_assert _ _ _ (λ _. tt)
                      λ open_. end_pure _ (refl, em, ground arith, ew, open_))
        (λ _ _ _. tt)
        (λ (m, w) t (same, em, off, ew, open_). rw same (
          on_modify _ _ (
            on_gets _ _ (
              on_assert _ _ _ (λ _. tt)
                λ accepted. on_modify _ _ (
                  end_pure _ (
                    record { metadata = m; workspace = w },
                    record {
                      metadata_row = em;
                      workspace_row = ew;
                      out_of_maintenance = off;
                      workspace_open = open_;
                      code_row = refl;
                      accepted = accepted;
                      written = refl;
                    },
                  ))))))))

-- A code is issued only for a workspace that is open, out of maintenance; the live codes of the
-- workspace are invalidated, and the new code carries the epoch and the state version of the
-- moment. When it throws, nothing has changed.
pub issue_code-Issued :
    (input : IssueCodeInput) (db : Database)
    → Ensures
        (λ code db'. (c : Context) × Issued input db code db' c)
        (λ _ db'. db' ≡ db)
        (issue_code input)
        db
unfolding issue_code
issue_code-Issued input db =
    on_assert _ _ _ (λ _. refl)
      λ _. end_transaction _ _ (λ _. refl) (issue_code_body-Issued input db)

-- A code is redeemed while it is live and unexpired, under the epoch in which it was issued, and for
-- a workspace that is open in the state in which it was issued. It is consumed, the sessions of the
-- workspace are revoked, and the new session expires with the workspace at the latest.
pub record Redeemed (input : RedeemCodeInput) (db : Database) (session : IdeAccessSession)
    (db' : Database) (code : IdeAccessCode) (c : Context) : Type 0 where
  pub code_row : find_row (λ k. k.code_digest == input.code_digest) db.ide_access_codes ≡ some code
  pub redeemable : is_redeemable input.redeemed_at code ≡ true
  pub metadata_row : db.metadata ≡ some c.metadata
  pub epoch : epoch_current code.security_epoch c.metadata ≡ true
  pub workspace_row : find_row (λ w. w.id == code.workspace_id) db.workspaces ≡ some c.workspace
  pub workspace_open : is_open_at code.workspace_state_version input.redeemed_at c.workspace ≡ true
  pub lasting : leb (session_expiry input c.workspace) input.redeemed_at ≡ false
  pub session_row : session ≡ new_session input code c.workspace
  pub accepted :
      ide_access_sessions_accepts
        (record db {
          ide_access_codes =
              update
                (λ k. k.id == code.id && is_live_code k)
                (λ k. record k { consumed_at = some input.redeemed_at })
                db.ide_access_codes;
          ide_access_sessions =
              update
                (λ s. s.workspace_id == code.workspace_id && is_live_session s)
                (λ s. record s { revoked_at = some input.redeemed_at })
                db.ide_access_sessions;
        })
        session
      ≡ true
  pub written : db' ≡ record db {
    ide_access_codes =
        update
          (λ k. k.id == code.id && is_live_code k)
          (λ k. record k { consumed_at = some input.redeemed_at })
          db.ide_access_codes;
    ide_access_sessions =
        session
        ∷ update
            (λ s. s.workspace_id == code.workspace_id && is_live_session s)
            (λ s. record s { revoked_at = some input.redeemed_at })
            db.ide_access_sessions;
  }

redeem_code_body-Redeemed :
    (input : RedeemCodeInput) (db : Database)
    → Ensures
        (λ session db'.
          (code : IdeAccessCode) × (c : Context) × Redeemed input db session db' code c)
        (λ _ _. Unit)
        (redeem_code_body input)
        db
unfolding redeem_code_body
redeem_code_body-Redeemed input db = on_gets _ _ (
    on_required_where _ _ _ _ tt λ code ec live. on_gets _ _ (
      on_required_where _ _ _ _ tt λ m em epoch. on_gets _ _ (
        on_required_where _ _ _ _ tt λ w ew open_.
          on_assert _ _ _ (λ _. tt)
            λ lasting. on_gets _ _ (
              on_modify _ _ (
                on_required _ _ _ (λ _. tt)
                  λ _ _. on_modify _ _ (
                    on_gets _ _ (
                      on_assert _ _ _ (λ _. tt)
                        λ accepted. on_modify _ _ (
                          end_pure _ (
                            code,
                            record { metadata = m; workspace = w },
                            record {
                              code_row = ec;
                              redeemable = live;
                              metadata_row = em;
                              epoch = epoch;
                              workspace_row = ew;
                              workspace_open = open_;
                              lasting = ground arith;
                              session_row = refl;
                              accepted = accepted;
                              written = refl;
                            },
                          )))))))))

-- What redeeming a code does, in the terms of the code.
pub redeem_code-Redeemed :
    (input : RedeemCodeInput) (db : Database)
    → Ensures
        (λ session db'.
          (code : IdeAccessCode) × (c : Context) × Redeemed input db session db' code c)
        (λ _ db'. db' ≡ db)
        (redeem_code input)
        db
unfolding redeem_code
redeem_code-Redeemed input db =
    on_assert _ _ _ (λ _. refl)
      λ _.
        on_assert _ _ _ (λ _. refl)
          λ _. end_transaction _ _ (λ _. refl) (redeem_code_body-Redeemed input db)

-- What a resolved session rests on, at the time `now`.
pub record Resolved (digest : String) (now : Date) (db : Database) (session : IdeAccessSession)
    (c : Context) : Type 0 where
  pub session_row : find_row (λ s. s.session_digest == digest) db.ide_access_sessions ≡ some session
  pub unrevoked : session.revoked_at ≡ none
  pub unexpired : now < session.expires_at
  pub metadata_row : db.metadata ≡ some c.metadata
  pub out_of_maintenance : c.metadata.maintenance_mode ≡ false
  pub epoch : c.metadata.security_epoch ≡ session.security_epoch
  pub workspace_row : find_row (λ w. w.id == session.workspace_id) db.workspaces ≡ some c.workspace
  pub to_run : c.workspace.desired_state ≡ DesiredWorkspaceState.running
  pub ready : c.workspace.observed_state ≡ ObservedWorkspaceState.ready
  pub version : c.workspace.state_version ≡ session.workspace_state_version
  pub workspace_unexpired : now < c.workspace.expires_at

-- A session is resolved only while it is unrevoked and unexpired, the instance is out of
-- maintenance and in the session's epoch, and the workspace is to run, ready, unexpired and at the
-- version that the session was granted for. Resolving changes nothing, whether it succeeds or
-- throws.
pub resolve_session-Resolved :
    (digest : String) (now : Date) (db : Database)
    → Ensures
        (λ session db'. (db' ≡ db) × ((c : Context) × Resolved digest now db session c))
        (λ _ db'. db' ≡ db)
        (resolve_session digest now)
        db
unfolding resolve_session
resolve_session-Resolved digest now db =
    on_assert _ _ _ (λ _. refl)
      λ _. on_gets _ _ (
        on_required_where _ _ _ _ refl λ session es usable. on_gets _ _ (
          on_required_where _ _ _ _ refl λ m em epoch. on_gets _ _ (
            on_required_where _ _ _ _ refl λ w ew open_. end_pure _ (
              refl,
              (
                record { metadata = m; workspace = w },
                record {
                  session_row = es;
                  unrevoked = ground arith;
                  unexpired = ground arith;
                  metadata_row = em;
                  out_of_maintenance = ground arith;
                  epoch = ground arith;
                  workspace_row = ew;
                  to_run = ground arith;
                  ready = ground arith;
                  version = ground arith;
                  workspace_unexpired = ground arith;
                },
              ),
            ))))
