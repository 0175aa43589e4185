-- ===== src/IdeAccess/Grants.antt =====
-- What a redeemed code has granted (packages/ide-access/src/repository.ts).
use remote_agent_devbox.Common.{
  ◌+◌, ◌*◌, min, ◌<◌, ◌≡◌, refl, true, false, Option, none, some, ◌&&◌, ◌∷◌, ◌==◌, string_eq,
  nat_eq, find_row, update, arith, Ensures, Ensures-weaken,
}
use remote_agent_devbox.Schema.Workspace.{
  DesiredWorkspaceState, ObservedWorkspaceState, desired_eq, observed_eq,
}
use remote_agent_devbox.Schema.Ide.{IdeAccessCode, IdeAccessSession}
use remote_agent_devbox.Schema.Database.{Database}
use remote_agent_devbox.IdeAccess.{
  is_null, RedeemCodeInput, is_open, is_live_code, is_live_session, is_redeemable, epoch_current,
  is_open_at, session_expiry, new_session, redeem_code,
}
use remote_agent_devbox.IdeAccess.Effects.{Context, Redeemed, redeem_code-Redeemed}

-- What the session that is granted for a code rests on.
pub record Granted (input : RedeemCodeInput) (db : Database) (session : IdeAccessSession)
    (code : IdeAccessCode) (c : Context) : Type 0 where
  pub code_row : find_row (λ k. k.code_digest == input.code_digest) db.ide_access_codes ≡ some code
  pub unconsumed : code.consumed_at ≡ none
  pub valid : code.invalidated_at ≡ none
  pub unexpired : input.redeemed_at < code.expires_at
  pub metadata_row : db.metadata ≡ some c.metadata
  pub out_of_maintenance : c.metadata.maintenance_mode ≡ false
  pub same_epoch : c.metadata.security_epoch ≡ code.security_epoch
  pub workspace_row : find_row (λ w. w.id == code.workspace_id) db.workspaces ≡ some c.workspace
  pub to_run : c.workspace.desired_state ≡ DesiredWorkspaceState.running
  pub ready : c.workspace.observed_state ≡ ObservedWorkspaceState.ready
  pub workspace_unexpired : input.redeemed_at < c.workspace.expires_at
  pub same_version : c.workspace.state_version ≡ code.workspace_state_version
  pub session_id : session.id ≡ input.session_id
  pub session_digest : session.session_digest ≡ input.session_digest
  pub session_workspace : session.workspace_id ≡ code.workspace_id
  pub session_tier : session.deployment_tier ≡ code.deployment_tier
  pub session_epoch : session.security_epoch ≡ code.security_epoch
  pub session_version : session.workspace_state_version ≡ code.workspace_state_version
  pub session_start : session.created_at ≡ input.redeemed_at
  pub session_end :
      session.expires_at
      ≡ min (input.redeemed_at + input.session_ttl_seconds * 1000) c.workspace.expires_at
  pub session_live : session.revoked_at ≡ none
  pub session_lasts : input.redeemed_at < session.expires_at

-- The code is consumed, the sessions of its workspace are revoked, and the session is added.
abbrev pub GrantWritten :
    RedeemCodeInput → Database → IdeAccessSession → IdeAccessCode → Database → Type 0
GrantWritten input db session code db' = db' ≡ record db {
  ide_access_codes =
      update (λ k. k.id == code.id && (is_null k.consumed_at && is_null k.invalidated_at))
        (λ k. record k { consumed_at = some input.redeemed_at }) db.ide_access_codes;
  ide_access_sessions =
      session
      ∷ update (λ s. s.workspace_id == code.workspace_id && is_null s.revoked_at)
          (λ s. record s { revoked_at = some input.redeemed_at }) db.ide_access_sessions;
}

null_is_none {ℓ} : {A : Type ℓ} (o : Option A) → is_null o ≡ true → o ≡ none
null_is_none none h = refl
null_is_none (some a) h = ground (arith, h)

Redeemed-Granted :
    (input : RedeemCodeInput) (db : Database) (session : IdeAccessSession) (db' : Database)
    (code : IdeAccessCode) (c : Context)
    → Redeemed input db session db' code c
    → Granted input db session code c
unfolding is_redeemable is_live_code epoch_current is_open_at is_open new_session session_expiry
    desired_eq observed_eq
Redeemed-Granted input db session db' code c r =
    let live = r.redeemable in
    let epoch = r.epoch in
    let opens = r.workspace_open in
    let lasts = r.lasting in
    let same = r.session_row in
    record {
      code_row = r.code_row;
      unconsumed = null_is_none code.consumed_at (ground (arith, live));
      valid = null_is_none code.invalidated_at (ground (arith, live));
      unexpired = ground (arith, live);
      metadata_row = r.metadata_row;
      out_of_maintenance = ground (arith, epoch);
      same_epoch = ground (arith, epoch);
      workspace_row = r.workspace_row;
      to_run = ground (arith, opens);
      ready = ground (arith, opens);
      workspace_unexpired = ground (arith, opens);
      same_version = ground (arith, opens);
      session_id = rw same refl;
      session_digest = rw same refl;
      session_workspace = rw same refl;
      session_tier = rw same refl;
      session_epoch = rw same refl;
      session_version = rw same refl;
      session_start = rw same refl;
      session_end = rw same refl;
      session_live = rw same refl;
      session_lasts = rw same (ground (arith, lasts));
    }

-- A code is redeemed only while it is neither consumed nor invalidated nor expired, the instance
-- is out of maintenance and in the code's epoch, and the workspace is to run, ready, unexpired and
-- at the version that the code was issued for; the session takes its workspace, tier, epoch and
-- version from the code and ends with its lifetime or with the workspace. Redeeming consumes the
-- code, revokes the sessions of the workspace and adds the session, and nothing else. When it
-- throws, nothing has changed.
pub redeem_code-Granted :
    (input : RedeemCodeInput) (db : Database)
    → Ensures
        (λ session db'.
          (code : IdeAccessCode) × (c : Context) × Granted input db session code c
          × GrantWritten input db session code db')
        (λ _ db'. db' ≡ db)
        (redeem_code input)
        db
unfolding is_live_code is_live_session
redeem_code-Granted input db =
    Ensures-weaken _ _
      (λ session db' (code, c, r).
        (code, c, Redeemed-Granted input db session db' code c r, r.written))
      (λ _ _ kept. kept) (redeem_code-Redeemed input db)
