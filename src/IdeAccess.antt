-- ===== src/IdeAccess.antt =====
-- packages/ide-access: `PostgresIdeAccessRepository` of repository.ts. The modules below prove.
pub mod Effects
pub mod Runs
pub mod Granted
pub mod Grants
use remote_agent_devbox.Common.{
  ℕ, ◌+◌, ◌*◌, min, String, Bool, true, false, not, ◌&&◌, ◌||◌, Option, none, some, List, [], ◌∷◌,
  ltb, leb, ◌==◌, ◌!=◌, string_eq, nat_eq, find_row, exists, update, returning, Error, rad, other,
  Exec, pure, gets, modify, required, required_where, assert, transaction, ◌>>=◌, ◌>>◌,
}
use remote_agent_devbox.Names.{is_sha256_digest}
use remote_agent_devbox.Schema.Workspace.{
  Uuid, Date, Workspace, DesiredWorkspaceState, ObservedWorkspaceState, desired_eq, observed_eq,
}
use remote_agent_devbox.Schema.Security.{InstanceSecurityMetadata}
use remote_agent_devbox.Schema.Ide.{IdeAccessCode, IdeAccessSession}
use remote_agent_devbox.Schema.Database.{Database}

pub record IssueCodeInput : Type 0 where
  pub id : Uuid
  pub workspace_id : Uuid
  pub code_digest : String
  pub created_at : Date
  pub expires_at : Date

pub record RedeemCodeInput : Type 0 where
  pub code_digest : String
  pub session_id : Uuid
  pub session_digest : String
  pub session_ttl_seconds : ℕ
  pub redeemed_at : Date

abbrev pub is_null {ℓ} : {A : Type ℓ} → Option A → Bool
is_null none = true
is_null (some a) = false

-- The workspace can be opened at the time `now`.
unfoldable pub is_open : Date → Workspace → Bool
unfolding desired_eq observed_eq
is_open now workspace =
    workspace.desired_state == DesiredWorkspaceState.running
    && workspace.observed_state == ObservedWorkspaceState.ready
    && not (leb workspace.expires_at now)

-- requireIssuableContext
unfoldable pub require_issuable_context :
    Option InstanceSecurityMetadata
    → Option Workspace
    → Date
    → Exec Database (InstanceSecurityMetadata × Workspace)
unfolding is_open
require_issuable_context metadata workspace now = do
  m ← required metadata (rad "SECURITY_CONTEXT_MISSING" "Instance security metadata is missing")
  assert (not m.maintenance_mode)
      (rad "MAINTENANCE_MODE_ACTIVE" "IDE access is unavailable during maintenance")
  w ← required workspace (rad "WORKSPACE_NOT_FOUND" "Workspace does not exist")
  assert (is_open now w) (rad "WORKSPACE_NOT_READY" "Workspace is not ready for IDE access")
  pure (m, w)

-- Neither consumed nor invalidated.
unfoldable pub is_live_code : IdeAccessCode → Bool
is_live_code c = is_null c.consumed_at && is_null c.invalidated_at

unfoldable pub is_live_session : IdeAccessSession → Bool
is_live_session s = is_null s.revoked_at

-- The row of `values({ ...input, … })`.
unfoldable pub new_code : IssueCodeInput → InstanceSecurityMetadata → Workspace → IdeAccessCode
new_code input metadata workspace = record {
  id = input.id;
  workspace_id = input.workspace_id;
  code_digest = input.code_digest;
  deployment_tier = metadata.deployment_tier;
  security_epoch = metadata.security_epoch;
  workspace_state_version = workspace.state_version;
  created_at = input.created_at;
  expires_at = input.expires_at;
  consumed_at = none;
  invalidated_at = none;
}

-- The constraints of the table `ide_access_codes` that a new row must meet.
unfoldable pub ide_access_codes_accepts : Database → IdeAccessCode → Bool
ide_access_codes_accepts db row =
    not (exists (λ c. c.id == row.id) db.ide_access_codes)
    && not (exists (λ c. c.code_digest == row.code_digest) db.ide_access_codes)
    && exists (λ (w : Workspace). w.id == row.workspace_id) db.workspaces
    && ltb 0 row.security_epoch
    && leb 1 row.deployment_tier
    && leb row.deployment_tier 3
    && is_sha256_digest row.code_digest
    && ltb row.created_at row.expires_at

issue_code_body : IssueCodeInput → Exec Database IdeAccessCode
issue_code_body input = do
  metadata ← gets (λ db. db.metadata)
  workspace ← gets (λ db. find_row (λ w. w.id == input.workspace_id) db.workspaces)
  context ← require_issuable_context metadata workspace input.created_at
  modify (λ db. record db {
    ide_access_codes =
        update (λ c. c.workspace_id == input.workspace_id && is_live_code c)
          (λ c. record c { invalidated_at = some input.created_at }) db.ide_access_codes;
  })
  accepted ← gets (λ db. ide_access_codes_accepts db (new_code input context.0 context.1))
  assert accepted (other "ide_access_codes constraint violated")
  modify (λ db. record db {
    ide_access_codes = new_code input context.0 context.1 ∷ db.ide_access_codes;
  })
  pure (new_code input context.0 context.1)

unfoldable pub issue_code : IssueCodeInput → Exec Database IdeAccessCode
unfolding issue_code_body require_issuable_context is_live_code new_code ide_access_codes_accepts
    transaction
issue_code input = do
  assert (is_sha256_digest input.code_digest) (other "Invalid IDE token digest")
  transaction (issue_code_body input)

-- `throw new RadError("IDE_ACCESS_CODE_INVALID", …)`
abbrev pub invalid_code : Error
invalid_code = rad "IDE_ACCESS_CODE_INVALID" "IDE access code is invalid or expired"

abbrev pub invalid_session : Error
invalid_session = rad "IDE_SESSION_INVALID" "IDE session is invalid or expired"

-- The metadata is out of maintenance, and of this epoch.
unfoldable pub epoch_current : ℕ → InstanceSecurityMetadata → Bool
epoch_current epoch m = not m.maintenance_mode && m.security_epoch == epoch

-- assertRedeemableContext: the tests on the code itself
unfoldable pub is_redeemable : Date → IdeAccessCode → Bool
unfolding is_live_code
is_redeemable now code = is_live_code code && not (leb code.expires_at now)

-- The workspace is open and in the state in which access was granted.
unfoldable pub is_open_at : ℕ → Date → Workspace → Bool
unfolding is_open
is_open_at version now w = is_open now w && w.state_version == version

-- min(redeemedAt + ttl, the workspace's expiry)
unfoldable pub session_expiry : RedeemCodeInput → Workspace → Date
session_expiry input workspace =
    min (input.redeemed_at + input.session_ttl_seconds * 1000) workspace.expires_at

unfoldable pub new_session : RedeemCodeInput → IdeAccessCode → Workspace → IdeAccessSession
unfolding session_expiry
new_session input code workspace = record {
  id = input.session_id;
  workspace_id = code.workspace_id;
  session_digest = input.session_digest;
  deployment_tier = code.deployment_tier;
  security_epoch = code.security_epoch;
  workspace_state_version = code.workspace_state_version;
  created_at = input.redeemed_at;
  expires_at = session_expiry input workspace;
  revoked_at = none;
}

-- The constraints of the table `ide_access_sessions` that a new row must meet.
unfoldable pub ide_access_sessions_accepts : Database → IdeAccessSession → Bool
ide_access_sessions_accepts db row =
    not (exists (λ s. s.id == row.id) db.ide_access_sessions)
    && not (exists (λ s. s.session_digest == row.session_digest) db.ide_access_sessions)
    && exists (λ (w : Workspace). w.id == row.workspace_id) db.workspaces
    && ltb 0 row.security_epoch
    && leb 1 row.deployment_tier
    && leb row.deployment_tier 3
    && is_sha256_digest row.session_digest
    && ltb row.created_at row.expires_at

redeem_code_body : RedeemCodeInput → Exec Database IdeAccessSession
redeem_code_body input = do
  row ← gets (λ db. find_row (λ c. c.code_digest == input.code_digest) db.ide_access_codes)
  code ← required_where (is_redeemable input.redeemed_at) row invalid_code
  metadata ← gets (λ db. db.metadata)
  required_where (epoch_current code.security_epoch) metadata invalid_code
  found ← gets (λ db. find_row (λ w. w.id == code.workspace_id) db.workspaces)
  workspace ←
      required_where (is_open_at code.workspace_state_version input.redeemed_at) found invalid_code
  assert (not (leb (session_expiry input workspace) input.redeemed_at)) invalid_code
  consumed ← gets (λ db. find_row (λ c. c.id == code.id && is_live_code c) db.ide_access_codes)
  modify (λ db. record db {
    ide_access_codes =
        update (λ c. c.id == code.id && is_live_code c)
          (λ c. record c { consumed_at = some input.redeemed_at }) db.ide_access_codes;
  })
  required consumed invalid_code
  modify (λ db. record db {
    ide_access_sessions =
        update (λ s. s.workspace_id == code.workspace_id && is_live_session s)
          (λ s. record s { revoked_at = some input.redeemed_at }) db.ide_access_sessions;
  })
  accepted ← gets (λ db. ide_access_sessions_accepts db (new_session input code workspace))
  assert accepted (other "ide_access_sessions constraint violated")
  modify (λ db. record db {
    ide_access_sessions = new_session input code workspace ∷ db.ide_access_sessions;
  })
  pure (new_session input code workspace)

unfoldable pub redeem_code : RedeemCodeInput → Exec Database IdeAccessSession
unfolding redeem_code_body is_redeemable epoch_current is_open_at is_live_session new_session
    ide_access_sessions_accepts transaction
redeem_code input = do
  assert (is_sha256_digest input.code_digest) (other "Invalid IDE token digest")
  assert (is_sha256_digest input.session_digest) (other "Invalid IDE token digest")
  transaction (redeem_code_body input)

-- The session is not revoked and has not expired.
unfoldable pub is_usable : Date → IdeAccessSession → Bool
unfolding is_live_session
is_usable now s = is_live_session s && not (leb s.expires_at now)

unfoldable pub resolve_session : String → Date → Exec Database IdeAccessSession
unfolding is_usable epoch_current is_open_at
resolve_session session_digest now = do
  assert (is_sha256_digest session_digest) (other "Invalid IDE token digest")
  row ← gets (λ db. find_row (λ s. s.session_digest == session_digest) db.ide_access_sessions)
  session ← required_where (is_usable now) row invalid_session
  metadata ← gets (λ db. db.metadata)
  required_where (epoch_current session.security_epoch) metadata invalid_session
  workspace ← gets (λ db. find_row (λ w. w.id == session.workspace_id) db.workspaces)
  required_where (is_open_at session.workspace_state_version now) workspace invalid_session
  pure session
