-- ===== src/System/Sessions.antt =====
-- What an action can do to the table of IDE access sessions.
pub mod Laws
use remote_agent_devbox.Common.{
  Bool, ◌≡◌, true, false, some, List, ◌∷◌, ◌==◌, ◌&&◌, string_eq, exists, update, ap, arith,
}
use remote_agent_devbox.Schema.Workspace.{Uuid, Date}
use remote_agent_devbox.Schema.Ide.{IdeAccessSession}
use remote_agent_devbox.Schema.Database.{Database}
use remote_agent_devbox.IdeAccess.{is_live_session, new_session, ide_access_sessions_accepts}
use remote_agent_devbox.Outbox.Effects as OutboxEffects
use remote_agent_devbox.SecurityMigration.{invalidate_all}
use remote_agent_devbox.System.Change.{Change}

abbrev pub revoke : Date → IdeAccessSession → IdeAccessSession
revoke at s = record s { revoked_at = some at }

abbrev pub of_workspace : Uuid → IdeAccessSession → Bool
of_workspace id s = s.workspace_id == id && is_live_session s

pub data SessionsStep (xs ys : List IdeAccessSession) : Type 0 where
  kept : ys ≡ xs → SessionsStep xs ys
  opened :
      (workspace_id : Uuid) (at : Date) (session : IdeAccessSession)
      → session.workspace_id ≡ workspace_id
      → exists
          (λ s. s.session_digest == session.session_digest)
          (update (of_workspace workspace_id) (revoke at) xs)
        ≡ false
      → ys ≡ session ∷ update (of_workspace workspace_id) (revoke at) xs
      → SessionsStep xs ys
  revoked : (at : Date) → ys ≡ update is_live_session (revoke at) xs → SessionsStep xs ys

pub fresh_digest :
    (db : Database) (row : IdeAccessSession)
    → ide_access_sessions_accepts db row ≡ true
    → exists (λ s. s.session_digest == row.session_digest) db.ide_access_sessions ≡ false
unfolding ide_access_sessions_accepts
fresh_digest db row h = ground arith

pub Change-SessionsStep :
    {db db' : Database}
    → Change db db'
    → SessionsStep db.ide_access_sessions db'.ide_access_sessions
unfolding new_session invalidate_all
Change-SessionsStep (Change.same w) = kept (ap (λ (d : Database). d.ide_access_sessions) w)
Change-SessionsStep (Change.repository_added r w) =
    kept (ap (λ (d : Database). d.ide_access_sessions) w)
Change-SessionsStep (Change.workspace_added input at x e a w) =
    kept (ap (λ (d : Database). d.ide_access_sessions) w)
Change-SessionsStep (Change.workspace_updated id v f x k u) =
    kept (ap (λ (d : Database). d.ide_access_sessions) u.3)
Change-SessionsStep (Change.metadata_seeded t h n w) =
    kept (ap (λ (d : Database). d.ide_access_sessions) w)
Change-SessionsStep (Change.metadata_set old m e a b c w) =
    kept (ap (λ (d : Database). d.ide_access_sessions) w)
Change-SessionsStep (Change.state_requested i j d at r c q) =
    kept (ap (λ (d : Database). d.ide_access_sessions) q.written)
Change-SessionsStep (Change.command_claimed now r (OutboxEffects.idle e f w)) =
    kept (ap (λ (d : Database). d.ide_access_sessions) w)
Change-SessionsStep (Change.command_claimed now r (OutboxEffects.one c e f w)) =
    kept (ap (λ (d : Database). d.ide_access_sessions) w)
Change-SessionsStep (Change.command_succeeded id at f) =
    kept (ap (λ (d : Database). d.ide_access_sessions) f.2)
Change-SessionsStep (Change.command_failed id e r at f) =
    kept (ap (λ (d : Database). d.ide_access_sessions) f.2)
Change-SessionsStep (Change.commands_recovered b at w) =
    kept (ap (λ (d : Database). d.ide_access_sessions) w)
Change-SessionsStep (Change.approval_requested i a r m q) =
    kept (ap (λ (d : Database). d.ide_access_sessions) q.written)
Change-SessionsStep (Change.approval_decided id d by at a old f q) =
    kept (ap (λ (d : Database). d.ide_access_sessions) q.swapped.3)
Change-SessionsStep (Change.operation_created i op b) =
    kept (ap (λ (d : Database). d.ide_access_sessions) b.3)
Change-SessionsStep (Change.operation_moved id e n v op al t) =
    kept (ap (λ (d : Database). d.ide_access_sessions) t.3)
Change-SessionsStep (Change.lease_reserved i l o m q) =
    kept (ap (λ (d : Database). d.ide_access_sessions) q.written)
Change-SessionsStep (Change.lease_issued id at x l m) =
    kept (ap (λ (d : Database). d.ide_access_sessions) m.3)
Change-SessionsStep (Change.lease_consumed id at l m) =
    kept (ap (λ (d : Database). d.ide_access_sessions) m.3)
Change-SessionsStep (Change.lease_failed id r l m) =
    kept (ap (λ (d : Database). d.ide_access_sessions) m.3)
Change-SessionsStep (Change.lease_uncertain id r l m) =
    kept (ap (λ (d : Database). d.ide_access_sessions) m.3)
Change-SessionsStep (Change.code_issued i code c q) =
    kept (ap (λ (d : Database). d.ide_access_sessions) q.written)
Change-SessionsStep (Change.code_redeemed i s code c q) =
    opened code.workspace_id i.redeemed_at s
      (ap (λ (k : IdeAccessSession). k.workspace_id) q.session_row) (fresh_digest _ s q.accepted)
      (ap (λ (d : Database). d.ide_access_sessions) q.written)
Change-SessionsStep (Change.task_created t w) =
    kept (ap (λ (d : Database). d.ide_access_sessions) w)
Change-SessionsStep (Change.task_moved id from f t m) =
    kept (ap (λ (d : Database). d.ide_access_sessions) m.3)
Change-SessionsStep (Change.artifact_added input at added) =
    kept (ap (λ (d : Database). d.ide_access_sessions) added.written)
Change-SessionsStep (Change.artifact_decided id f r leaves (_, _, _, w)) =
    kept (ap (λ (d : Database). d.ide_access_sessions) w)
Change-SessionsStep (Change.review_added platform row now artifact reviewed) =
    kept (ap (λ (d : Database). d.ide_access_sessions) reviewed.written)
Change-SessionsStep (Change.audit_appended e w) =
    kept (ap (λ (d : Database). d.ide_access_sessions) w)
Change-SessionsStep (Change.migrated i r c f g q) =
    revoked i.completed_at (ap (λ (d : Database). d.ide_access_sessions) q.written)
