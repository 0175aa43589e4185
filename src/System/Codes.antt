-- ===== src/System/Codes.antt =====
-- What an action can do to the table of IDE access codes.
pub mod Laws
use remote_agent_devbox.Common.{
  Bool, ◌≡◌, true, false, some, List, ◌∷◌, ◌==◌, ◌&&◌, string_eq, exists, update, ap, arith,
}
use remote_agent_devbox.Schema.Workspace.{Uuid, Date}
use remote_agent_devbox.Schema.Ide.{IdeAccessCode}
use remote_agent_devbox.Schema.Database.{Database}
use remote_agent_devbox.IdeAccess.{is_live_code, new_code, ide_access_codes_accepts}
use remote_agent_devbox.Outbox.Effects as OutboxEffects
use remote_agent_devbox.SecurityMigration.{invalidate_all}
use remote_agent_devbox.System.Change.{Change}

abbrev pub invalidate : Date → IdeAccessCode → IdeAccessCode
invalidate at c = record c { invalidated_at = some at }

abbrev pub consume : Date → IdeAccessCode → IdeAccessCode
consume at c = record c { consumed_at = some at }

abbrev pub of_workspace : Uuid → IdeAccessCode → Bool
of_workspace id c = c.workspace_id == id && is_live_code c

pub data CodesStep (xs ys : List IdeAccessCode) : Type 0 where
  kept : ys ≡ xs → CodesStep xs ys
  issued :
      (workspace_id : Uuid) (at : Date) (code : IdeAccessCode)
      → code.workspace_id ≡ workspace_id
      → exists
          (λ c. c.code_digest == code.code_digest)
          (update (of_workspace workspace_id) (invalidate at) xs)
        ≡ false
      → ys ≡ code ∷ update (of_workspace workspace_id) (invalidate at) xs
      → CodesStep xs ys
  consumed :
      (id : Uuid) (at : Date)
      → ys ≡ update (λ c. c.id == id && is_live_code c) (consume at) xs
      → CodesStep xs ys
  invalidated : (at : Date) → ys ≡ update is_live_code (invalidate at) xs → CodesStep xs ys

pub fresh_digest :
    (db : Database) (row : IdeAccessCode)
    → ide_access_codes_accepts db row ≡ true
    → exists (λ c. c.code_digest == row.code_digest) db.ide_access_codes ≡ false
unfolding ide_access_codes_accepts
fresh_digest db row h = ground arith

pub Change-CodesStep :
    {db db' : Database} → Change db db' → CodesStep db.ide_access_codes db'.ide_access_codes
unfolding new_code invalidate_all
Change-CodesStep (Change.same w) = kept (ap (λ (d : Database). d.ide_access_codes) w)
Change-CodesStep (Change.repository_added r w) = kept (ap (λ (d : Database). d.ide_access_codes) w)
Change-CodesStep (Change.workspace_added input at x e a w) =
    kept (ap (λ (d : Database). d.ide_access_codes) w)
Change-CodesStep (Change.workspace_updated id v f x k u) =
    kept (ap (λ (d : Database). d.ide_access_codes) u.3)
Change-CodesStep (Change.metadata_seeded t h n w) =
    kept (ap (λ (d : Database). d.ide_access_codes) w)
Change-CodesStep (Change.metadata_set old m e a b c w) =
    kept (ap (λ (d : Database). d.ide_access_codes) w)
Change-CodesStep (Change.state_requested i j d at r c q) =
    kept (ap (λ (d : Database). d.ide_access_codes) q.written)
Change-CodesStep (Change.command_claimed now r (OutboxEffects.idle e f w)) =
    kept (ap (λ (d : Database). d.ide_access_codes) w)
Change-CodesStep (Change.command_claimed now r (OutboxEffects.one c e f w)) =
    kept (ap (λ (d : Database). d.ide_access_codes) w)
Change-CodesStep (Change.command_succeeded id at f) =
    kept (ap (λ (d : Database). d.ide_access_codes) f.2)
Change-CodesStep (Change.command_failed id e r at f) =
    kept (ap (λ (d : Database). d.ide_access_codes) f.2)
Change-CodesStep (Change.commands_recovered b at w) =
    kept (ap (λ (d : Database). d.ide_access_codes) w)
Change-CodesStep (Change.approval_requested i a r m q) =
    kept (ap (λ (d : Database). d.ide_access_codes) q.written)
Change-CodesStep (Change.approval_decided id d by at a old f q) =
    kept (ap (λ (d : Database). d.ide_access_codes) q.swapped.3)
Change-CodesStep (Change.operation_created i op b) =
    kept (ap (λ (d : Database). d.ide_access_codes) b.3)
Change-CodesStep (Change.operation_moved id e n v op al t) =
    kept (ap (λ (d : Database). d.ide_access_codes) t.3)
Change-CodesStep (Change.lease_reserved i l o m q) =
    kept (ap (λ (d : Database). d.ide_access_codes) q.written)
Change-CodesStep (Change.lease_issued id at x l m) =
    kept (ap (λ (d : Database). d.ide_access_codes) m.3)
Change-CodesStep (Change.lease_consumed id at l m) =
    kept (ap (λ (d : Database). d.ide_access_codes) m.3)
Change-CodesStep (Change.lease_failed id r l m) =
    kept (ap (λ (d : Database). d.ide_access_codes) m.3)
Change-CodesStep (Change.lease_uncertain id r l m) =
    kept (ap (λ (d : Database). d.ide_access_codes) m.3)
Change-CodesStep (Change.code_issued i code c q) =
    issued i.workspace_id i.created_at code (ap (λ (k : IdeAccessCode). k.workspace_id) q.code_row)
      (fresh_digest _ code q.accepted) (ap (λ (d : Database). d.ide_access_codes) q.written)
Change-CodesStep (Change.code_redeemed i s code c q) =
    consumed code.id i.redeemed_at (ap (λ (d : Database). d.ide_access_codes) q.written)
Change-CodesStep (Change.task_created t w) = kept (ap (λ (d : Database). d.ide_access_codes) w)
Change-CodesStep (Change.task_moved id from f t m) =
    kept (ap (λ (d : Database). d.ide_access_codes) m.3)
Change-CodesStep (Change.artifact_added input at added) =
    kept (ap (λ (d : Database). d.ide_access_codes) added.written)
Change-CodesStep (Change.artifact_decided id f r leaves (_, _, _, w)) =
    kept (ap (λ (d : Database). d.ide_access_codes) w)
Change-CodesStep (Change.review_added platform row now artifact reviewed) =
    kept (ap (λ (d : Database). d.ide_access_codes) reviewed.written)
Change-CodesStep (Change.audit_appended e w) = kept (ap (λ (d : Database). d.ide_access_codes) w)
Change-CodesStep (Change.migrated i r c f g q) =
    invalidated i.completed_at (ap (λ (d : Database). d.ide_access_codes) q.written)
