-- ===== src/System/Epoch.antt =====
-- What an action can do to the instance's security metadata, and what the epoch says of them.
use remote_agent_devbox.Common.{
  ℕ, ◌+◌, ◌<◌, ◌⊎◌, inl, inr, ◌≡◌, refl, sym, ◌∙◌, Option, some, String, List, ap, arith,
}
use mathlib.Core.Option.{some-injective}
use remote_agent_devbox.Schema.Workspace.{Date}
use remote_agent_devbox.Schema.Security.{InstanceSecurityMetadata}
use remote_agent_devbox.Schema.Database.{Database}
use remote_agent_devbox.Metadata.{new_row, get_or}
use remote_agent_devbox.Outbox.Effects as OutboxEffects
use remote_agent_devbox.SecurityMigration.{CommitInput, migrated, invalidate_all}
use remote_agent_devbox.System.{Action, run, run_keeps}
use remote_agent_devbox.System.Change.{Change, perform-Change}

pub data MetadataStep (x y : Option InstanceSecurityMetadata) : Type 0 where
  kept : y ≡ x → MetadataStep x y
  seeded :
      (tier : ℕ) (hash : String) (now : Date)
      → y ≡ some (get_or (new_row tier hash now) x)
      → MetadataStep x y
  kept_epoch :
      (old m : InstanceSecurityMetadata)
      → x ≡ some old
      → m.security_epoch ≡ old.security_epoch
      → m.deployment_tier ≡ old.deployment_tier
      → m.security_posture_hash ≡ old.security_posture_hash
      → y ≡ some m
      → MetadataStep x y
  rotated :
      (input : CommitInput) (old : InstanceSecurityMetadata)
      → x ≡ some old
      → old.security_epoch ≡ input.expected_epoch
      → y ≡ some (migrated input old)
      → MetadataStep x y

pub Change-MetadataStep :
    {db db' : Database} → Change db db' → MetadataStep db.metadata db'.metadata
unfolding invalidate_all
Change-MetadataStep (Change.same w) = kept (ap (λ (d : Database). d.metadata) w)
Change-MetadataStep (Change.repository_added r w) = kept (ap (λ (d : Database). d.metadata) w)
Change-MetadataStep (Change.workspace_added input at x e a w) =
    kept (ap (λ (d : Database). d.metadata) w)
Change-MetadataStep (Change.workspace_updated id v f x k u) =
    kept (ap (λ (d : Database). d.metadata) u.3)
Change-MetadataStep (Change.metadata_seeded t h n w) =
    seeded t h n (ap (λ (d : Database). d.metadata) w)
Change-MetadataStep (Change.metadata_set old m e a b c w) =
    kept_epoch old m e a b c (ap (λ (d : Database). d.metadata) w)
Change-MetadataStep (Change.state_requested i j d at r c q) =
    kept (ap (λ (d : Database). d.metadata) q.written)
Change-MetadataStep (Change.command_claimed now r (OutboxEffects.idle e f w)) =
    kept (ap (λ (d : Database). d.metadata) w)
Change-MetadataStep (Change.command_claimed now r (OutboxEffects.one c e f w)) =
    kept (ap (λ (d : Database). d.metadata) w)
Change-MetadataStep (Change.command_succeeded id at f) =
    kept (ap (λ (d : Database). d.metadata) f.2)
Change-MetadataStep (Change.command_failed id e r at f) =
    kept (ap (λ (d : Database). d.metadata) f.2)
Change-MetadataStep (Change.commands_recovered b at w) = kept (ap (λ (d : Database). d.metadata) w)
Change-MetadataStep (Change.approval_requested i a r m q) =
    kept (ap (λ (d : Database). d.metadata) q.written)
Change-MetadataStep (Change.approval_decided id d by at a old f q) =
    kept (ap (λ (d : Database). d.metadata) q.swapped.3)
Change-MetadataStep (Change.operation_created i op b) = kept (ap (λ (d : Database). d.metadata) b.3)
Change-MetadataStep (Change.operation_moved id e n v op al t) =
    kept (ap (λ (d : Database). d.metadata) t.3)
Change-MetadataStep (Change.lease_reserved i l o m q) =
    kept (ap (λ (d : Database). d.metadata) q.written)
Change-MetadataStep (Change.lease_issued id at x l m) = kept (ap (λ (d : Database). d.metadata) m.3)
Change-MetadataStep (Change.lease_consumed id at l m) = kept (ap (λ (d : Database). d.metadata) m.3)
Change-MetadataStep (Change.lease_failed id r l m) = kept (ap (λ (d : Database). d.metadata) m.3)
Change-MetadataStep (Change.lease_uncertain id r l m) = kept (ap (λ (d : Database). d.metadata) m.3)
Change-MetadataStep (Change.code_issued i code c q) =
    kept (ap (λ (d : Database). d.metadata) q.written)
Change-MetadataStep (Change.code_redeemed i s code c q) =
    kept (ap (λ (d : Database). d.metadata) q.written)
Change-MetadataStep (Change.task_created t w) = kept (ap (λ (d : Database). d.metadata) w)
Change-MetadataStep (Change.task_moved id from f t m) = kept (ap (λ (d : Database). d.metadata) m.3)
Change-MetadataStep (Change.artifact_added input at added) =
    kept (ap (λ (d : Database). d.metadata) added.written)
Change-MetadataStep (Change.artifact_decided id f r leaves (_, _, _, w)) =
    kept (ap (λ (d : Database). d.metadata) w)
Change-MetadataStep (Change.review_added platform row now artifact reviewed) =
    kept (ap (λ (d : Database). d.metadata) reviewed.written)
Change-MetadataStep (Change.audit_appended e w) = kept (ap (λ (d : Database). d.metadata) w)
Change-MetadataStep (Change.migrated i r c f g q) =
    rotated i c q.metadata_row q.epoch (ap (λ (d : Database). d.metadata) q.written)

-- The metadata is there; its epoch is above the epoch of `old`, or the epoch, the tier and the posture
-- hash are those of `old`.
pub record Follows (old : InstanceSecurityMetadata) (x : Option InstanceSecurityMetadata)
    : Type 0 where
  pub current : InstanceSecurityMetadata
  pub row : x ≡ some current
  pub follows :
      (old.security_epoch < current.security_epoch)
      ⊎ ((current.security_epoch ≡ old.security_epoch)
          × (current.deployment_tier ≡ old.deployment_tier)
          × (current.security_posture_hash ≡ old.security_posture_hash))

migrated-epoch :
    (input : CommitInput) (m : InstanceSecurityMetadata)
    → (migrated input m).security_epoch ≡ input.expected_epoch + 1
unfolding migrated
migrated-epoch input m = refl

MetadataStep-Follows :
    {old : InstanceSecurityMetadata} {x y : Option InstanceSecurityMetadata}
    → MetadataStep x y
    → Follows old x
    → Follows old y
MetadataStep-Follows (kept w) f = record {
  current = f.current;
  row = w ∙ f.row;
  follows = f.follows;
}
MetadataStep-Follows (seeded tier hash now w) f = record {
  current = f.current;
  row = rw w (rw f.row refl);
  follows = f.follows;
}
MetadataStep-Follows (kept_epoch was m e same_epoch same_tier same_hash w) f =
    let q : was ≡ f.current = some-injective was f.current (sym e ∙ f.row) in
    let epoch = same_epoch ∙ ap (λ (n : InstanceSecurityMetadata). n.security_epoch) q in
    let tier = same_tier ∙ ap (λ (n : InstanceSecurityMetadata). n.deployment_tier) q in
    let hash = same_hash ∙ ap (λ (n : InstanceSecurityMetadata). n.security_posture_hash) q in
    record {
      current = m;
      row = w;
      follows = elim f.follows [
        | inl above ↦ inl (omega arith)
        | inr (a, b, c) ↦ inr (epoch ∙ a, tier ∙ b, hash ∙ c)
      ];
    }
MetadataStep-Follows {old} (rotated input was e same w) f =
    let q : was ≡ f.current = some-injective was f.current (sym e ∙ f.row) in
    let epoch : input.expected_epoch ≡ f.current.security_epoch =
      sym same ∙ ap (λ (n : InstanceSecurityMetadata). n.security_epoch) q in
    let up = migrated-epoch input was in
    record {
      current = migrated input was;
      row = w;
      follows = elim f.follows [
        | inl above ↦ inl (omega arith)
        | inr (a, _, _) ↦ inl (omega arith)
      ];
    }

-- Whatever the requests, the security metadata stays, its epoch never decreases, and its tier and
-- posture hash change only together with the epoch.
pub run-Follows :
    (old : InstanceSecurityMetadata) (actions : List Action) (db : Database)
    → db.metadata ≡ some old
    → Follows old (run actions db).metadata
run-Follows old actions db row =
    run_keeps (λ d. Follows old d.metadata)
      (λ a d. MetadataStep-Follows (Change-MetadataStep (perform-Change a d))) actions db
      (record { current = old; row = row; follows = inr (refl, refl, refl) })
