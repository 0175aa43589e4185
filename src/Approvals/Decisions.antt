-- ===== src/Approvals/Decisions.antt =====
-- What becomes of an approval request that is decided, and why.
use mathlib.Core.Option.{some-injective}
use remote_agent_devbox.Common.{
  ◌≤◌, ◌<◌, inl, inr, ◌≡◌, refl, true, false, Option, none, some, leb, ◌||◌, ◌!=◌, ◌==◌, ◌&&◌,
  string_eq, nat_eq, find_row, update, arith, Bool-cases, Ensures, Ensures-weaken, ◌∙◌, ap, sym,
  find_row_holds, find_row_narrow,
}
use remote_agent_devbox.Schema.Workspace.{Uuid, Date}
use remote_agent_devbox.Schema.Security.{InstanceSecurityMetadata}
use remote_agent_devbox.Schema.Artifact.{ReviewSnapshot}
use remote_agent_devbox.Schema.Approval.{
  ApprovalRequest, ApprovalStatus, ApprovalStaleReason, approval_status_eq,
}
use remote_agent_devbox.Schema.Database.{Database}
use remote_agent_devbox.Approvals.{
  metadata_differs, review_stale_reason, find_stale_reason, stale_reason_at, decided, get, decide,
}
use remote_agent_devbox.Approvals.Effects.{decide-Decided}

module _ (old : ApprovalRequest) where
  -- The instance's security context is the one of the request.
  abbrev pub SamePosture : InstanceSecurityMetadata → Type 0
  SamePosture m =
      (m.security_epoch ≡ old.security_epoch)
      × (m.deployment_tier ≡ old.deployment_tier)
      × (m.security_posture_hash ≡ old.security_posture_hash)

  -- The review's security context is the one of the request.
  abbrev pub SameContext : ReviewSnapshot → Type 0
  SameContext r =
      (r.security_epoch ≡ old.security_epoch)
      × (r.deployment_tier ≡ old.deployment_tier)
      × (r.security_posture_hash ≡ old.security_posture_hash)

  module _ (db : Database) where
    abbrev pub IsReview : ReviewSnapshot → Type 0
    IsReview r = find_row (λ s. s.id == old.review_snapshot_id) db.review_snapshots ≡ some r

    abbrev pub PostureCurrent : Type 0
    PostureCurrent = (m : InstanceSecurityMetadata) × (db.metadata ≡ some m) × SamePosture m

    abbrev pub ReviewCurrent : Type 0
    ReviewCurrent =
        (r : ReviewSnapshot) × IsReview r
        × (r.review_digest ≡ old.review_digest)
        × (r.validator_profile_digest ≡ old.validator_profile_digest)
        × SameContext r

    -- Why the request is stale at this time.
    pub data Outdated (at : Date) : ApprovalStaleReason → Type 0 where
      expired : old.expires_at ≤ at → Outdated at ApprovalStaleReason.expired
      posture_missing :
          db.metadata ≡ none → Outdated at ApprovalStaleReason.security_posture_changed
      posture_changed :
          (m : InstanceSecurityMetadata)
          → db.metadata ≡ some m
          → ¬ SamePosture m
          → Outdated at ApprovalStaleReason.security_posture_changed
      review_missing :
          find_row (λ s. s.id == old.review_snapshot_id) db.review_snapshots ≡ none
          → Outdated at ApprovalStaleReason.artifact_changed
      review_changed :
          (r : ReviewSnapshot)
          → IsReview r
          → ¬ (r.review_digest ≡ old.review_digest)
          → Outdated at ApprovalStaleReason.artifact_changed
      profile_changed :
          (r : ReviewSnapshot)
          → IsReview r
          → ¬ (r.validator_profile_digest ≡ old.validator_profile_digest)
          → Outdated at ApprovalStaleReason.validator_changed
      context_changed :
          (r : ReviewSnapshot)
          → IsReview r
          → ¬ SameContext r
          → Outdated at ApprovalStaleReason.security_posture_changed

    metadata-Outdated :
        (at : Date) (o : Option InstanceSecurityMetadata)
        → db.metadata ≡ o
        → metadata_differs old o ≡ true
        → Outdated at ApprovalStaleReason.security_posture_changed
    metadata-Outdated at none row h = posture_missing row
    metadata-Outdated at (some m) row h =
        posture_changed m row (λ (e, t, p). ground (arith, h, e, t, p))

    metadata_current :
        (o : Option InstanceSecurityMetadata)
        → db.metadata ≡ o
        → metadata_differs old o ≡ false
        → PostureCurrent
    metadata_current none row h = ground (arith, h)
    metadata_current (some m) row h =
        (m, row, (ground (arith, h), ground (arith, h), ground (arith, h)))

    -- What a stale reason, or none, says of the request.
    abbrev ReviewSays : Date → Option ApprovalStaleReason → Type 0
    ReviewSays at none = ReviewCurrent
    ReviewSays at (some reason) = Outdated at reason

    abbrev Says : Date → Option ApprovalStaleReason → Type 0
    Says at none = (at < old.expires_at) × PostureCurrent × ReviewCurrent
    Says at (some reason) = Outdated at reason

    review_says :
        (at : Date) (o : Option ReviewSnapshot)
        → find_row (λ s. s.id == old.review_snapshot_id) db.review_snapshots ≡ o
        → ReviewSays at (review_stale_reason old o)
    review_says at none row = review_missing row
    review_says at (some r) row = elim (Bool-cases (r.review_digest != old.review_digest)) [
      | inl digest ↦ rw digest (review_changed r row (λ e. ground (arith, digest, e)))
      | inr same_digest ↦
          rw same_digest
            (elim (Bool-cases (r.validator_profile_digest != old.validator_profile_digest)) [
              | inl profile ↦ rw profile (profile_changed r row (λ e. ground (arith, profile, e)))
              | inr same_profile ↦
                  rw same_profile
                    (elim (Bool-cases (
                      r.security_epoch != old.security_epoch
                      || r.deployment_tier != old.deployment_tier
                      || r.security_posture_hash != old.security_posture_hash)) [
                        | inl context ↦
                            rw context (
                              context_changed r row (λ (e, t, p). ground (arith, context, e, t, p)))
                        | inr same_context ↦ rw same_context (
                          r,
                          row,
                          ground (arith, same_digest),
                          ground (arith, same_profile),
                          (
                            ground (arith, same_context),
                            ground (arith, same_context),
                            ground (arith, same_context),
                          ),
                        )
                      ])
            ])
    ]

    with_posture :
        (at : Date) (o : Option ApprovalStaleReason)
        → at < old.expires_at
        → PostureCurrent
        → ReviewSays at o
        → Says at o
    with_posture at none soon posture review = (soon, posture, review)
    with_posture at (some reason) soon posture outdated = outdated

    says : (at : Date) → Says at (stale_reason_at at old db)
    unfolding stale_reason_at find_stale_reason
    says at = elim (Bool-cases (leb old.expires_at at)) [
      | inl late ↦ rw late (expired (ground (arith, late)))
      | inr soon ↦ rw soon (elim (Bool-cases (metadata_differs old db.metadata)) [
        | inl differs ↦ rw differs (metadata-Outdated at db.metadata refl differs)
        | inr same ↦ rw same (
            with_posture at _ (ground (arith, soon)) (metadata_current db.metadata refl same)
              (review_says at _ refl))
      ])
    ]

    -- How a decision at this time is written.
    pub data Settlement (decision : ApprovalStatus) (by : Uuid) (at : Date)
        : (ApprovalRequest → ApprovalRequest) → Type 0 where
      as_asked :
          at < old.expires_at
          → PostureCurrent
          → ReviewCurrent
          → Settlement decision by at (λ r. record r {
            status = decision;
            stale_reason = none;
            decided_at = some at;
            decided_by = some by;
          })
      as_stale :
          (reason : ApprovalStaleReason)
          → Outdated at reason
          → Settlement decision by at (λ r. record r {
            status = ApprovalStatus.stale;
            stale_reason = some reason;
            decided_at = some at;
            decided_by = none;
          })

    settlement :
        (decision : ApprovalStatus) (by : Uuid) (at : Date) (o : Option ApprovalStaleReason)
        → Says at o
        → Settlement decision by at (decided o decision by at)
    unfolding decided
    settlement decision by at none (soon, posture, review) = as_asked soon posture review
    settlement decision by at (some reason) outdated = as_stale reason outdated

-- A decision on a pending request, as it has been written.
pub record Decision (id : Uuid) (decision : ApprovalStatus) (by : Uuid) (at : Date) (db : Database)
    (approval : ApprovalRequest) (db' : Database) : Type 0 where
  pub old : ApprovalRequest
  pub old_row : find_row (λ r. r.id == id) db.approval_requests ≡ some old
  pub was_pending : old.status ≡ ApprovalStatus.pending
  pub set : ApprovalRequest → ApprovalRequest
  pub settled : Settlement old db decision by at set
  pub result : approval ≡ set old
  pub written : db' ≡ record db {
    approval_requests =
        update (λ r. r.id == id && r.status == ApprovalStatus.pending) set db.approval_requests;
  }

-- A decision is made only on a request that is pending, and writes the pending row of that id
-- alone. The request is decided as asked for only before its expiry and while the instance's
-- security metadata and the review are what it names; otherwise it becomes stale, for a reason
-- that holds. When it throws, nothing has changed.
pub decide-Decision :
    (id : Uuid) (decision : ApprovalStatus) (by : Uuid) (at : Date) (db : Database)
    → Ensures (Decision id decision by at db) (λ _ db'. db' ≡ db) (decide id decision by at) db
unfolding get approval_status_eq
decide-Decision id decision by at db =
    Ensures-weaken _ _
      (λ approval db' (old, d). record {
        old = old;
        old_row = d.old_row;
        was_pending = d.was_pending;
        set = decided (stale_reason_at at old db) decision by at;
        settled = settlement old db decision by at _ (says old db at);
        result =
            let pending : (old.id == id && old.status == ApprovalStatus.pending) ≡ true =
              let same = find_row_holds _ db.approval_requests d.old_row in
              rw d.was_pending (ground (arith, same)) in
            let first =
              find_row_narrow _ (λ r. r.id == id && r.status == ApprovalStatus.pending)
                db.approval_requests (λ y h. ground (arith, h)) d.old_row pending in
            let (x, found, made, _) = d.swapped in
            made
            ∙ ap (decided (stale_reason_at at old db) decision by at)
                (some-injective x old (sym found ∙ first));
        written = d.swapped.3;
      })
      (λ _ _ kept. kept) (decide-Decided id decision by at db)
