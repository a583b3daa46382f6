-- ===== src/Approval/Journey.antt =====
-- An approval on its way through two components: internal/webhook/v1alpha1/application_webhook.go
-- stores it, and internal/controller/application_controller.go acts on it.
use kuvryn_sync.Prelude.{
  ℕ, String, ◌≡◌, refl, sym, ap, ◌∙◌, ◌≢◌, true, false, Option, none, some, arith, ◌==◌, eq_iff,
  eq_refl, lookup,
}
use kuvryn_sync.Api.{Approval, Revision, Application}
use kuvryn_sync.Annotations.{Annotations, given, approve_digest, approved_revision, Rfc3339, Sum}
use kuvryn_sync.Rollout.{RolloutState}
use kuvryn_sync.Rollback.{held_by}
use kuvryn_sync.Webhook.{UserInfo, authenticated, Outcome, default, rollback_changed}
use kuvryn_sync.Webhook.Stored.{default-admits}
use kuvryn_sync.Webhook.Approval.{IsApprovedBy}
use kuvryn_sync.Approval.{manual_approval, manual_approval_at}
use kuvryn_sync.Approval.Covers.{gives}

named : (user : UserInfo) → authenticated user ≡ true → user.username == "" ≡ false
unfolding authenticated
named user h = ground (arith, h)

abbrev same_revision : Revision → Option Revision → Revision
same_revision r none = r
same_revision r (some s) = s

abbrev pub approval_by : UserInfo → ℕ → Revision → Approval
approval_by user now revision = record {
  approved_by = user.username;
  approved_at = now;
  plan_digest = revision.status.plan_digest;
  desired_state_hash = revision.desired_state_hash;
}

module _ (reader : String → String → Option Revision) (sum : Sum) (time : Rfc3339) (now : ℕ) where
  stored-IsEffective :
      (user : UserInfo) (obj : Application) (requested : Option String) (n : Annotations)
      (revision : Revision) (rollout : RolloutState)
      → time.parse (time.format now) ≡ some now
      → IsApprovedBy reader sum time now user obj requested n
      → reader obj.namespace (given approved_revision n) ≡ some revision
      → revision.name ≡ given approved_revision n
      → held_by revision ≡ none
      → manual_approval time (record obj { annotations = n }) revision rollout
        ≡ gives (approval_by user now revision) false
  unfolding manual_approval manual_approval_at
  stored-IsEffective user obj requested n revision rollout clock
        (a, by, at, (r, found, owned, planned, digest, agrees)) k name free =
      let same : r ≡ revision = ap (same_revision revision) (sym found ∙ k) in
      let is_revision : given approved_revision n == revision.name ≡ true =
        (eq_iff (given approved_revision n) revision.name).1 (sym name) in
      rw
        (
          is_revision,
          free,
          at,
          clock,
          by,
          named user a,
          digest,
          same,
          eq_refl revision.status.plan_digest,
        )
        refl

  -- A user who is authenticated approves the current plan of a Revision by its digest, and leaves
  -- the rollback request as it is: the webhook admits the object, and while the Revision is as it
  -- was and nothing holds it, the controller gets the approval from what is stored: by that user, at
  -- that time, of that plan and of the Revision's desired state. A time that is formatted has to be
  -- parsed to itself.
  pub default-then-manual_approval :
      (user : UserInfo) (obj : Application) (old : Annotations) (revision : Revision)
      (rollout : RolloutState)
      → time.parse (time.format now) ≡ some now
      → rollback_changed old obj.annotations ≡ false
      → authenticated user ≡ true
      → revision.name ≡ given approved_revision obj.annotations
      → revision.name ≢ ""
      → reader obj.namespace revision.name ≡ some revision
      → revision.application ≡ obj.name
      → revision.status.plan_digest ≢ ""
      → lookup approve_digest obj.annotations ≡ some revision.status.plan_digest
      → held_by revision ≡ none
      → (n : Annotations) × (default reader sum time now user obj old ≡ Outcome.admitted n)
        × (manual_approval time (record obj { annotations = n }) revision rollout
            ≡ (some (approval_by user now revision), false))
  default-then-manual_approval user obj old revision rollout clock c a name some_name found owned
        planned asked free =
      let (n, stored, by, same) =
        default-admits reader sum time now user obj old revision c a (rw (sym name) some_name)
          (rw (sym name) found) owned planned asked in
      (
        n,
        stored,
        stored-IsEffective user obj (some revision.status.plan_digest) n revision rollout clock by
            (rw (same, sym name) found) (name ∙ sym same) free,
      )
