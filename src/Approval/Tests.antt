-- ===== src/Approval/Tests.antt =====
-- internal/controller/application_controller.go on concrete approvals.
use kuvryn_sync.Prelude.{
  String, ◌≡◌, refl, ◌⊎◌, true, false, Option, none, some, [], ◌∷◌, ◌++◌, arith, ◌==◌, eq_iff,
  if◌then◌else◌, lookup, trim,
}
use kuvryn_sync.Api.{Phase, Approval, Revision, Application}
use kuvryn_sync.Annotations.{
  Annotations, approve_digest, approved_revision, approved_by, approved_at, approved_digest,
  rollback_revision, rollback_target_revision, rollback_requested_by, rollback_requested_at,
  rollback_target_hash,
}
use kuvryn_sync.Rollout.{RolloutState}
use kuvryn_sync.Rollback.{RollbackRequest, rollback_request_of, is_active}
use kuvryn_sync.Samples.{planned, application, clock, fingerprint}
use kuvryn_sync.Webhook.{UserInfo, Outcome, default}
use kuvryn_sync.Approval.{manual_approval, approved_since_request, rollout_approval}
use kuvryn_sync.Approval.Covers.{IsManual}
use kuvryn_sync.Approval.Requested.{IsSinceRequest, IsRequested, rollout_approval-covers}
use kuvryn_sync.Approval.Journey.{approval_by, default-then-manual_approval}

abbrev ada : UserInfo
ada = record { username = "ada"; groups = [] }

abbrev revision : Revision
revision = planned Phase.awaiting_approval "shop-1" "abc" 1

abbrev approved : Annotations
approved =
    (approved_revision, "shop-1")
    ∷ (approved_by, "ada")
    ∷ (approved_at, "noon")
    ∷ (approved_digest, "digest-1")
    ∷ []

abbrev rolling_back : Annotations
rolling_back =
    (rollback_revision, "abc")
    ∷ (rollback_target_revision, "shop-1")
    ∷ (rollback_requested_by, "bob")
    ∷ (rollback_requested_at, "one")
    ∷ (rollback_target_hash, "sum of state-1")
    ∷ []

abbrev by_bob : Approval
by_bob = record {
  approved_by = "bob";
  approved_at = 13;
  plan_digest = "digest-1";
  desired_state_hash = "state-1";
}

-- An approval from before the request does not count: the request's own does.
abbrev both : Application
both = application (approved ++ rolling_back)

abbrev request : RollbackRequest
request = record { target = "abc"; from = ""; kind = "" }

bob_approves :
    rollout_approval fingerprint clock both revision request RolloutState.not_started
    ≡ (some by_bob, false)
unfolding rollout_approval is_active approved_since_request lookup
    kuvryn_sync.Rollback.rollback_approval kuvryn_sync.Rollback.held_by
    kuvryn_sync.Annotations.binding
bob_approves = refl

rollout_approval-covers_example :
    (false ≡ false)
    × ((IsManual both revision RolloutState.not_started by_bob
          × ((is_active request ≡ false) ⊎ IsSinceRequest clock both))
        ⊎ ((both.sync.automatic ≡ false)
            × IsRequested fingerprint clock both request revision RolloutState.not_started by_bob))
rollout_approval-covers_example =
    rollout_approval-covers fingerprint clock both revision request RolloutState.not_started by_bob
      false bob_approves

abbrev changed : Revision
changed = record revision { desired_state_hash = "state-2" }

a_changed_target_is_not_approved :
    rollout_approval fingerprint clock both changed request RolloutState.not_started ≡ (none, true)
unfolding rollout_approval is_active approved_since_request lookup
    kuvryn_sync.Rollback.rollback_approval kuvryn_sync.Rollback.held_by
    kuvryn_sync.Annotations.binding
a_changed_target_is_not_approved = refl

abbrev reader : String → String → Option Revision
reader namespace name = if name == "shop-1" then some revision else none

abbrev approving : Annotations
approving = (approved_revision, "shop-1") ∷ (approve_digest, "digest-1") ∷ []

default-then-manual_approval_example :
    (n : Annotations) × (default reader fingerprint clock 12 ada (application approving) []
      ≡ Outcome.admitted n)
    × (manual_approval clock
          (record (application approving) { annotations = n })
          revision
          RolloutState.not_started
        ≡ (some (approval_by ada 12 revision), false))
unfolding lookup kuvryn_sync.Webhook.rollback_changed trim kuvryn_sync.Webhook.authenticated
    kuvryn_sync.Rollback.held_by
default-then-manual_approval_example =
    default-then-manual_approval reader fingerprint clock 12 ada (application approving) [] revision
      RolloutState.not_started refl refl refl refl (ground (arith, eq_iff "shop-1" "")) refl refl
      (ground (arith, eq_iff "digest-1" "")) refl refl
