-- ===== src/Webhook/Tests.antt =====
-- internal/webhook/v1alpha1/application_webhook.go on concrete requests.
use kuvryn_sync.Prelude.{
  String, ◌≡◌, refl, Option, none, some, [], ◌∷◌, ◌==◌, if◌then◌else◌, lookup, insert, delete, trim,
}
use kuvryn_sync.Api.{Phase, Revision}
use kuvryn_sync.Annotations.{
  Annotations, approve_digest, approved_revision, approved_by, approved_at, approved_digest,
  rollback_revision, rollback_target_revision,
}
use kuvryn_sync.Samples.{planned, application, clock, fingerprint}
use kuvryn_sync.Webhook.{UserInfo, authenticated, Rejection, Outcome, default, rollback_changed}
use kuvryn_sync.Webhook.Record.{IsElsewhere}
use kuvryn_sync.Webhook.Approval.{IsAdmitted}
use kuvryn_sync.Webhook.Rollback.{IsRequestRecorded}
use kuvryn_sync.Webhook.Stored.{webhook_keys, default-records}

abbrev ada : UserInfo
ada = record { username = "ada"; groups = "system:authenticated" ∷ [] }

abbrev nobody : UserInfo
nobody = record { username = "eve"; groups = "system:unauthenticated" ∷ [] }

abbrev revision : Revision
revision = planned Phase.awaiting_approval "shop-1" "abc" 1

abbrev reader : String → String → Option Revision
reader namespace name = if name == "shop-1" then some revision else none

abbrev approving : Annotations
approving = (approved_revision, "shop-1") ∷ (approve_digest, "digest-1") ∷ []

-- The record of someone else, which the request brings along, does not survive.
abbrev forging : Annotations
forging = (approved_revision, "shop-1") ∷ (approved_by, "bob") ∷ (approved_digest, "digest-1") ∷ []

abbrev stored : Annotations
stored =
    (approved_revision, "shop-1")
    ∷ (approved_by, "ada")
    ∷ (approved_at, "noon")
    ∷ (approved_digest, "digest-1")
    ∷ []

ada_approves :
    default reader fingerprint clock 12 ada (application approving) [] ≡ Outcome.admitted stored
unfolding default kuvryn_sync.Webhook.record_rollback_requester rollback_changed trim lookup
    kuvryn_sync.Webhook.restore delete authenticated insert
ada_approves = refl

a_forgery_is_restored :
    default reader fingerprint clock 12 nobody
      (application forging)
      ((approved_revision, "shop-1") ∷ [])
    ≡ Outcome.admitted ((approved_revision, "shop-1") ∷ [])
unfolding default kuvryn_sync.Webhook.record_rollback_requester rollback_changed trim lookup
    kuvryn_sync.Webhook.restore delete
a_forgery_is_restored = refl

nobody_approves :
    default reader fingerprint clock 12 nobody (application approving) []
    ≡ Outcome.rejected Rejection.not_authenticated
unfolding default kuvryn_sync.Webhook.record_rollback_requester rollback_changed trim lookup
    kuvryn_sync.Webhook.restore delete authenticated
nobody_approves = refl

abbrev rolling_back : Annotations
rolling_back = (rollback_revision, " xyz ") ∷ (rollback_target_revision, "shop-1") ∷ []

another_source :
    default reader fingerprint clock 12 ada (application rolling_back) []
    ≡ Outcome.rejected Rejection.other_source
unfolding default kuvryn_sync.Webhook.record_rollback_requester rollback_changed trim lookup
another_source = refl

default-records_example :
    IsAdmitted reader fingerprint clock 12 ada
      (application approving)
      []
      (lookup approve_digest approving)
      stored
    × IsRequestRecorded reader fingerprint clock 12 ada (application approving) [] approving stored
    × IsElsewhere webhook_keys approving stored
default-records_example =
    default-records reader fingerprint clock 12 ada (application approving) [] stored ada_approves
