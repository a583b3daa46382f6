-- ===== src/Rollback/Tests.antt =====
-- internal/controller/application_rollback.go on concrete Revisions.
use kuvryn_sync.Prelude.{
  ◌≡◌, refl, ◌≢◌, Bool, true, false, not, none, some, List, [], ◌∷◌, arith, ◌==◌, eq_iff, select,
  All, lookup, insert, trim,
}
use kuvryn_sync.Api.{Phase, HealthState, SyncState, Revision, Application}
use kuvryn_sync.Annotations.{rollback_revision, rollback_from, rollback_kind_key}
use kuvryn_sync.Retry.{retry_blocked}
use kuvryn_sync.Samples.{planned, application}
use kuvryn_sync.Rollback.{
  request_keys, RollbackRequest, rollback_request_of, request_keys, clear_rollback_request,
  record_rollback_intent, rollback_approval, held_by, hold_replaced, lift_hold, mark_replaced,
  RollbackHold, written_status, report_hold,
}
use kuvryn_sync.Rollback.Holds.{
  IsHeldFor, IsReplaced, accept_all, is_replaced, hold_replaced-holds, lift_hold-deploys,
}
use kuvryn_sync.Rollback.Abandon.{written_status-lem}

abbrev target : Revision
target = planned Phase.rolled_back "shop-1" "abc" 1

abbrev requested : Application
requested =
    application ((rollback_revision, " abc ") ∷ (rollback_from, "def") ∷ ("team", "web") ∷ [])

abbrev request : RollbackRequest
request = record { target = "abc"; from = "def"; kind = "" }

request_test : rollback_request_of requested ≡ request
unfolding rollback_request_of trim lookup
request_test = refl

intent_test : record_rollback_intent requested request ≡ (
  record { target = "abc"; from = "def"; kind = "manual" },
  application (
      (rollback_revision, "abc")
      ∷ (rollback_from, "def")
      ∷ ("team", "web")
      ∷ (rollback_kind_key, "manual")
      ∷ []),
  true,
)
unfolding record_rollback_intent trim lookup insert
intent_test = refl

abbrev replaced : List Revision
replaced =
    target
    ∷ planned Phase.rolling_back "shop-2" "def" 2
    ∷ planned Phase.awaiting_approval "shop-3" "def" 3
    ∷ planned Phase.healthy "shop-0" "000" 0
    ∷ []

-- The second write of the loop is refused.
abbrev refuses : Revision → Bool
refuses r = not (r.name == "shop-3")

a_refusal_ends_it : (hold_replaced refuses request target replaced).1 ≡ false
unfolding hold_replaced kuvryn_sync.Rollback.passes_over lookup mark_replaced
a_refusal_ends_it = refl

no_refusal_ends_it : (hold_replaced (accept_all request target) request target replaced).1 ≡ true
unfolding hold_replaced kuvryn_sync.Rollback.passes_over lookup
no_refusal_ends_it = refl

hold_replaced-holds_example :
    ((hold_replaced refuses request target replaced).1 ≡ true
      → All
          (λ r. IsReplaced request target r → IsHeldFor request r)
          (hold_replaced refuses request target replaced).0)
    × (select
          (λ r. not (is_replaced request target r))
          (hold_replaced refuses request target replaced).0
        ≡ select (λ r. not (is_replaced request target r)) replaced)
    × (hold_replaced
          (accept_all request target)
          request
          target
          (hold_replaced refuses request target replaced).0
        ≡ hold_replaced (accept_all request target) request target replaced)
hold_replaced-holds_example =
    hold_replaced-holds request target refuses replaced (ground (arith, eq_iff "def" ""))
      (ground (arith, eq_iff "def" "abc"))

abbrev held : Revision
held = mark_replaced request target (planned Phase.healthy "shop-2" "def" 2)

lift_hold-deploys_example :
    (held_by (lift_hold held) ≡ none)
    × (retry_blocked (application []) (lift_hold held) 5 ≡ (none, false))
lift_hold-deploys_example = lift_hold-deploys (application []) held 5

abbrev automatic_request : RollbackRequest
automatic_request = record { target = "abc"; from = "def"; kind = "automatic" }

abbrev hold : RollbackHold
hold = record { desired = "def"; is_manual = true }

written_status-lem_example :
    (written_status none requested.status ≡ requested.status)
    × ((written_status (some hold) requested.status).sync ≢ SyncState.synced)
    × ((written_status (some hold) requested.status).desired_revision ≡ hold.desired)
    × ((report_hold hold HealthState.unknown HealthState.unknown requested.status).sync
        ≡ SyncState.out_of_sync)
    × (lookup "Ready"
          (report_hold hold HealthState.unknown HealthState.unknown requested.status).conditions
        ≡ some (record { holds = false; reason = "RolledBack" }))
written_status-lem_example =
    written_status-lem hold requested.status HealthState.unknown HealthState.unknown
