-- ===== src/Health/Tests.antt =====
-- internal/health/health.go on concrete objects.
use kuvryn_sync.Prelude.{
  ℕ, String, ◌≡◌, refl, ◌↔◌, inl, Option, none, some, List, [], ◌∷◌, ◌==◌, if◌then◌else◌, length,
  All, ℤ, pos,
}
use kuvryn_sync.Resource.{ObjectId}
use kuvryn_sync.Api.{HealthState}
use kuvryn_sync.Samples.{web}
use kuvryn_sync.Health.{Result, Live, evaluate_as, summary}
use kuvryn_sync.Health.Counts.{those, IsState, counted, summary_lem}
use kuvryn_sync.Health.Verdicts.{IsAvailable, evaluate_as-replicas}

abbrev web_id : ObjectId
web_id = record {
  group = "apps";
  version = "v1";
  kind = "Deployment";
  namespace = "shop";
  name = "web";
}

abbrev available : ℕ → String → Option ℤ
available n path =
    if path == "availableReplicas"
    then some (pos n)
    else if path == "observedGeneration"
    then some (pos 3)
    else none

abbrev live_web : ℕ → Live
live_web n = record {
  object = web;
  generation = pos 3;
  spec_int = λ path. if path == "replicas" then some (pos 2) else none;
  status_int = available n;
  phase = "";
  conditions = record { kind = "Ready"; status = "True" } ∷ [];
}

web_is_waited_for :
    evaluate_as web_id (live_web 1)
    ≡ record { resource = web_id; state = HealthState.progressing; reason = "ReplicasUnavailable" }
unfolding evaluate_as
web_is_waited_for = refl

web_is_ready :
    evaluate_as web_id (live_web 2)
    ≡ record { resource = web_id; state = HealthState.healthy; reason = "Ready" }
unfolding evaluate_as
web_is_ready = refl

evaluate_as-replicas_example :
    (((evaluate_as web_id (live_web 2)).state ≡ HealthState.healthy) ↔ IsAvailable (live_web 2))
    × (((evaluate_as web_id (live_web 2)).state ≡ HealthState.progressing)
        ↔ (¬ IsAvailable (live_web 2)))
evaluate_as-replicas_example = evaluate_as-replicas web_id (live_web 2) (inl refl)

abbrev results : List Result
results =
    record { resource = web_id; state = HealthState.healthy; reason = "Ready" }
    ∷ record { resource = web_id; state = HealthState.progressing; reason = "NotReady" }
    ∷ []

summary_lem_example :
    let s = summary results in
    (s.healthy ≡ those HealthState.healthy results)
    × (s.progressing ≡ those HealthState.progressing results)
    × (s.degraded ≡ those HealthState.degraded results)
    × (s.unknown ≡ those HealthState.unknown results)
    × (s.total ≡ length results)
    × (counted s ≡ s.total)
    × ((s.healthy ≡ s.total) ↔ All (IsState HealthState.healthy) results)
summary_lem_example = summary_lem results
