-- ===== src/Rollout/Tests.antt =====
-- internal/controller/application_rollout.go on concrete hooks.
use kuvryn_sync.Prelude.{
  ◌+◌, String, ◌≡◌, refl, ◌≢◌, false, Option, none, some, List, [], ◌∷◌, ◌==◌, if◌then◌else◌,
  length, select, lookup, gather,
}
use kuvryn_sync.Resource.{Object, ObjectId, GroupVersions, from_object}
use kuvryn_sync.Api.{Phase, HealthState, ResourceRef, Revision}
use kuvryn_sync.Health.{Result}
use kuvryn_sync.Samples.{group_versions, migration, cleanup, planned}
use kuvryn_sync.Rollout.{
  rollout_complete_condition, resource_ref, hook_state, rollout_of, set_rollout_complete,
  split_hooks, record_hooks,
}
use kuvryn_sync.Rollout.Progress.{recorded_state, rollout_of-set_rollout_complete}
use kuvryn_sync.Rollout.Once.{IsDistinct, latest, record_hooks-IsDistinct, hook_state-record_hooks}
use kuvryn_sync.Rollout.Split.{recorded, finished, is_pending, is_watched, split_hooks-lem}

abbrev job_id : String → ObjectId
job_id name = record {
  group = "batch";
  version = "v1";
  kind = "Job";
  namespace = "shop";
  name = name;
}

abbrev verdicts : List Result
verdicts =
    record { resource = job_id "migrate"; state = HealthState.progressing; reason = "JobRunning" }
    ∷ record { resource = job_id "cleanup"; state = HealthState.degraded; reason = "JobFailed" }
    ∷ record { resource = job_id "migrate"; state = HealthState.healthy; reason = "Ready" }
    ∷ []

abbrev states : ResourceRef → Option HealthState
states ref = if ref.name == "migrate" then some HealthState.healthy else none

abbrev hooks : List Object
hooks = migration ∷ cleanup ∷ []

split_hooks_test : (split_hooks group_versions states hooks).pending ≡ cleanup ∷ []
unfolding split_hooks from_object resource_ref
split_hooks_test = refl

split_hooks-lem_example :
    ((split_hooks group_versions states hooks).pending
      ≡ select (λ o. is_pending (recorded group_versions states o)) hooks)
    × ((split_hooks group_versions states hooks).watched
        ≡ select (λ o. is_watched (recorded group_versions states o)) hooks)
    × ((split_hooks group_versions states hooks).done
        ≡ gather (finished group_versions states) hooks)
    × (length (split_hooks group_versions states hooks).pending
          + length (split_hooks group_versions states hooks).watched
          + length (split_hooks group_versions states hooks).done
        ≡ length hooks)
split_hooks-lem_example = split_hooks-lem group_versions states hooks

record_hooks-IsDistinct_example : IsDistinct (record_hooks group_versions "pre-sync" verdicts [])
record_hooks-IsDistinct_example = record_hooks-IsDistinct group_versions "pre-sync" verdicts [] tt

abbrev ref : ResourceRef
ref = record { api_version = "batch/v1"; kind = "Job"; namespace = "shop"; name = "migrate" }

hook_state_test :
    hook_state (record_hooks group_versions "pre-sync" verdicts []) ref ≡ some HealthState.healthy
unfolding hook_state record_hooks resource_ref kuvryn_sync.Resource.api_version
hook_state_test = refl

hook_state-record_hooks_example :
    hook_state (record_hooks group_versions "pre-sync" verdicts []) ref
    ≡ latest group_versions ref verdicts (hook_state [] ref)
hook_state-record_hooks_example =
    hook_state-record_hooks group_versions "pre-sync" verdicts [] ref tt

abbrev applying : Revision
applying = planned Phase.applying "shop-1" "abc" 1

rollout_of-set_rollout_complete_example :
    (rollout_of (set_rollout_complete applying false) Phase.failed ≡ recorded_state false)
    × ((set_rollout_complete applying false).status.phase ≡ applying.status.phase)
    × ((kind : String)
        → rollout_complete_condition ≢ kind
        → lookup kind (set_rollout_complete applying false).status.conditions
          ≡ lookup kind applying.status.conditions)
rollout_of-set_rollout_complete_example =
    rollout_of-set_rollout_complete applying false Phase.failed

none_recorded : lookup rollout_complete_condition applying.status.conditions ≡ none
unfolding lookup
none_recorded = refl
