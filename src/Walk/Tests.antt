-- ===== src/Walk/Tests.antt =====
-- Runs and examples for the walk over the groups of a rollout.
use kuvryn_sync.Prelude.{
  ℕ, ◌≤◌, String, ◌≡◌, refl, ◌↔◌, inr, true, Option, none, some, List, [], ◌∷◌, arith, All, Each,
  sort_by, lookup, pos, atoi, codes_eq, trim_space, trim, to_lower, split,
}
use kuvryn_sync.Samples.{
  group_versions, application, planned, config, later_config, migration, cleanup, web,
}
use kuvryn_sync.Api.{Phase, HealthState, ConflictPolicy}
use kuvryn_sync.Resource.{Object, ObjectId, from_object}
use kuvryn_sync.Ordering.{
  pre_sync, sync, post_sync, Group, groups, hook, hook_stage, append_at, wave as wave_of,
  apply_order, apply_less, layer,
}
use kuvryn_sync.Health.{summary}
use kuvryn_sync.Rollout.{complete, rollout_of, split_hooks, record_hooks, put_hook}
use kuvryn_sync.Deployment.{Pair, complete_successful_deployment, start_applying}
use kuvryn_sync.Walk.{
  Error, absent, present, Cluster, applied, pruned, Rollout, Walked, next, and_then,
  replace_stale_hooks, group_health, first_degraded, prune_stale, read,
}
use kuvryn_sync.Walk.Visit.{at_start, left_by, roll_out, walk}
use kuvryn_sync.Walk.Steps.{call_place}
use kuvryn_sync.Walk.Calls.{roll_out-calls}
use kuvryn_sync.Walk.Groups.{Passes, Prunes}
use kuvryn_sync.Walk.Done.{roll_out-done_iff, roll_out-blocked}
use kuvryn_sync.Rollback.{is_active, rollback_request_of}
use kuvryn_sync.Walk.Handler.{Context, apply_and_observe, begun}
use kuvryn_sync.Walk.Outcome.{apply_and_observe-complete_iff}

abbrev redact : String → String
redact s = s

abbrev refused : Error
refused = record { forbidden = true; text = "no access" }

abbrev id_of : Object → ObjectId
id_of o = record {
  group = "";
  version = "v1";
  kind = o.kind;
  namespace = o.namespace;
  name = o.name;
}

-- A cluster in which every object is healthy as soon as it is applied, and one that refuses.
abbrev calm : Cluster
calm = record {
  get = λ id. present web;
  get_hook = λ o. absent;
  delete_hook = λ o. none;
  delete_stale = λ o. none;
  apply = λ policy objects. none;
  evaluate =
      λ o. inr (record { resource = id_of o; state = HealthState.healthy; reason = "Ready" });
  identity_text = λ o. "no identity";
  message = λ x. "";
}

abbrev closed : Cluster
closed = record calm { apply = λ policy objects. some refused }

abbrev rollout : Rollout
rollout = record {
  revision = "shop-1";
  policy = ConflictPolicy.fail;
  hooks = λ ref. none;
  pruning = record { eligible = web ∷ []; skipped = []; rejected = [] };
}

abbrev desired_objects : List Object
desired_objects = cleanup ∷ later_config ∷ config ∷ migration ∷ []

calls_of_rollout :
    (left_by (roll_out redact group_versions calm rollout desired_objects (at_start []))).calls
    ≡ applied pre_sync (migration ∷ [])
      ∷ applied sync (config ∷ [])
      ∷ applied sync (later_config ∷ [])
      ∷ pruned web
      ∷ applied post_sync (cleanup ∷ [])
      ∷ []
unfolding roll_out and_then groups hook hook_stage lookup codes_eq to_lower trim_space split
    replace_stale_hooks split_hooks apply_order sort_by from_object group_health first_degraded
    summary append_at wave_of atoi apply_less layer record_hooks put_hook prune_stale read
calls_of_rollout = refl

roll_out-calls_example :
    Each
      (λ a b. call_place a ≤ call_place b)
      (left_by (roll_out redact group_versions closed rollout desired_objects (at_start []))).calls
roll_out-calls_example = roll_out-calls redact group_versions closed rollout desired_objects []

roll_out-done_iff_example :
    ((w : Walked) × (roll_out redact group_versions calm rollout desired_objects (at_start [])
        ≡ next w))
    ↔ (All (Passes redact group_versions calm rollout) (groups desired_objects)
        × Prunes redact group_versions calm rollout)
roll_out-done_iff_example = roll_out-done_iff redact group_versions calm rollout desired_objects []

abbrev one_wave : ℕ → Object → Group
one_wave n o = record { stage = sync; number = pos n; objects = o ∷ [] }

two_waves : groups (later_config ∷ config ∷ []) ≡ one_wave 0 config ∷ one_wave 2 later_config ∷ []
unfolding groups hook hook_stage lookup codes_eq trim_space sort_by append_at wave_of atoi
    apply_order
two_waves = refl

refused_wave : ¬ Passes redact group_versions closed rollout (one_wave 0 config)
refused_wave h = ground (arith, h.accepted)

roll_out-blocked_example :
    roll_out redact group_versions closed rollout (later_config ∷ config ∷ []) (at_start [])
    ≡ walk redact group_versions closed rollout (one_wave 0 config ∷ []) (at_start [])
roll_out-blocked_example =
    roll_out-blocked redact group_versions closed rollout (later_config ∷ config ∷ []) [] []
      (one_wave 2 later_config ∷ []) (one_wave 0 config) two_waves refused_wave

abbrev pair : Pair
pair = record { revision = planned Phase.planning "shop-1" "abc" 3; application = application [] }

abbrev context : Context
context = record { accepts = λ r. true; now = 9; hold = none; others = [] }

abbrev no_error : Option Error
no_error = none

abbrev after_rollout : Pair
unfolding apply_and_observe
after_rollout =
    elim (apply_and_observe redact group_versions calm rollout no_error (config ∷ []) context
      pair).stored [ none ↦ pair | some p ↦ p ]

after_rollout_eq :
    (apply_and_observe redact group_versions calm rollout no_error
      (config ∷ [])
      context
      pair).stored
    ≡ some after_rollout
unfolding apply_and_observe roll_out and_then groups hook hook_stage lookup codes_eq to_lower
    trim_space split apply_order sort_by from_object group_health first_degraded summary append_at
    wave_of atoi apply_less layer prune_stale read complete_successful_deployment is_active
    rollback_request_of trim begun start_applying
after_rollout_eq = refl

apply_and_observe-complete_iff_example :
    (rollout_of after_rollout.revision Phase.planning ≡ complete) ↔ (
      (no_error ≡ none)
      × All (Passes redact group_versions calm rollout) (groups (config ∷ []))
      × Prunes redact group_versions calm rollout)
apply_and_observe-complete_iff_example =
    apply_and_observe-complete_iff redact group_versions calm rollout no_error (config ∷ []) context
      pair after_rollout Phase.planning after_rollout_eq
