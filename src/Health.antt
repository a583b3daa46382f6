-- ===== src/Health.antt =====
-- internal/health/health.go: the verdict on a live object, and the count of verdicts.
pub mod Verdicts
pub mod Counts
pub mod Tests
use kuvryn_sync.Prelude.{
  ℕ, zero, suc, ◌+◌, ◌-◌, ◌*◌, ◌^◌, ◌≤◌, ◌<◌, min, String, str_append, ◌≡◌, refl, sym, ap, ◌∙◌, ◌≢◌,
  ◌↔◌, ◌⊎◌, inl, inr, Bool, true, false, not, ◌&&◌, ◌||◌, Option, none, some, List, [], ◌∷◌, ◌++◌,
  map, Perm, arith, ◌==◌, eq_iff, eq_refl, ltb, leb, eqb, if◌then◌else◌, is_none, ltb→lt, lt→ltb,
  leb→le, eqb→eq, tests, Bool-cases, Option-cases, length, take, drop, select, any, all,
  length-append, take-append-drop, length-take, length-drop, All, Any, Each, text_lt, text_lt-asym,
  text_lt_trans, text_lt-antisym, IsOrder, sort_by, IsSorted, sort_by-perm, All-sort_by,
  sort_by-IsSorted, or_empty, lookup, insert, delete, lookup-insert, lookup-delete, ℤ, pos, negsuc,
  pos_part, neg_part, ◌<ℤ◌, ltb_ℤ, eqb_ℤ, eqb_ℤ→eq, ltb_ℤ-antisym, atoi, codes, codes_eq,
  trim_space, trim, to_lower, split, gather, All-select, All-of_select, All-of_sort_by, All-left,
  All-right, All-reverse, Each-reverse, gather-append, All-append, All-map_of, All-and,
  All-of_forall, Each-append, Each-and, gather-sort_by-perm, Each-sort_by,
}
use kuvryn_sync.Resource.{Object, ObjectId, GroupVersions, from_object}
use kuvryn_sync.Api.{HealthState}

-- The message, a text for people, is left out.
pub record Result : Type 0 where
  pub resource : ObjectId
  pub state : HealthState
  pub reason : String

-- One entry of `status.conditions`; an entry that is no map is left out of the list.
pub record ConditionEntry : Type 0 where
  pub kind : String
  pub status : String

-- A live object with the content that the evaluation reads: its generation, the integers below
-- `spec` and `status` by their path, the phase and the conditions of its status.
pub record Live : Type 0 where
  pub object : Object
  pub generation : ℤ
  pub spec_int : String → Option ℤ
  pub status_int : String → Option ℤ
  pub phase : String
  pub conditions : List ConditionEntry

-- `Conditions(obj)[kind].Status`: a map is filled, so that the last entry of a type counts, and an
-- entry with no type is left out.
unfoldable pub condition_status : String → List ConditionEntry → Option String
condition_status kind [] = none
condition_status kind (c ∷ cs) =
    let rest = condition_status kind cs in
    elim rest [
      | some s ↦ some s
      | none ↦ if not (c.kind == "") && c.kind == kind then some c.status else none
    ]

abbrev pub is_true : Option String → Bool
is_true none = false
is_true (some s) = s == "True"

-- Present, and not True.
abbrev pub is_untrue : Option String → Bool
is_untrue none = false
is_untrue (some s) = not (s == "True")

abbrev int_or : ℤ → Option ℤ → ℤ
int_or fallback none = fallback
int_or fallback (some n) = n

abbrev verdict : ObjectId → HealthState → String → Result
verdict id state reason = record { resource = id; state = state; reason = reason }

abbrev is_behind : Live → Bool
is_behind o =
    ltb_ℤ (pos 0) o.generation
    && ltb_ℤ (int_or (pos 0) (o.status_int "observedGeneration")) o.generation

unfoldable pub evaluate_replicas : ObjectId → Live → Result
evaluate_replicas id o =
    if is_behind o
    then verdict id HealthState.progressing "GenerationPending"
    else if ltb_ℤ (int_or (pos 0) (o.status_int "availableReplicas"))
        (int_or (pos 1) (o.spec_int "replicas"))
    then verdict id HealthState.progressing "ReplicasUnavailable"
    else verdict id HealthState.healthy "Ready"

unfoldable pub evaluate_daemon_set : ObjectId → Live → Result
evaluate_daemon_set id o =
    let desired = int_or (pos 0) (o.status_int "desiredNumberScheduled") in
    if is_behind o
    then verdict id HealthState.progressing "GenerationPending"
    else if ltb_ℤ (int_or (pos 0) (o.status_int "updatedNumberScheduled")) desired
    then verdict id HealthState.progressing "ReplicasUnavailable"
    else if ltb_ℤ (int_or (pos 0) (o.status_int "numberAvailable")) desired
    then verdict id HealthState.progressing "ReplicasUnavailable"
    else verdict id HealthState.healthy "Ready"

unfoldable pub evaluate_pod : ObjectId → Live → Result
evaluate_pod id o =
    if o.phase == "Running" || o.phase == "Succeeded"
    then verdict id HealthState.healthy "Ready"
    else if o.phase == "Failed"
    then verdict id HealthState.degraded "PodFailed"
    else verdict id HealthState.progressing "PodPending"

unfoldable pub evaluate_job : ObjectId → Live → Result
evaluate_job id o =
    if is_true (condition_status "Failed" o.conditions)
    then verdict id HealthState.degraded "JobFailed"
    else if is_true (condition_status "Complete" o.conditions)
    then verdict id HealthState.healthy "Ready"
    else verdict id HealthState.progressing "JobRunning"

abbrev pub is_unobserved : Option ℤ → ℤ → Bool
is_unobserved none generation = false
is_unobserved (some observed) generation = ltb_ℤ observed generation

-- The kstatus conventions.
unfoldable pub generic : ObjectId → Live → Result
generic id o =
    if is_unobserved (o.status_int "observedGeneration") o.generation
    then verdict id HealthState.progressing "GenerationPending"
    else if is_true (condition_status "Stalled" o.conditions)
    then verdict id HealthState.degraded "Stalled"
    else if is_true (condition_status "Reconciling" o.conditions)
    then verdict id HealthState.progressing "Reconciling"
    else if is_untrue (condition_status "Ready" o.conditions)
    then verdict id HealthState.progressing "NotReady"
    else verdict id HealthState.healthy "Ready"

-- The `switch` of `Evaluate`.
unfoldable pub evaluate_as : ObjectId → Live → Result
unfolding evaluate_replicas evaluate_daemon_set evaluate_pod evaluate_job generic
evaluate_as id o =
    if o.object.kind == "Deployment" || o.object.kind == "StatefulSet"
    then evaluate_replicas id o
    else if o.object.kind == "DaemonSet"
    then evaluate_daemon_set id o
    else if o.object.kind == "Pod"
    then evaluate_pod id o
    else if o.object.kind == "Job"
    then evaluate_job id o
    else generic id o

evaluate_with : Option ObjectId → Live → Option Result
evaluate_with none o = none
evaluate_with (some id) o = some (evaluate_as id o)

-- `none` is the error of an object without an identity.
unfoldable pub evaluate : GroupVersions → Live → Option Result
unfolding evaluate_with
evaluate gv o = evaluate_with (from_object gv o.object) o

pub record Summary : Type 0 where
  pub healthy : ℕ
  pub progressing : ℕ
  pub degraded : ℕ
  pub unknown : ℕ
  pub total : ℕ

unfoldable pub count_state : HealthState → Summary → Summary
count_state HealthState.healthy s = record s { healthy = s.healthy + 1 }
count_state HealthState.progressing s = record s { progressing = s.progressing + 1 }
count_state HealthState.degraded s = record s { degraded = s.degraded + 1 }
count_state _ s = record s { unknown = s.unknown + 1 }

unfoldable pub summary_from : Summary → List Result → Summary
unfolding count_state
summary_from s [] = s
summary_from s (r ∷ rs) = summary_from (count_state r.state s) rs

-- The counts are int32 in the source; there are never 2^31 objects.
unfoldable pub summary : List Result → Summary
unfolding summary_from
summary results =
    summary_from
      (record { healthy = 0; progressing = 0; degraded = 0; unknown = 0; total = length results })
      results
