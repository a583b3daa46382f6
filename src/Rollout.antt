-- ===== src/Rollout.antt =====
-- internal/controller/application_rollout.go: how far a rollout got, and what it does with a hook
-- that it has applied before.
pub mod Progress
pub mod Once
pub mod Split
pub mod Tests
use kuvryn_sync.Prelude.{
  ℕ, zero, suc, ◌+◌, ◌-◌, ◌*◌, ◌^◌, ◌≤◌, ◌<◌, min, String, str_append, ◌≡◌, refl, sym, ap, ◌∙◌, ◌≢◌,
  ◌↔◌, ◌⊎◌, inl, inr, Bool, true, false, not, ◌&&◌, ◌||◌, Option, none, some, List, [], ◌∷◌, ◌++◌,
  map, Perm, arith, ◌==◌, eq_iff, eq_refl, ltb, leb, eqb, if◌then◌else◌, is_none, ltb→lt, lt→ltb,
  leb→le, eqb→eq, tests, Bool-cases, Option-cases, length, take, drop, select, any, all,
  length-append, take-append-drop, length-take, length-drop, All, Any, Each, text_lt, text_lt-asym,
  text_lt_trans, text_lt-antisym, IsOrder, sort_by, IsSorted, sort_by-perm, All-sort_by,
  sort_by-IsSorted, or_empty, lookup, insert, delete, lookup-insert, lookup-delete, ℤ, pos, negsuc,
  pos_part, neg_part, ◌<ℤ◌, ltb_ℤ, eqb_ℤ, eqb_ℤ→eq, ltb_ℤ-antisym, atoi, codes, codes_eq,
  trim_space, trim, to_lower, split, gather, All-select, All-of_select, All-of_sort_by, All-left,
  All-right, All-reverse, Each-reverse, gather-append, All-append, All-map_of, All-and,
  All-of_forall, Each-append, Each-and, gather-sort_by-perm, Each-sort_by,
}
use kuvryn_sync.Resource.{Object, ObjectId, GroupVersions, from_object, api_version}
use kuvryn_sync.Api.{
  Phase, HealthState, Condition, ResourceRef, ref_eq, HookStatus, RevisionStatus, Revision,
}
use kuvryn_sync.Health.{Result}

pub data RolloutState : Type 0 where
  not_started in_progress complete : RolloutState

abbrev pub rollout_complete_condition : String
rollout_complete_condition = "RolloutComplete"

rollout_of_phase : Phase → RolloutState
rollout_of_phase Phase.healthy = complete
rollout_of_phase Phase.rolled_back = complete
rollout_of_phase Phase.applying = in_progress
rollout_of_phase Phase.observing = in_progress
rollout_of_phase _ = not_started

rollout_of_condition : Option Condition → Phase → RolloutState
rollout_of_condition none previous = rollout_of_phase previous
rollout_of_condition (some c) previous = if c.holds then complete else in_progress

unfoldable pub rollout_of : Revision → Phase → RolloutState
unfolding rollout_of_condition rollout_of_phase
rollout_of revision previous =
    rollout_of_condition (lookup rollout_complete_condition revision.status.conditions) previous

unfoldable pub set_rollout_complete : Revision → Bool → Revision
set_rollout_complete revision done = record revision {
  status = record (revision.status) {
    conditions =
        insert rollout_complete_condition
          (record { holds = done; reason = if done then "Complete" else "RollingOut" })
          revision.status.conditions;
  };
}

unfoldable pub finished_phase : Phase → Phase
finished_phase Phase.rolled_back = Phase.rolled_back
finished_phase _ = Phase.healthy

unfoldable pub resource_ref : GroupVersions → ObjectId → ResourceRef
resource_ref gv id = record {
  api_version = api_version gv id;
  kind = id.kind;
  namespace = id.namespace;
  name = id.name;
}

-- A map from references to states, as an association list in which the last entry counts.
unfoldable pub hook_state : List HookStatus → ResourceRef → Option HealthState
hook_state [] ref = none
hook_state (h ∷ hooks) ref =
    let rest = hook_state hooks ref in
    elim rest [ some s ↦ some s | none ↦ if ref_eq h.resource ref then some h.state else none ]

abbrev is_healthy : Option HealthState → Bool
is_healthy (some HealthState.healthy) = true
is_healthy _ = false

module _ (gv : GroupVersions) (states : ResourceRef → Option HealthState) where
  -- A hook that succeeded, by the identity of its object.
  completed : Option ObjectId → Bool
  completed none = false
  completed (some id) = is_healthy (states (resource_ref gv id))

  unfoldable pub without_completed_hooks : List Object → List Object
  unfolding completed
  without_completed_hooks objects = select (λ o. not (completed (from_object gv o))) objects

pub record HookSplit : Type 0 where
  pub pending : List Object
  pub watched : List Object
  pub done : List Result

abbrev pub hook_done : ObjectId → Result
hook_done id = record { resource = id; state = HealthState.healthy; reason = "HookSucceeded" }

-- What `splitHooks` does with one hook, by its recorded state.
place_hook : Option HealthState → Object → ObjectId → HookSplit → HookSplit
place_hook none obj id s = record s { pending = s.pending ++ obj ∷ [] }
place_hook (some HealthState.degraded) obj id s = record s { pending = s.pending ++ obj ∷ [] }
place_hook (some HealthState.healthy) obj id s = record s { done = s.done ++ hook_done id ∷ [] }
place_hook (some _) obj id s = record s { watched = s.watched ++ obj ∷ [] }

module _ (gv : GroupVersions) (states : ResourceRef → Option HealthState) where
  split_hook : Option ObjectId → Object → HookSplit → HookSplit
  unfolding place_hook
  split_hook none obj s = record s { pending = s.pending ++ obj ∷ [] }
  split_hook (some id) obj s = place_hook (states (resource_ref gv id)) obj id s

  unfoldable pub split_hooks_from : HookSplit → List Object → HookSplit
  unfolding split_hook
  split_hooks_from s [] = s
  split_hooks_from s (obj ∷ objects) =
      split_hooks_from (split_hook (from_object gv obj) obj s) objects

  unfoldable pub split_hooks : List Object → HookSplit
  unfolding split_hooks_from
  split_hooks objects = split_hooks_from (record { pending = []; watched = []; done = [] }) objects

-- The first status of the reference is overwritten, and where there is none the new one is added.
unfoldable pub put_hook : HookStatus → List HookStatus → List HookStatus
put_hook status [] = status ∷ []
put_hook status (h ∷ hooks) =
    if ref_eq h.resource status.resource then status ∷ hooks else h ∷ put_hook status hooks

unfoldable pub record_hooks :
    GroupVersions → String → List Result → List HookStatus → List HookStatus
unfolding put_hook
record_hooks gv stage [] hooks = hooks
record_hooks gv stage (r ∷ results) hooks = record_hooks gv stage results (
    put_hook (record { resource = resource_ref gv r.resource; stage = stage; state = r.state })
      hooks)
