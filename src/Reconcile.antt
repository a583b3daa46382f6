-- ===== src/Reconcile.antt =====
-- internal/controller/application_controller.go: the decisions of `Reconcile`, from the Revision that
-- the source resolves to on, with internal/controller/application_health.go and
-- internal/syncpolicy/policy.go. What the rendered objects and the cluster give is an argument. A
-- decision is the call that `Reconcile` ends with, and the pair that it hands on.
pub mod Decide
pub mod Attempt
pub mod Gates
pub mod Kept
pub mod Holds
pub mod Tests
use kuvryn_sync.Prelude.{
  ℕ, zero, suc, ◌+◌, ◌-◌, ◌*◌, ◌^◌, ◌≤◌, ◌<◌, min, String, str_append, ◌≡◌, refl, sym, ap, ◌∙◌, ◌≢◌,
  ◌↔◌, ◌⊎◌, inl, inr, Bool, true, false, not, ◌&&◌, ◌||◌, Option, none, some, List, [], ◌∷◌, ◌++◌,
  map, Perm, arith, ◌==◌, eq_iff, eq_refl, ltb, leb, eqb, if◌then◌else◌, is_none, ltb→lt, lt→ltb,
  leb→le, eqb→eq, tests, Bool-cases, Option-cases, length, take, drop, select, any, all,
  length-append, take-append-drop, length-take, length-drop, All, Any, Each, text_lt, text_lt-asym,
  text_lt_trans, text_lt-antisym, IsOrder, sort_by, IsSorted, sort_by-perm, All-sort_by,
  sort_by-IsSorted, or_empty, lookup, insert, delete, lookup-insert, lookup-delete, ℤ, pos, negsuc,
  pos_part, neg_part, ◌<ℤ◌, ltb_ℤ, eqb_ℤ, eqb_ℤ→eq, ltb_ℤ-antisym, atoi, codes, codes_eq,
  trim_space, trim, to_lower, split, gather, All-select, All-of_select, All-of_sort_by, All-left,
  All-right, All-reverse, Each-reverse, gather-append, All-append, All-map_of, All-and,
  All-of_forall, Each-append, Each-and, gather-sort_by-perm, Each-sort_by,
}
use kuvryn_sync.Api.{
  Phase, HealthState, SyncState, ConflictPolicy, Condition, Approval, Failure, RevisionStatus,
  Revision, ApplicationStatus, SyncPolicy, Application,
}
use kuvryn_sync.Annotations.{Rfc3339, Sum}
use mathlib.Core.Option
use kuvryn_sync.Resource.{Object, ObjectId, GroupVersions, from_object, id_eq}
use kuvryn_sync.Ordering.{sync, stage_eq, Group, groups}
use kuvryn_sync.Conflicts.{Change}
use kuvryn_sync.Health.{Result, Summary, summary}
use kuvryn_sync.Rollout.{RolloutState, complete, in_progress, not_started, finished_phase}
use kuvryn_sync.Rollback.{RollbackRequest, RollbackHold, is_active}
use kuvryn_sync.Deployment.{Pair, set_ready}

-- How a call of `Reconcile` ends.
pub data Ending : Type 0 where
  -- `applyAndObserve`
  apply : Pair → Ending
  -- `completeSuccessfulDeployment`, and whether that is a transition
  complete_deployment : Pair → Bool → Ending
  -- `awaitApproval`, and whether an approval is stale
  asks_approval : Pair → Bool → Ending
  -- `awaitDependencies`
  waits_dependencies : Pair → Ending
  -- `failRevisionAndApplication`
  fail_attempt : Failure → Pair → Ending
  -- `keepFinishedRollout`: the statuses are stored, and checked again later
  keep : Pair → Ending
  -- the statuses are stored
  store : Pair → Ending
  -- `reportRetryBlocked`, when the next call is due, and the Application's other Revisions
  blocked : Option ℕ → List Revision → Pair → Ending
  -- a call of the API server failed
  error : Ending

-- What the plan says: the counts, the changes with their marked conflicts, and its digest.
pub record Plan : Type 0 where
  pub creates : ℕ
  pub updates : ℕ
  pub deletes : ℕ
  pub changes : List Change
  pub digest : String

-- What the rendering and the planner give: a failure, or a plan. The hash of the desired state is
-- there unless the failure came before it.
pub data Planned : Type 0 where
  refused : Option String → Failure → Planned
  planned : String → Plan → Planned

-- What the decisions go by. `finished_health` is what `finishedRolloutHealth` returns, `none` where
-- it cannot be evaluated; `listed` are the Applications of the namespace; `plan_of` renders and plans.
pub record Setting : Type 0 where
  pub sum : Sum
  pub time : Rfc3339
  pub gv : GroupVersions
  pub listed : Option (List Application)
  pub finished_health : Option HealthState
  pub plan_of : Pair → Planned
  pub hold : Option RollbackHold
  pub now : ℕ

-- What the reconcile found out before it planned.
pub record Progress : Type 0 where
  pub request : RollbackRequest
  pub rollout : RolloutState
  pub fresh : Bool
  pub previous_phase : Phase
  pub previous_health : HealthState
  pub previous_state : HealthState

-- `EffectiveConflictPolicy`
unfoldable pub effective_conflict_policy : SyncPolicy → ConflictPolicy
effective_conflict_policy policy = elim policy.conflict_policy [
  | ConflictPolicy.unset ↦ ConflictPolicy.fail
  | p ↦ p
]

abbrev pub with_application : ApplicationStatus → Pair → Pair
with_application status p = record p { application = record (p.application) { status = status } }

abbrev pub with_revision : RevisionStatus → Pair → Pair
with_revision status p = record p { revision = record (p.revision) { status = status } }

abbrev pub with_health : HealthState → HealthState → Pair → Pair
with_health health state p =
    with_application (record (p.application.status) { health = health; state = state }) p

abbrev pub with_sync : SyncState → Pair → Pair
with_sync state p = with_application (record (p.application.status) { sync = state }) p

-- The reason that `Ready` gives for a health state.
health_reason : HealthState → String
health_reason HealthState.unset = ""
health_reason HealthState.unknown = "Unknown"
health_reason HealthState.progressing = "Progressing"
health_reason HealthState.healthy = "Healthy"
health_reason HealthState.degraded = "Degraded"
health_reason HealthState.suspended = "Suspended"

-- `markFinishedRolloutUnhealthy`, without its event and messages.
unfoldable pub mark_unhealthy : Option RollbackHold → HealthState → Pair → Pair
unfolding health_reason set_ready
mark_unhealthy none state p = set_ready false (health_reason state) (with_health state state p)
mark_unhealthy (some hold) state p = set_ready false "RolledBack" (with_health state state p)

recovered_by : Option RollbackHold → String → Pair → Pair
unfolding set_ready
recovered_by (some hold) reason p =
    if reason == "RolledBack" then set_ready false "RolledBack" p else p
recovered_by none reason p =
    if reason == "Degraded" || reason == "Progressing" then set_ready true "Healthy" p else p

-- By the condition `Ready`, which another reason leaves as it was.
recovered_from : Option RollbackHold → Option Condition → Pair → Pair
unfolding recovered_by
recovered_from hold none p = p
recovered_from hold (some ready) p = if ready.holds then p else recovered_by hold ready.reason p

-- `markFinishedRolloutRecovered`
unfoldable pub mark_recovered : Option RollbackHold → Pair → Pair
unfolding recovered_from
mark_recovered hold p = recovered_from hold (lookup "Ready" p.application.status.conditions) p

-- `found.Found[id]`
unfoldable pub found_object : ObjectId → List (ObjectId × Object) → Option Object
found_object id [] = none
found_object id ((key, live) ∷ found) =
    let rest = found_object id found in if id_eq key id then some live else rest

-- The results for the objects of the groups that are synced. `evaluate` is the health evaluator;
-- `none` is an error.
module _ (gv : GroupVersions) (evaluate : Object → Option Result)
    (found : List (ObjectId × Object)) where
  finished_result : ObjectId → Option Object → Option Result
  finished_result id none =
      some (record { resource = id; state = HealthState.degraded; reason = "Missing" })
  finished_result id (some live) = evaluate live

  unfoldable pub finished_results : List Object → Option (List Result)
  unfolding finished_result
  finished_results [] = some []
  finished_results (obj ∷ objects) =
      let rest = finished_results objects in
      elim (from_object gv obj) [
        | none ↦ none
        | some id ↦ elim (finished_result id (found_object id found)) [
          | none ↦ none
          | some result ↦ elim rest [ none ↦ none | some results ↦ some (result ∷ results) ]
        ]
      ]

  synced_objects : List Group → List Object
  synced_objects [] = []
  synced_objects (g ∷ gs) =
      let rest = synced_objects gs in if stage_eq g.stage sync then g.objects ++ rest else rest

  -- The counts decide, with what the diagnosis finds.
  finished_state : Bool → List Result → HealthState
  finished_state evident results =
      let counts = summary results in
      if eqb counts.healthy counts.total
      then HealthState.healthy
      else if ltb 0 counts.degraded || evident
      then HealthState.degraded
      else HealthState.progressing

  -- `finishedRolloutHealth`, with whether the diagnosis finds evidence.
  unfoldable pub finished_rollout_health : Bool → List Object → Option HealthState
  unfolding synced_objects finished_state
  finished_rollout_health evident rendered =
      Option.map (finished_state evident) (finished_results (synced_objects (groups rendered)))

-- `keepFinishedRollout`
unfoldable pub keep_finished : Phase → Pair → Pair
unfolding finished_phase
keep_finished previous p =
    with_revision (record (p.revision.status) { phase = finished_phase previous }) p
