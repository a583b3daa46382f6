-- ===== src/Reconcile/Decide.antt =====
-- internal/controller/application_controller.go: what `Reconcile` does with a plan.
use kuvryn_sync.Prelude.{
  String, str_append, Bool, true, false, not, ◌&&◌, Option, none, some, eqb, if◌then◌else◌,
}
use kuvryn_sync.Api.{Phase, HealthState, SyncState, Approval, Failure, Application}
use kuvryn_sync.Resource.{ObjectId, GroupVersions, api_version}
use kuvryn_sync.Conflicts.{conflict_failure}
use kuvryn_sync.Approval.{rollout_approval}
use kuvryn_sync.Rollout.{RolloutState, complete, in_progress}
use kuvryn_sync.Rollback.{is_active}
use kuvryn_sync.Deployment.{Pair, await_approval as awaiting_approval}
use kuvryn_sync.Dependencies.{dependencies_ready, await_dependencies as awaiting_dependencies}
use kuvryn_sync.Reconcile.{
  Ending, apply, complete_deployment, asks_approval, waits_dependencies, fail_attempt, keep, store,
  error, Plan, Setting, Progress, with_revision, with_health, with_sync, mark_unhealthy,
  mark_recovered, keep_finished,
}

abbrev pub is_complete : RolloutState → Bool
is_complete complete = true
is_complete _ = false

abbrev pub is_in_progress : RolloutState → Bool
is_in_progress in_progress = true
is_in_progress _ = false

abbrev is_healthy : HealthState → Bool
is_healthy HealthState.healthy = true
is_healthy _ = false

-- Neither `Healthy` nor `RolledBack`.
unfoldable pub is_transition : Phase → Bool
is_transition Phase.healthy = false
is_transition Phase.rolled_back = false
is_transition _ = true

-- `plan.Summary.Create == 0 && plan.Summary.Update == 0 && plan.Summary.Delete == 0`
abbrev pub is_empty : Plan → Bool
is_empty plan = eqb plan.creates 0 && eqb plan.updates 0 && eqb plan.deletes 0

unfoldable pub conflict_error : GroupVersions → ObjectId × String → Failure
conflict_error gv (id, manager) = record {
  reason = "ConflictFailure";
  message = str_append "server-side apply conflict on " (
      str_append (api_version gv id) (
        str_append "/" (
          str_append id.kind (
            str_append " " (
              str_append id.namespace
                (str_append "/" (str_append id.name (str_append " managed by " manager))))))));
  retryable = false;
}

abbrev pub with_approval : Option Approval → Pair → Pair
with_approval approval p = with_revision (record (p.revision.status) { approval = approval }) p

module _ (s : Setting) (g : Progress) where
  abbrev pub approval_of : Pair → Option Approval × Bool
  approval_of p = rollout_approval s.sum s.time p.application p.revision g.request g.rollout

  -- A rollout that was finished before this reconcile, and is this Revision's.
  abbrev pub is_finished : Bool
  is_finished = not g.fresh && is_complete g.rollout

  -- A finished rollout with nothing to apply, by its health.
  unfoldable pub synced_by : Option HealthState → Pair → Ending
  synced_by none p =
      keep (keep_finished g.previous_phase (with_health g.previous_health g.previous_state p))
  synced_by (some state) p =
      if is_healthy state
      then complete_deployment p (is_transition g.previous_phase)
      else keep (keep_finished g.previous_phase (mark_unhealthy s.hold state p))

  unfoldable pub already_synced : Pair → Ending
  unfolding synced_by is_transition
  already_synced p =
      if is_finished && not (is_active g.request)
      then synced_by s.finished_health (with_sync SyncState.synced p)
      else complete_deployment p (is_transition g.previous_phase)

  unfoldable pub approved_rollback : Option Approval × Bool → Pair → Ending
  unfolding already_synced
  approved_rollback (none, stale) p = asks_approval (awaiting_approval p) stale
  approved_rollback (some approval, stale) p = already_synced (with_approval (some approval) p)

  -- Nothing is left to apply.
  unfoldable pub nothing_planned : Pair → Ending
  unfolding already_synced approved_rollback
  nothing_planned p =
      if is_in_progress g.rollout
      then apply p
      else if is_active g.request && not p.application.sync.automatic
      then approved_rollback (approval_of p) p
      else already_synced p

  unfoldable pub drifted_by : Option HealthState → Pair → Ending
  drifted_by none p = keep (keep_finished g.previous_phase p)
  drifted_by (some state) p =
      if is_healthy state
      then store
          (keep_finished g.previous_phase (mark_recovered s.hold (with_health state state p)))
      else keep (keep_finished g.previous_phase (mark_unhealthy s.hold state p))

  -- Drift that is not repaired.
  unfoldable pub drifted : Pair → Ending
  unfolding drifted_by
  drifted p =
      let q = with_health g.previous_health g.previous_state (with_sync SyncState.drifted p) in
      if is_active g.request
      then store (keep_finished g.previous_phase q)
      else drifted_by s.finished_health q

  -- A rollout of a finished one's repair has a health timeout of its own.
  unfoldable pub timed : Pair → Pair
  timed p =
      if is_complete g.rollout
      then with_revision (record (p.revision.status) { started_at = some s.now }) p
      else p

  unfoldable pub apply_approved : Option Approval × Bool → Pair → Ending
  unfolding timed
  apply_approved (approval, stale) p =
      if p.application.sync.automatic then apply (timed p) else elim approval [
        | none ↦ asks_approval (awaiting_approval p) stale
        | some a ↦ apply (timed (with_approval (some a) p))
      ]

  unfoldable pub ask_approval : Pair → Ending
  unfolding apply_approved
  ask_approval p = apply_approved (approval_of p) p

  unfoldable pub depending : Option (Bool × Application) → Pair → Ending
  unfolding ask_approval
  depending none p = error
  depending (some (false, application)) p =
      waits_dependencies
        (record p { application = application; revision = awaiting_dependencies p.revision })
  depending (some (true, application)) p = ask_approval (record p { application = application })

  unfoldable pub check_dependencies : Pair → Ending
  unfolding ask_approval depending
  check_dependencies p =
      if g.fresh then ask_approval p else depending (dependencies_ready s.listed p.application) p

  unfoldable pub without_conflict : Option (ObjectId × String) → Pair → Ending
  unfolding check_dependencies conflict_error
  without_conflict none p = check_dependencies p
  without_conflict (some conflict) p = fail_attempt (conflict_error s.gv conflict) p

  -- From the plan on.
  unfoldable pub decide_plan : Plan → Pair → Ending
  unfolding nothing_planned drifted without_conflict
  decide_plan plan p =
      if is_empty plan
      then nothing_planned p
      else if is_finished && not p.application.sync.self_heal
      then drifted p
      else without_conflict (conflict_failure plan.changes) p
