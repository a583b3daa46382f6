-- ===== src/Deployment.antt =====
-- internal/status/status.go, and how internal/controller/application_controller.go ends a deployment
-- that succeeded or failed.
pub mod Ends
pub mod Fails
pub mod Tests
use kuvryn_sync.Prelude.{
  ℕ, zero, suc, ◌+◌, ◌-◌, ◌*◌, ◌^◌, ◌≤◌, ◌<◌, min, String, str_append, ◌≡◌, refl, sym, ap, ◌∙◌, ◌≢◌,
  ◌↔◌, ◌⊎◌, inl, inr, Bool, true, false, not, ◌&&◌, ◌||◌, Option, none, some, List, [], ◌∷◌, ◌++◌,
  map, Perm, arith, ◌==◌, eq_iff, eq_refl, ltb, leb, eqb, if◌then◌else◌, is_none, ltb→lt, lt→ltb,
  leb→le, eqb→eq, tests, Bool-cases, Option-cases, length, take, drop, select, any, all,
  length-append, take-append-drop, length-take, length-drop, All, Any, Each, text_lt, text_lt-asym,
  text_lt_trans, text_lt-antisym, IsOrder, sort_by, IsSorted, sort_by-perm, All-sort_by,
  sort_by-IsSorted, or_empty, lookup, insert, delete, lookup-insert, lookup-delete, ℤ, pos, negsuc,
  pos_part, neg_part, ◌<ℤ◌, ltb_ℤ, eqb_ℤ, eqb_ℤ→eq, ltb_ℤ-antisym, atoi, codes, codes_eq,
  trim_space, trim, to_lower, split, gather, All-select, All-of_select, All-of_sort_by, All-left,
  All-right, All-reverse, Each-reverse, gather-append, All-append, All-map_of, All-and,
  All-of_forall, Each-append, Each-and, gather-sort_by-perm, Each-sort_by,
}
use kuvryn_sync.Api.{
  Phase, HealthState, SyncState, FailureAction, Condition, Failure, RevisionStatus, Revision,
  FailurePolicy, Strategy, ApplicationStatus, Application,
}
use kuvryn_sync.Annotations.{automatic}
use kuvryn_sync.History.{Retention, apply_retention, limit_for, target}
use kuvryn_sync.Rollout.{rollout_complete_condition, set_rollout_complete}
use kuvryn_sync.Rollback.{
  RollbackRequest, rollback_request_of, is_active, set_rollback_request, clear_rollback_request,
  held_by, hold_replaced, application_revisions, abandon_rollback, RollbackHold, written_status,
}

-- A Revision and its Application, as the controller has them in hand.
pub record Pair : Type 0 where
  pub revision : Revision
  pub application : Application

abbrev with_revision : RevisionStatus → Pair → Pair
with_revision status p = record p { revision = record (p.revision) { status = status } }

abbrev with_application : ApplicationStatus → Pair → Pair
with_application status p = record p { application = record (p.application) { status = status } }

or_now : Option ℕ → ℕ → Option ℕ
or_now none now = some now
or_now (some t) now = some t

or_unknown : HealthState → HealthState
or_unknown HealthState.unset = HealthState.unknown
or_unknown h = h

unfoldable pub start_planning : ℕ → Pair → Pair
unfolding or_now or_unknown
start_planning now p =
    with_revision
      (record (p.revision.status) {
        phase = Phase.planning;
        started_at = or_now p.revision.status.started_at now;
      })
      (with_application
        (record (p.application.status) {
          sync = SyncState.planning;
          health = or_unknown p.application.status.health;
        })
        p)

unfoldable pub await_approval : Pair → Pair
await_approval p =
    with_revision
      (record (p.revision.status) { phase = Phase.awaiting_approval; started_at = none })
      (with_application (record (p.application.status) { sync = SyncState.awaiting_approval }) p)

unfoldable pub start_applying : ℕ → Pair → Pair
unfolding or_now
start_applying now p =
    with_revision
      (record (p.revision.status) {
        phase = Phase.applying;
        started_at = or_now p.revision.status.started_at now;
      })
      (with_application (record (p.application.status) { sync = SyncState.applying }) p)

unfoldable pub complete_healthy : ℕ → Pair → Pair
complete_healthy now p =
    with_revision (record (p.revision.status) { phase = Phase.healthy; completed_at = some now })
      (with_application
        (record (p.application.status) {
          sync = SyncState.synced;
          health = HealthState.healthy;
          state = HealthState.healthy;
          deployed_revision = p.revision.source_revision;
        })
        p)

-- `Fail`
unfoldable pub fail : ℕ → Failure → Pair → Pair
fail now failure p =
    with_revision
      (record (p.revision.status) {
        phase = Phase.failed;
        completed_at = some now;
        failure = some failure;
      })
      (with_application
        (record (p.application.status) {
          sync = SyncState.out_of_sync;
          health = HealthState.degraded;
          state = HealthState.degraded;
        })
        p)

unfoldable pub set_ready : Bool → String → Pair → Pair
set_ready holds reason p =
    with_application
      (record (p.application.status) {
        conditions =
            insert "Ready" (record { holds = holds; reason = reason })
              p.application.status.conditions;
      })
      p

is_complete : Option Condition → Bool
is_complete none = false
is_complete (some c) = c.holds

kept_time : Bool → Option ℕ → ℕ → ℕ
kept_time true (some t) now = t
kept_time _ _ now = now

-- The time that a completed rollout finished, or now.
unfoldable pub completion_time : Revision → ℕ → ℕ
unfolding is_complete kept_time
completion_time revision now =
    kept_time (is_complete (lookup rollout_complete_condition revision.status.conditions))
      revision.status.completed_at now

-- What both ends of a success share: the deployed state and the recorded progress.
unfoldable pub deployed : ℕ → Pair → Pair
unfolding complete_healthy completion_time
deployed now p =
    let q = complete_healthy (completion_time p.revision now) p in
    record q {
      revision =
          set_rollout_complete
            (record (q.revision) {
              status = record (q.revision.status) {
                deployed_desired_state_hash = q.revision.desired_state_hash;
              };
            })
            true;
    }

-- The phase and the sync state that the end of a rollback sets.
unfoldable pub rolled_back : Pair → Pair
rolled_back p =
    with_revision (record (p.revision.status) { phase = Phase.rolled_back })
      (with_application (record (p.application.status) { sync = SyncState.out_of_sync }) p)

-- The request is removed, and the Application is not Ready.
unfoldable pub request_removed : Pair → Pair
unfolding set_ready
request_removed p =
    set_ready false "RolledBack" (record p { application = clear_rollback_request p.application })

unfoldable pub ready_by : Option RollbackHold → Pair → Pair
unfolding set_ready
ready_by none p = set_ready true "Healthy" p
ready_by (some hold) p = set_ready false "RolledBack" p

-- The Application's status as it is written.
abbrev pub written : Option RollbackHold → Pair → Pair
written hold p = with_application (written_status hold p.application.status) p

-- `accepts` answers the writes of replaced Revisions, of which the loop marks those in `others`. The
-- pair that is stored, `none` where a refusal ends the call before, and the Application's other
-- Revisions. The other writes go through; events, notifications and the diagnosis are left out.
unfoldable pub complete_successful_deployment :
    (Revision → Bool) → ℕ → Option RollbackHold → List Revision → Pair → Option Pair × List Revision
unfolding deployed rolled_back request_removed ready_by
complete_successful_deployment accepts now hold others p =
    let done = deployed now p in
    let request = rollback_request_of p.application in
    let mine = application_revisions p.application others in
    let held = hold_replaced accepts request (rolled_back done).revision mine in
    if is_active request
    then (
      (if held.1 then some (written hold (request_removed (rolled_back done))) else none),
      held.0,
    )
    else (some (written hold (ready_by hold done)), mine)

-- `applyHistoryRetention`: what is deleted of the Application's Revisions.
unfoldable pub history_retention : Application → List Revision → Retention
history_retention application revisions =
    apply_retention
      (select (λ r. is_none (held_by r)) (application_revisions application revisions))
      (limit_for application (pos 20))

unfoldable pub is_rollback : FailureAction → Bool
is_rollback FailureAction.rollback = true
is_rollback _ = false

-- The request that a failure policy starts, with the Revision it goes back to.
unfoldable pub queue_rollback : Revision → Pair → Pair
queue_rollback to p = record {
  revision = record (p.revision) {
    status = record (p.revision.status) { previous_revision = some to.name };
  };
  application =
      set_rollback_request p.application (record {
        target = to.source_revision;
        from = p.revision.source_revision;
        kind = automatic;
      });
}

abbrev without_target : Failure → Failure
without_target f = record f {
  message = str_append f.message "; no previous healthy Revision to roll back to";
}

unfoldable pub failed_with : ℕ → Failure → Pair → Pair
unfolding fail set_ready
failed_with now failure p = set_ready false failure.reason (fail now failure p)

-- By the target that a failure policy finds.
unfoldable pub fail_to : Option Revision → ℕ → Failure → Pair → Pair
unfolding queue_rollback failed_with
fail_to none now failure p = failed_with now (without_target failure) p
fail_to (some to) now failure p =
    let q = failed_with now failure (queue_rollback to p) in
    with_revision (record (q.revision.status) { phase = Phase.rolling_back }) q

-- `failRevisionAndApplication`, with the listed Revisions, where all calls go through.
unfoldable pub fail_revision_and_application :
    ℕ → Option RollbackHold → List Revision → Failure → Pair → Pair × List Revision
unfolding failed_with fail_to is_rollback
fail_revision_and_application now hold others failure p =
    let request = rollback_request_of p.application in
    let mine = application_revisions p.application others in
    let given_up = abandon_rollback p.application request mine in
    if is_active request
    then (if failure.retryable then (written hold (failed_with now failure p), mine) else (
      written hold (failed_with now failure (record p { application = given_up.0 })),
      given_up.1,
    ))
    else if is_rollback p.application.strategy.failure_policy.action
    then (written hold (fail_to (target p.revision mine) now failure p), mine)
    else (written hold (failed_with now failure p), mine)
