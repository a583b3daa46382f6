-- ===== src/Walk/Handler.antt =====
-- internal/controller/application_controller.go: `applyAndObserve` as a whole, with `observe`.
use kuvryn_sync.Prelude.{
  ℕ, ◌-◌, String, Bool, true, false, Option, none, some, List, [], ◌∷◌, leb, if◌then◌else◌, ℤ, pos,
  negsuc, ltb_ℤ,
}
use kuvryn_sync.Api.{Phase, HealthState, SyncState, Failure, HookStatus, Revision}
use kuvryn_sync.Resource.{Object, GroupVersions}
use kuvryn_sync.History.{Retention}
use kuvryn_sync.Rollout.{set_rollout_complete}
use kuvryn_sync.Rollback.{RollbackHold, written_status}
use kuvryn_sync.Deployment.{
  Pair, start_applying, complete_successful_deployment, fail_revision_and_application,
  history_retention,
}
use kuvryn_sync.Walk.{Error, Cluster, Call, Rollout, failed, waits, Step, stop, next, safe_message}
use kuvryn_sync.Walk.Visit.{at_start, roll_out}

-- The time from one moment to another.
abbrev pub time_between : ℕ → ℕ → ℤ
time_between started now =
    if leb started now then pos (now - started) else negsuc (started - now - 1)

unfoldable pub timed_out : Option ℤ → Option ℕ → ℕ → Bool
timed_out (some timeout) (some started) now = ltb_ℤ timeout (time_between started now)
timed_out _ _ now = false

-- What a call needs besides the pair: the writes that the API server takes, the hold of the
-- context, and the Application's other Revisions.
pub record Context : Type 0 where
  pub accepts : Revision → Bool
  pub now : ℕ
  pub hold : Option RollbackHold
  pub others : List Revision

-- What a call leaves behind: the stored pair and other Revisions, the changes of the cluster, the
-- Revisions that history retention keeps and deletes, and when the next call is due, if asked for.
pub record Handled : Type 0 where
  pub stored : Option Pair
  pub others : List Revision
  pub calls : List Call
  pub retention : Option Retention
  pub requeue_after : Option ℕ

abbrev pub with_failure : Context → List Call → Failure → Pair → Handled
with_failure ctx calls failure p =
    let (stored, others) = fail_revision_and_application ctx.now ctx.hold ctx.others failure p in
    record {
      stored = some stored;
      others = others;
      calls = calls;
      retention = none;
      requeue_after = none;
    }

-- What `observe` sets where the time is not up.
unfoldable pub observing : Option RollbackHold → Pair → Pair
observing hold p = record {
  revision = record (p.revision) {
    status = record (p.revision.status) { phase = Phase.observing };
  };
  application = record (p.application) {
    status = written_status hold (record (p.application.status) {
      sync = SyncState.synced;
      health = HealthState.progressing;
      state = HealthState.progressing;
      deployed_revision = p.revision.source_revision;
    });
  };
}

-- `observe`, without the diagnosis and the counts of `recordHealth`.
unfoldable pub observe : Context → List Call → ℕ → Pair → Handled
unfolding timed_out observing
observe ctx calls after p =
    if timed_out p.application.health_timeout p.revision.status.started_at ctx.now
    then with_failure ctx calls
        (record {
          reason = "TimeoutFailure";
          message = "Health observation timed out";
          retryable = true;
        })
        p
    else record {
      stored = some (observing ctx.hold p);
      others = ctx.others;
      calls = calls;
      retention = none;
      requeue_after = some after;
    }

-- The history is cut once the end of the deployment is stored.
retained : Option Pair × List Revision → Option Retention
retained (none, others) = none
retained (some p, others) = some (history_retention p.application (p.revision ∷ others))

unfoldable pub finished : Context → List Call → Pair → Handled
unfolding retained
finished ctx calls p =
    let ended = complete_successful_deployment ctx.accepts ctx.now ctx.hold ctx.others p in
    record {
      stored = ended.0;
      others = ended.1;
      calls = calls;
      retention = retained ended;
      requeue_after = none;
    }

abbrev pub with_hooks : List HookStatus → Pair → Pair
with_hooks hooks p = record p {
  revision = record (p.revision) { status = record (p.revision.status) { hooks = hooks } };
}

unfoldable pub ended_by : Context → Pair → Step → Handled
unfolding observe finished
ended_by ctx p (stop (failed failure) w) = with_failure ctx w.calls failure (with_hooks w.hooks p)
ended_by ctx p (stop (waits after) w) = observe ctx w.calls after (with_hooks w.hooks p)
ended_by ctx p (next w) = finished ctx w.calls (with_hooks w.hooks p)

-- What is stored before the walk.
unfoldable pub begun : ℕ → Pair → Pair
begun now p =
    let q = start_applying now p in record q { revision = set_rollout_complete q.revision false }

-- `applyAndObserve`, where the writes of the pair go through. `checks` is the error of reading the
-- HealthChecks, if there is one.
unfoldable pub apply_and_observe :
    (String → String)
    → GroupVersions
    → Cluster
    → Rollout
    → Option Error
    → List Object
    → Context
    → Pair
    → Handled
unfolding ended_by
apply_and_observe redact gv c r checks desired ctx p = elim checks [
  | some err ↦
      with_failure ctx []
        (record {
          reason = "HealthFailure";
          message = safe_message redact err.text "HealthChecks could not be read";
          retryable = true;
        })
        (begun ctx.now p)
  | none ↦
      ended_by ctx (begun ctx.now p)
        (roll_out redact gv c r desired (at_start (begun ctx.now p).revision.status.hooks))
]
