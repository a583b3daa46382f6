-- ===== src/Reconcile/Attempt.antt =====
-- internal/controller/application_controller.go: what `Reconcile` does before it plans: the holds, the
-- limits on retries, the dependencies of a fresh rollout, and the count of attempts.
use kuvryn_sync.Prelude.{
  suc, String, ◌⊎◌, inl, inr, Bool, true, false, not, Option, none, some, List, [], ◌==◌,
  if◌then◌else◌,
}
use kuvryn_sync.Api.{Phase, HealthState, SyncState, Condition, Revision, Application}
use kuvryn_sync.Rollout.{RolloutState, complete, not_started, rollout_of}
use kuvryn_sync.Retry.{Why, retry_blocked, retry_backoff}
use kuvryn_sync.Rollback.{
  RollbackRequest, RollbackHold, is_active, held_by, lift_hold, abandon_rollback, report_hold,
  rollback_reason, written_status,
}
use kuvryn_sync.Deployment.{Pair, set_ready, start_planning}
use kuvryn_sync.Dependencies.{dependencies_ready, await_dependencies as awaiting_dependencies}
use kuvryn_sync.Reconcile.{
  Ending, waits_dependencies, fail_attempt, store, blocked, error, Planned, refused, planned,
  Setting, Progress, with_revision, with_application,
}
use kuvryn_sync.Reconcile.Decide.{decide_plan, is_complete}

-- `markApplicationFailure`, without the message.
unfoldable pub mark_failure : String → Pair → Pair
unfolding set_ready
mark_failure reason p = set_ready false reason (
    with_application
      (record (p.application.status) {
        observed_generation = p.application.generation;
        state = HealthState.degraded;
        health = HealthState.degraded;
        sync = SyncState.out_of_sync;
      })
      p)

-- The first plan of a Revision, or a retry after it failed.
abbrev pub is_new : Phase → Bool
is_new Phase.unset = true
is_new Phase.pending = true
is_new Phase.failed = true
is_new _ = false

unfoldable pub count_attempt : Pair → Pair
count_attempt p =
    if is_new p.revision.status.phase
    then with_revision
        (record (p.revision.status) {
          attempts = suc p.revision.status.attempts;
          started_at = none;
        })
        p
    else p

-- What a fresh rollout starts over.
unfoldable pub start_over : RolloutState → Pair → Pair
start_over rollout p =
    with_revision
      (record (p.revision.status) {
        hooks = [];
        started_at = if is_complete rollout then none else p.revision.status.started_at;
      })
      p

unfoldable pub is_fresh : RolloutState → String → Application → Bool
is_fresh not_started resolved application = true
is_fresh complete resolved application = not (application.status.deployed_revision == resolved)
is_fresh _ resolved application = false

abbrev pub with_hash : String → Pair → Pair
with_hash hash p = record p { revision = record (p.revision) { desired_state_hash = hash } }

unfoldable pub hashed : Option String → Pair → Pair
hashed none p = p
hashed (some hash) p = with_hash hash p

-- What is known before: the request, the health and state before this call, and the Application's
-- other Revisions.
pub record Start : Type 0 where
  pub request : RollbackRequest
  pub previous_health : HealthState
  pub previous_state : HealthState
  pub others : List Revision

module _ (s : Setting) where
  unfoldable pub planned_by : Progress → Planned → Pair → Ending
  unfolding hashed
  planned_by g (refused hash failure) p = fail_attempt failure (hashed hash p)
  planned_by g (planned hash plan) p =
      let q = with_hash hash p in
      decide_plan s g plan
        (with_revision (record (q.revision.status) { plan_digest = plan.digest; failure = none }) q)

  -- The attempt itself, from its count on.
  unfoldable pub plan_attempt : Progress → Pair → Ending
  unfolding planned_by count_attempt
  plan_attempt g p =
      let started = start_planning s.now (count_attempt p) in
      planned_by g (s.plan_of started) started

  unfoldable pub fresh_by : Progress → Option (Bool × Application) → Pair → Ending
  unfolding plan_attempt
  fresh_by g none p = error
  fresh_by g (some (false, application)) p =
      waits_dependencies
        (record p { application = application; revision = awaiting_dependencies p.revision })
  fresh_by g (some (true, application)) p = plan_attempt g (record p { application = application })

  unfoldable pub begin_attempt : Progress → Pair → Ending
  unfolding plan_attempt fresh_by start_over
  begin_attempt g p =
      if g.fresh
      then fresh_by g (dependencies_ready s.listed p.application) (start_over g.rollout p)
      else plan_attempt g p

  -- How a retry that is not allowed ends, with the Application's other Revisions.
  unfoldable pub report_blocked : RollbackRequest → Bool → List Revision → Pair → Ending
  unfolding mark_failure
  report_blocked request exhausted others p =
      let given_up = abandon_rollback p.application request others in
      if is_active request
      then (if exhausted
          then blocked none given_up.1
              (mark_failure "RetryBlocked" (record p { application = given_up.0 }))
          else blocked (some (retry_backoff p.revision)) others (mark_failure "RetryBlocked" p))
      else blocked none others (mark_failure "RetryBlocked" p)

  unfoldable pub progress_of : Start → String → Pair → Progress
  unfolding is_fresh
  progress_of start resolved p =
      let rollout = rollout_of p.revision p.revision.status.phase in
      record {
        request = start.request;
        rollout = rollout;
        fresh = is_fresh rollout resolved p.application;
        previous_phase = p.revision.status.phase;
        previous_health = start.previous_health;
        previous_state = start.previous_state;
      }

  unfoldable pub retried_by : Start → String → Option Why × Bool → Pair → Ending
  unfolding progress_of begin_attempt report_blocked
  retried_by start resolved (none, exhausted) p = begin_attempt (progress_of start resolved p) p
  retried_by start resolved (some why, exhausted) p =
      report_blocked start.request exhausted start.others p

  unfoldable pub attempt : Start → String → Pair → Ending
  unfolding retried_by
  attempt start resolved p =
      retried_by start resolved (retry_blocked p.application p.revision s.now) p

abbrev pub lifted : Pair → Pair
lifted p = record p { revision = lift_hold p.revision }

-- The hold that a Revision's condition stands for.
abbrev pub hold_of : String → Condition → RollbackHold
hold_of resolved held = record {
  desired = resolved;
  is_manual = held.reason == rollback_reason true;
}

-- With the reason why the deployed revision does not resolve, or its Revision.
unfoldable pub deploy_held : Setting → Start → RollbackHold → String ⊎ Revision → Pair → Ending
unfolding mark_failure attempt
deploy_held s start hold (inl reason) p =
    let q = mark_failure reason p in
    store (with_application (written_status (some hold) q.application.status) q)
deploy_held s start hold (inr revision) p =
    attempt (record s { hold = some hold }) start revision.source_revision
      (record p { revision = revision })

unfoldable pub held_attempt :
    Setting → Start → String → String ⊎ Revision → Option Condition → Pair → Ending
unfolding attempt deploy_held
held_attempt s start resolved deployed none p = attempt s start resolved p
held_attempt s start resolved deployed (some held) p =
    if is_active start.request
    then attempt s start resolved (lifted p)
    else if p.application.status.deployed_revision == resolved
    then attempt s start resolved (lifted p)
    else if p.application.status.deployed_revision == ""
    then store (
        with_application
          (report_hold (hold_of resolved held) start.previous_health start.previous_state
            p.application.status)
          p)
    else deploy_held s start (hold_of resolved held) deployed p

-- From the Revision that the source resolves to on. `deployed` is what the deployed revision
-- resolves to.
unfoldable pub reconcile_revision : Setting → Start → String → String ⊎ Revision → Pair → Ending
unfolding held_attempt
reconcile_revision s start resolved deployed p =
    held_attempt s start resolved deployed (held_by p.revision) p
