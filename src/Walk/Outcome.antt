-- ===== src/Walk/Outcome.antt =====
-- What a call of `applyAndObserve` records of the rollout.
use kuvryn_sync.Prelude.{
  ℕ, String, ◌≡◌, refl, sym, ◌≢◌, ◌↔◌, inl, inr, false, Option, none, some, List, [], arith,
  Bool-cases, All,
}
use mathlib.Core.Path.{subst}
use mathlib.Core.Option.{some-injective}
use kuvryn_sync.Api.{Phase, Failure, Revision}
use kuvryn_sync.Resource.{Object, GroupVersions}
use kuvryn_sync.Ordering.{groups}
use kuvryn_sync.History.{target}
use kuvryn_sync.Rollout.{complete, rollout_of}
use kuvryn_sync.Rollout.Progress.{rollout_of-set_rollout_complete}
use kuvryn_sync.Rollback.{RollbackHold, rollback_request_of, is_active, application_revisions}
use kuvryn_sync.Deployment.Ends.{complete_successful_deployment-IsEnd}
use kuvryn_sync.Deployment.{
  Pair, start_applying, complete_successful_deployment, fail_revision_and_application, fail_to,
  failed_with, fail, set_ready, queue_rollback, is_rollback,
}
use kuvryn_sync.Walk.{Error, Cluster, Call, Rollout, failed, waits, Step, stop, next}
use kuvryn_sync.Walk.Visit.{at_start, roll_out}
use kuvryn_sync.Walk.Groups.{Goes, Passes, Prunes, next_of}
use kuvryn_sync.Walk.Done.{roll_out-done_iff}
use kuvryn_sync.Walk.Handler.{
  Context, with_failure, timed_out, observing, observe, finished, with_hooks, ended_by, begun,
  apply_and_observe,
}

fail_to-conditions :
    (o : Option Revision) (now : ℕ) (failure : Failure) (p : Pair)
    → (fail_to o now failure p).revision.status.conditions ≡ p.revision.status.conditions
unfolding fail_to failed_with fail set_ready queue_rollback
fail_to-conditions none now failure p = refl
fail_to-conditions (some to) now failure p = refl

-- A failure leaves the conditions of the Revision as they are.
fail-conditions :
    (now : ℕ) (hold : Option RollbackHold) (others : List Revision) (failure : Failure) (p : Pair)
    → (fail_revision_and_application now hold others failure p).0.revision.status.conditions
      ≡ p.revision.status.conditions
unfolding fail_revision_and_application failed_with fail set_ready
fail-conditions now hold others failure p =
    elim (Bool-cases (is_active (rollback_request_of p.application))) [
      | inl e ↦ elim (Bool-cases failure.retryable) [
        | inl k ↦ rw (e, k) refl
        | inr k ↦ rw (e, k) refl
      ]
      | inr e ↦ elim (Bool-cases (is_rollback p.application.strategy.failure_policy.action)) [
        | inl k ↦
            rw (e, k)
              (fail_to-conditions (target p.revision (application_revisions p.application others))
                now failure p)
        | inr k ↦ rw (e, k) refl
      ]
    ]

abbrev IsUnfinished : Pair → Type 0
IsUnfinished p = (previous : Phase) → rollout_of p.revision previous ≢ complete

same_conditions :
    (p q : Pair)
    → q.revision.status.conditions ≡ p.revision.status.conditions
    → IsUnfinished p
    → IsUnfinished q
unfolding rollout_of
same_conditions p q e h previous k = h previous (rw (sym e) k)

begun-IsUnfinished : (now : ℕ) (p : Pair) → IsUnfinished (begun now p)
unfolding begun
begun-IsUnfinished now p previous e =
    ground
      (arith, e, (rollout_of-set_rollout_complete (start_applying now p).revision false previous).0)

failure-IsUnfinished :
    (ctx : Context) (calls : List Call) (failure : Failure) (p q : Pair)
    → (with_failure ctx calls failure p).stored ≡ some q
    → IsUnfinished p
    → IsUnfinished q
failure-IsUnfinished ctx calls failure p q e h = subst IsUnfinished (some-injective _ q e) (
    same_conditions p (fail_revision_and_application ctx.now ctx.hold ctx.others failure p).0
      (fail-conditions ctx.now ctx.hold ctx.others failure p) h)

observe-IsUnfinished :
    (ctx : Context) (calls : List Call) (after : ℕ) (p q : Pair)
    → (observe ctx calls after p).stored ≡ some q
    → IsUnfinished p
    → IsUnfinished q
unfolding observe observing
observe-IsUnfinished ctx calls after p q e h =
    elim (Bool-cases
      (timed_out p.application.health_timeout p.revision.status.started_at ctx.now)) [
        | inl up ↦ failure-IsUnfinished ctx calls _ p q (rw up at e) h
        | inr going ↦
            subst IsUnfinished (some-injective (observing ctx.hold p) q (rw going at e))
              (same_conditions p (observing ctx.hold p) refl h)
      ]

-- By how the walk ended.
ended_by-lem :
    (ctx : Context) (p q : Pair) (s : Step)
    → IsUnfinished p
    → (ended_by ctx p s).stored ≡ some q
    → (previous : Phase) → (rollout_of q.revision previous ≡ complete) ↔ Goes s
unfolding ended_by finished rollout_of
ended_by-lem ctx p q (stop (failed failure) w) h e previous = (
  λ k. failure-IsUnfinished ctx w.calls failure (with_hooks w.hooks p) q e h previous k,
  λ k. absurd k,
)
ended_by-lem ctx p q (stop (waits after) w) h e previous = (
  λ k. observe-IsUnfinished ctx w.calls after (with_hooks w.hooks p) q e h previous k,
  λ k. absurd k,
)
ended_by-lem ctx p q (next w) h e previous = (
  λ _. tt,
  λ _.
      (complete_successful_deployment-IsEnd ctx.accepts ctx.now ctx.hold ctx.others
          (with_hooks w.hooks p) q
          (complete_successful_deployment ctx.accepts ctx.now ctx.hold ctx.others
            (with_hooks w.hooks p)).1
          (λ i. (
            e i,
            (complete_successful_deployment ctx.accepts ctx.now ctx.hold ctx.others
                (with_hooks w.hooks p)).1,
          ))).0.1
        previous,
)

module _ (redact : String → String) (gv : GroupVersions) (c : Cluster) (r : Rollout) where
  -- The rollout of the stored Revision is recorded as complete exactly where the HealthChecks could
  -- be read, each group passes, and what is stale may and can be deleted; whatever phase is set.
  pub apply_and_observe-complete_iff :
      (checks : Option Error) (desired : List Object) (ctx : Context) (p q : Pair)
      (previous : Phase)
      → (apply_and_observe redact gv c r checks desired ctx p).stored ≡ some q
      → (rollout_of q.revision previous ≡ complete)
        ↔ ((checks ≡ none) × All (Passes redact gv c r) (groups desired) × Prunes redact gv c r)
  unfolding apply_and_observe
  apply_and_observe-complete_iff (some err) desired ctx p q previous e = (
    λ k. absurd (
        failure-IsUnfinished ctx [] _ (begun ctx.now p) q e (begun-IsUnfinished ctx.now p) previous
          k),
    λ (n, _, _). ground (arith, n),
  )
  apply_and_observe-complete_iff none desired ctx p q previous e =
      let hooks = (begun ctx.now p).revision.status.hooks in
      let (to, back) =
        ended_by-lem ctx (begun ctx.now p) q (roll_out redact gv c r desired (at_start hooks))
          (begun-IsUnfinished ctx.now p) e previous in
      let (done, does) = roll_out-done_iff redact gv c r desired hooks in
      (
        λ k. let (all_pass, prunes) = done (_, next_of _ (to k)) in (refl, all_pass, prunes),
        λ (_, all_pass, prunes). back (subst Goes (sym (does (all_pass, prunes)).1) tt),
      )
