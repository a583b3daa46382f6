-- ===== src/Reconcile/Kept.antt =====
-- What an attempt does to the Revision before `Reconcile` applies it.
use kuvryn_sync.Prelude.{
  suc, String, ◌≡◌, refl, ◌∙◌, inl, inr, Bool, true, false, not, ◌&&◌, Option, none, some, [],
  arith, if◌then◌else◌, Bool-cases,
}
use kuvryn_sync.Api.{Approval, Application}
use kuvryn_sync.Resource.{ObjectId}
use kuvryn_sync.Rollback.{is_active}
use kuvryn_sync.Deployment.{Pair, start_planning}
use kuvryn_sync.Reconcile.{
  Ending, apply, complete_deployment, asks_approval, waits_dependencies, fail_attempt, keep, store,
  blocked, error, Plan, Planned, refused, planned, Setting, Progress,
}
use kuvryn_sync.Reconcile.Decide.{
  is_complete, is_in_progress, is_empty, is_finished, approval_of, nothing_planned, with_approval,
  apply_approved, ask_approval, depending, check_dependencies, without_conflict, decide_plan, timed,
}
use kuvryn_sync.Reconcile.Gates.{
  is_apply, already_synced-apply, drifted-apply, approved_rollback-apply,
}
use kuvryn_sync.Reconcile.Attempt.{is_new, count_attempt, planned_by, plan_attempt}

-- The pair's Revision stays the one that it was.
abbrev Same : Pair → Pair → Type 0
Same p q =
    (q.revision.name ≡ p.revision.name)
    × (q.revision.source_revision ≡ p.revision.source_revision)
    × (q.revision.status.attempts ≡ p.revision.status.attempts)
    × (q.revision.status.hooks ≡ p.revision.status.hooks)

abbrev Kept : Pair → Ending → Type 0
Kept p (apply q) = Same p q
Kept p _ = Unit

Kept-unless : (p : Pair) (d : Ending) → is_apply d ≡ false → Kept p d
Kept-unless p (apply q) e = ground (arith, e)
Kept-unless p (complete_deployment q b) e = tt
Kept-unless p (asks_approval q b) e = tt
Kept-unless p (waits_dependencies q) e = tt
Kept-unless p (fail_attempt f q) e = tt
Kept-unless p (keep q) e = tt
Kept-unless p (store q) e = tt
Kept-unless p (blocked o others q) e = tt
Kept-unless p error e = tt

module _ (s : Setting) (g : Progress) where
  timed-Same : (p : Pair) → Same p (timed s g p)
  unfolding timed
  timed-Same p = elim (Bool-cases (is_complete g.rollout)) [
    | inl e ↦ rw e (refl, refl, refl, refl)
    | inr e ↦ rw e (refl, refl, refl, refl)
  ]

  apply_approved-Kept : (o : Option Approval × Bool) (p : Pair) → Kept p (apply_approved s g o p)
  unfolding apply_approved
  apply_approved-Kept (none, stale) p = elim (Bool-cases p.application.sync.automatic) [
    | inl e ↦ simp e (timed-Same p)
    | inr e ↦ simp e tt
  ]
  apply_approved-Kept (some a, stale) p = elim (Bool-cases p.application.sync.automatic) [
    | inl e ↦ simp e (timed-Same p)
    | inr e ↦ simp e (timed-Same (with_approval (some a) p))
  ]

  depending-Kept : (o : Option (Bool × Application)) (p : Pair) → Kept p (depending s g o p)
  unfolding depending ask_approval
  depending-Kept none p = tt
  depending-Kept (some (false, after)) p = tt
  depending-Kept (some (true, after)) p = apply_approved-Kept _ (record p { application = after })

  check_dependencies-Kept : (p : Pair) → Kept p (check_dependencies s g p)
  unfolding check_dependencies ask_approval
  check_dependencies-Kept p = elim (Bool-cases g.fresh) [
    | inl e ↦ rw e (apply_approved-Kept _ p)
    | inr e ↦ rw e (depending-Kept _ p)
  ]

  without_conflict-Kept :
      (o : Option (ObjectId × String)) (p : Pair) → Kept p (without_conflict s g o p)
  unfolding without_conflict
  without_conflict-Kept none p = check_dependencies-Kept p
  without_conflict-Kept (some c) p = tt

  nothing_planned-Kept : (p : Pair) → Kept p (nothing_planned s g p)
  unfolding nothing_planned
  nothing_planned-Kept p = elim (Bool-cases (is_in_progress g.rollout)) [
    | inl e ↦ rw e (refl, refl, refl, refl)
    | inr e ↦ elim (Bool-cases (is_active g.request && not p.application.sync.automatic)) [
      | inl k ↦ rw (e, k) (Kept-unless p _ (approved_rollback-apply s g (approval_of s g p) p))
      | inr k ↦ rw (e, k) (Kept-unless p _ (already_synced-apply s g p))
    ]
  ]

  decide_plan-Kept : (plan : Plan) (p : Pair) → Kept p (decide_plan s g plan p)
  unfolding decide_plan
  decide_plan-Kept plan p = elim (Bool-cases (is_empty plan)) [
    | inl e ↦ rw e (nothing_planned-Kept p)
    | inr e ↦ elim (Bool-cases (is_finished s g && not p.application.sync.self_heal)) [
      | inl k ↦ rw (e, k) (Kept-unless p _ (drifted-apply s g p))
      | inr k ↦ rw (e, k) (without_conflict-Kept _ p)
    ]
  ]

  planned_by-Kept : (o : Planned) (p : Pair) → Kept p (planned_by s g o p)
  unfolding planned_by
  planned_by-Kept (refused hash failure) p = tt
  planned_by-Kept (planned hash plan) p = decide_plan-Kept plan _

-- The Revision of an attempt, by whether its rollout starts over: a new attempt is counted once.
abbrev pub Counted : Bool → Pair → Pair → Type 0
Counted fresh p q =
    (q.revision.name ≡ p.revision.name)
    × (q.revision.source_revision ≡ p.revision.source_revision)
    × (q.revision.status.attempts ≡ (
        if is_new p.revision.status.phase
        then suc p.revision.status.attempts
        else p.revision.status.attempts))
    × (q.revision.status.hooks ≡ (if fresh then [] else p.revision.status.hooks))

abbrev pub Applied : Bool → Pair → Ending → Type 0
Applied fresh p (apply q) = Counted fresh p q
Applied fresh p _ = Unit

-- From the counted pair to the one before.
counted :
    (p r : Pair) (fresh : Bool) (d : Ending) → Counted fresh p r → Kept r d → Applied fresh p d
counted p r fresh (apply q) c k = (k.0 ∙ c.0, k.1 ∙ c.1, k.2 ∙ c.2, k.3 ∙ c.3)
counted p r fresh (complete_deployment q b) c k = tt
counted p r fresh (asks_approval q b) c k = tt
counted p r fresh (waits_dependencies q) c k = tt
counted p r fresh (fail_attempt f q) c k = tt
counted p r fresh (keep q) c k = tt
counted p r fresh (store q) c k = tt
counted p r fresh (blocked o others q) c k = tt
counted p r fresh error c k = tt

module _ (s : Setting) where
  start-Counted : (p : Pair) → Counted false p (start_planning s.now (count_attempt p))
  unfolding start_planning count_attempt
  start-Counted p = elim (Bool-cases (is_new p.revision.status.phase)) [
    | inl e ↦ rw e (refl, refl, refl, refl)
    | inr e ↦ rw e (refl, refl, refl, refl)
  ]

  pub plan_attempt-Applied : (g : Progress) (p : Pair) → Applied false p (plan_attempt s g p)
  unfolding plan_attempt
  plan_attempt-Applied g p =
      counted p (start_planning s.now (count_attempt p)) false _ (start-Counted p)
        (planned_by-Kept s g _ _)
