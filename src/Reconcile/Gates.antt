-- ===== src/Reconcile/Gates.antt =====
-- What has to hold before `Reconcile` applies anything.
use kuvryn_sync.Prelude.{
  String, ◌≡◌, refl, sym, ap, ◌∙◌, ◌⊎◌, inl, inr, Bool, true, false, not, ◌&&◌, Option, none, some,
  arith, if◌then◌else◌, Bool-cases,
}
use mathlib.Core.Bool.{false≢true}
use kuvryn_sync.Api.{Approval, Application}
use kuvryn_sync.Resource.{ObjectId}
use kuvryn_sync.Conflicts.{conflict_failure}
use kuvryn_sync.Rollback.{is_active}
use kuvryn_sync.Deployment.{Pair}
use kuvryn_sync.Dependencies.{dependencies_ready}
use kuvryn_sync.Reconcile.{Ending, apply, Plan, Setting, Progress}
use kuvryn_sync.Reconcile.Decide.{
  is_complete, is_in_progress, is_empty, is_finished, approval_of, already_synced, synced_by,
  approved_rollback, nothing_planned, drifted_by, drifted, with_approval, apply_approved,
  ask_approval, depending, check_dependencies, without_conflict, decide_plan, timed,
}

abbrev pub is_apply : Ending → Bool
is_apply (apply _) = true
is_apply _ = false

abbrev applied : Pair → Ending → Pair
applied p (apply q) = q
applied p _ = p

module _ (s : Setting) (g : Progress) where
  pub already_synced-apply : (p : Pair) → is_apply (already_synced s g p) ≡ false
  unfolding already_synced synced_by
  already_synced-apply p = ground arith

  pub drifted-apply : (p : Pair) → is_apply (drifted s g p) ≡ false
  unfolding drifted drifted_by
  drifted-apply p = ground arith

  pub approved_rollback-apply :
      (o : Option Approval × Bool) (p : Pair) → is_apply (approved_rollback s g o p) ≡ false
  unfolding approved_rollback
  approved_rollback-apply (none, stale) p = refl
  approved_rollback-apply (some a, stale) p = already_synced-apply (with_approval (some a) p)

  nothing_planned-apply : (p : Pair) → is_apply (nothing_planned s g p) ≡ is_in_progress g.rollout
  unfolding nothing_planned
  nothing_planned-apply p = elim (Bool-cases (is_in_progress g.rollout)) [
    | inl e ↦ rw e refl
    | inr e ↦ elim (Bool-cases (is_active g.request && not p.application.sync.automatic)) [
      | inl k ↦ rw (e, k) (approved_rollback-apply (approval_of s g p) p)
      | inr k ↦ rw (e, k) (already_synced-apply p)
    ]
  ]

  -- Sync is automatic, or the Application has an approval of the Revision, which the Revision keeps.
  abbrev pub IsApproved : Pair → Pair → Type 0
  IsApproved p q =
      (p.application.sync.automatic ≡ true)
      ⊎ ((approval : Approval) × ((approval_of s g p).0 ≡ some approval)
          × (q.revision.status.approval ≡ some approval))

  timed-approval :
      (p : Pair) (a : Approval)
      → (timed s g (with_approval (some a) p)).revision.status.approval ≡ some a
  unfolding timed
  timed-approval p a = elim (Bool-cases (is_complete g.rollout)) [
    | inl e ↦ rw e refl
    | inr e ↦ rw e refl
  ]

  by_approval :
      (o : Option Approval × Bool) (p q : Pair)
      → apply_approved s g o p ≡ apply q
      → (p.application.sync.automatic ≡ true)
        ⊎ ((approval : Approval) × (o.0 ≡ some approval)
            × (q.revision.status.approval ≡ some approval))
  unfolding apply_approved timed
  by_approval (none, stale) p q e = ground (arith, e)
  by_approval (some a, stale) p q e = elim (Bool-cases p.application.sync.automatic) [
    | inl auto ↦ inl auto
    | inr manual ↦
        let same = ap (applied p) (simp manual at e) in
        inr (a, refl, ap (λ x. x.revision.status.approval) (sym same) ∙ timed-approval p a)
  ]

  ask_approval-apply : (p q : Pair) → ask_approval s g p ≡ apply q → IsApproved p q
  unfolding ask_approval
  ask_approval-apply p q e = by_approval (approval_of s g p) p q e

  -- The dependencies of the Application are ready; only its conditions are set.
  abbrev pub IsDepending : Application → Application → Type 0
  IsDepending before after = dependencies_ready s.listed before ≡ some (true, after)

  depending-apply :
      (o : Option (Bool × Application)) (p q : Pair)
      → depending s g o p ≡ apply q
      → (after : Application) × (o ≡ some (true, after))
        × IsApproved (record p { application = after }) q
  unfolding depending
  depending-apply none p q e = ground (arith, e)
  depending-apply (some (false, after)) p q e = ground (arith, e)
  depending-apply (some (true, after)) p q e =
      (after, refl, ask_approval-apply (record p { application = after }) q e)

  -- A fresh rollout has checked its dependencies before.
  check_dependencies-apply :
      (p q : Pair)
      → check_dependencies s g p ≡ apply q
      → (after : Application) × (if g.fresh
          then after ≡ p.application
          else IsDepending p.application after)
        × IsApproved (record p { application = after }) q
  unfolding check_dependencies
  check_dependencies-apply p q e = elim (Bool-cases g.fresh) [
    | inl f ↦ rw f (p.application, refl, ask_approval-apply p q (rw f at e))
    | inr f ↦ rw f (depending-apply (dependencies_ready s.listed p.application) p q (rw f at e))
  ]

  -- What has to hold where there is something to apply.
  pub record Passed (plan : Plan) (p q : Pair) : Type 0 where
    pub no_conflict : conflict_failure plan.changes ≡ none
    pub repairs : is_finished s g ≡ true → p.application.sync.self_heal ≡ true
    pub application : Application
    pub ready :
        if g.fresh then application ≡ p.application else IsDepending p.application application
    pub is_approved : IsApproved (record p { application = application }) q

  by_conflict :
      (o : Option (ObjectId × String)) (p q : Pair)
      → without_conflict s g o p ≡ apply q
      → (o ≡ none) × (check_dependencies s g p ≡ apply q)
  unfolding without_conflict
  by_conflict none p q e = (refl, e)
  by_conflict (some c) p q e = ground (arith, e)

  apply-is_apply : (d : Ending) (q : Pair) → d ≡ apply q → is_apply d ≡ true
  apply-is_apply d q e = ap is_apply e

  -- Where a plan leads to the call that applies, either the plan has nothing in it and the rollout
  -- was in progress, or the plan has no conflict that fails, it is no drift that is not to be
  -- repaired, the dependencies are ready unless the rollout is fresh, and sync is automatic or the
  -- Revision is approved and carries that approval.
  pub decide_plan-apply :
      (plan : Plan) (p q : Pair)
      → decide_plan s g plan p ≡ apply q
      → ((is_empty plan ≡ true) × (is_in_progress g.rollout ≡ true)) ⊎ Passed plan p q
  unfolding decide_plan
  decide_plan-apply plan p q e = elim (Bool-cases (is_empty plan)) [
    | inl none_left ↦
        inl (none_left, sym (nothing_planned-apply p) ∙ apply-is_apply _ q (rw none_left at e))
    | inr some_left ↦ elim (Bool-cases (is_finished s g && not p.application.sync.self_heal)) [
      | inl drift ↦
          absurd
            (false≢true (sym (drifted-apply p) ∙ apply-is_apply _ q (rw (some_left, drift) at e)))
      | inr no_drift ↦
          let (free, checked) =
            by_conflict (conflict_failure plan.changes) p q (rw (some_left, no_drift) at e) in
          let (after, ready, approves) = check_dependencies-apply p q checked in
          inr (record {
            no_conflict = free;
            repairs = λ f. ground (arith, f, no_drift);
            application = after;
            ready = ready;
            is_approved = approves;
          })
    ]
  ]
