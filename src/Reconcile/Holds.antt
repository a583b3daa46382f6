-- ===== src/Reconcile/Holds.antt =====
-- Which Revision `Reconcile` applies: never one that a rollback replaced, unless that is asked for.
use kuvryn_sync.Prelude.{
  String, ◌≡◌, refl, ap, ◌≢◌, ◌⊎◌, inl, inr, Bool, true, false, Option, none, some, List, arith,
  ◌==◌, eq_iff, Bool-cases,
}
use mathlib.Core.Path.{subst}
use kuvryn_sync.Api.{Condition, Application, Revision}
use kuvryn_sync.Rollback.{RollbackRequest, RollbackHold, is_active, held_by}
use kuvryn_sync.Retry.{Why, retry_blocked}
use kuvryn_sync.Rollout.{RolloutState, rollout_of}
use kuvryn_sync.Deployment.{Pair}
use kuvryn_sync.Dependencies.{dependencies_ready}
use kuvryn_sync.Reconcile.{
  Ending, apply, complete_deployment, asks_approval, waits_dependencies, fail_attempt, keep, store,
  blocked, error, Setting, Progress,
}
use kuvryn_sync.Reconcile.Gates.{is_apply}
use kuvryn_sync.Reconcile.Kept.{Counted, Applied, plan_attempt-Applied}
use kuvryn_sync.Reconcile.Attempt.{
  Start, is_fresh, start_over, fresh_by, begin_attempt, report_blocked, progress_of, retried_by,
  attempt, lifted, deploy_held, held_attempt, reconcile_revision,
}

started_over :
    (p : Pair) (rollout : RolloutState) (after : Application) (d : Ending)
    → Applied false (record (start_over rollout p) { application = after }) d
    → Applied true p d
unfolding start_over
started_over p rollout after (apply q) c = c
started_over p rollout after (complete_deployment q b) c = tt
started_over p rollout after (asks_approval q b) c = tt
started_over p rollout after (waits_dependencies q) c = tt
started_over p rollout after (fail_attempt f q) c = tt
started_over p rollout after (keep q) c = tt
started_over p rollout after (store q) c = tt
started_over p rollout after (blocked o others q) c = tt
started_over p rollout after error c = tt

-- The dependencies of the Application are ready.
abbrev pub HasReady : Setting → Pair → Type 0
HasReady s p =
    (after : Application) × (dependencies_ready s.listed p.application ≡ some (true, after))

module _ (s : Setting) where
  -- A fresh attempt has its dependencies checked before it plans.
  fresh_by-ready :
      (g : Progress) (o : Option (Bool × Application)) (p q : Pair)
      → fresh_by s g o p ≡ apply q
      → (after : Application) × (o ≡ some (true, after))
  unfolding fresh_by
  fresh_by-ready g none p q e = absurd (ground (arith, ap is_apply e))
  fresh_by-ready g (some (false, after)) p q e = absurd (ground (arith, ap is_apply e))
  fresh_by-ready g (some (true, after)) p q e = (after, refl)

  begin_attempt-ready :
      (g : Progress) (p q : Pair) → begin_attempt s g p ≡ apply q → g.fresh ≡ true → HasReady s p
  unfolding begin_attempt
  begin_attempt-ready g p q e f =
      fresh_by-ready g (dependencies_ready s.listed p.application) (start_over g.rollout p) q
        (simp f at e)

  fresh_by-Applied :
      (g : Progress) (o : Option (Bool × Application)) (p : Pair)
      → Applied true p (fresh_by s g o (start_over g.rollout p))
  unfolding fresh_by
  fresh_by-Applied g none p = tt
  fresh_by-Applied g (some (false, after)) p = tt
  fresh_by-Applied g (some (true, after)) p =
      started_over p g.rollout after _ (plan_attempt-Applied s g _)

  begin_attempt-Applied : (g : Progress) (p : Pair) → Applied g.fresh p (begin_attempt s g p)
  unfolding begin_attempt
  begin_attempt-Applied g p = elim (Bool-cases g.fresh) [
    | inl e ↦ simp e (fresh_by-Applied g (dependencies_ready s.listed p.application) p)
    | inr e ↦ simp e (plan_attempt-Applied s g p)
  ]

  report_blocked-apply :
      (request : RollbackRequest) (exhausted : Bool) (others : List Revision) (p : Pair)
      → is_apply (report_blocked s request exhausted others p) ≡ false
  unfolding report_blocked
  report_blocked-apply request exhausted others p = ground arith

abbrev pub begins : String → Pair → Bool
begins resolved p = is_fresh (rollout_of p.revision p.revision.status.phase) resolved p.application

-- The attempt was allowed, and it is counted; a fresh rollout has no hooks recorded, and its
-- dependencies are ready.
abbrev pub Attempted : Setting → String → Pair → Pair → Type 0
Attempted s resolved p q =
    ((retry_blocked p.application p.revision s.now).0 ≡ none)
    × Counted (begins resolved p) p q
    × (begins resolved p ≡ true → HasReady s p)

retried_by-Attempted :
    (s : Setting) (start : Start) (resolved : String) (o : Option Why × Bool) (p q : Pair)
    → retried_by s start resolved o p ≡ apply q
    → (o.0 ≡ none) × Counted (begins resolved p) p q × (begins resolved p ≡ true → HasReady s p)
unfolding retried_by progress_of
retried_by-Attempted s start resolved (none, exhausted) p q e = (
  refl,
  subst (Applied (begins resolved p) p) e
      (begin_attempt-Applied s (progress_of s start resolved p) p),
  begin_attempt-ready s (progress_of s start resolved p) p q e,
)
retried_by-Attempted s start resolved (some why, exhausted) p q e =
    absurd
      (ground (arith, ap is_apply e, report_blocked-apply s start.request exhausted start.others p))

attempt-Attempted :
    (s : Setting) (start : Start) (resolved : String) (p q : Pair)
    → attempt s start resolved p ≡ apply q
    → Attempted s resolved p q
unfolding attempt
attempt-Attempted s start resolved p q e =
    retried_by-Attempted s start resolved (retry_blocked p.application p.revision s.now) p q e

-- Which pair an attempt is made with, and the source revision that it deploys.
pub data IsChosen (start : Start) (resolved : String) (deployed : String ⊎ Revision) (p : Pair)
    : String → Pair → Type 0 where
  free : held_by p.revision ≡ none → IsChosen start resolved deployed p resolved p
  requested :
      (hold : Condition)
      → held_by p.revision ≡ some hold
      → is_active start.request ≡ true
      → IsChosen start resolved deployed p resolved (lifted p)
  runs_again :
      (hold : Condition)
      → held_by p.revision ≡ some hold
      → is_active start.request ≡ false
      → p.application.status.deployed_revision ≡ resolved
      → IsChosen start resolved deployed p resolved (lifted p)
  instead :
      (hold : Condition) (revision : Revision)
      → held_by p.revision ≡ some hold
      → is_active start.request ≡ false
      → p.application.status.deployed_revision ≢ resolved
      → p.application.status.deployed_revision ≢ ""
      → deployed ≡ inr revision
      → IsChosen start resolved deployed p revision.source_revision
          (record p { revision = revision })

differ : (a b : String) → a == b ≡ false → a ≢ b
differ a b h e = ground (arith, h, e, eq_iff a b)

abbrev pub Choice : Setting → Start → String → String ⊎ Revision → Pair → Pair → Type 0
Choice s start resolved deployed p q =
    (source : String) × (x : Pair) × IsChosen start resolved deployed p source x
    × Attempted s source x q

deploy_held-Choice :
    (s : Setting) (start : Start) (resolved : String) (hold : RollbackHold)
    (deployed : String ⊎ Revision) (p q : Pair)
    → ((revision : Revision)
        → deployed ≡ inr revision
        → IsChosen start resolved deployed p revision.source_revision
            (record p { revision = revision }))
    → deploy_held s start hold deployed p ≡ apply q
    → Choice s start resolved deployed p q
unfolding deploy_held
deploy_held-Choice s start resolved hold (inl reason) p q choose e = absurd (ground (arith, e))
deploy_held-Choice s start resolved hold (inr revision) p q choose e = (
  revision.source_revision,
  record p { revision = revision },
  choose revision refl,
  attempt-Attempted (record s { hold = some hold }) start revision.source_revision
      (record p { revision = revision }) q e,
)

held_attempt-Choice :
    (s : Setting) (start : Start) (resolved : String) (deployed : String ⊎ Revision)
    (held : Option Condition) (p q : Pair)
    → held_by p.revision ≡ held
    → held_attempt s start resolved deployed held p ≡ apply q
    → Choice s start resolved deployed p q
unfolding held_attempt
held_attempt-Choice s start resolved deployed none p q h e =
    (resolved, p, free h, attempt-Attempted s start resolved p q e)
held_attempt-Choice s start resolved deployed (some held) p q h e =
    elim (Bool-cases (is_active start.request)) [
      | inl a ↦ (
        resolved,
        lifted p,
        requested held h a,
        attempt-Attempted s start resolved (lifted p) q (simp a at e),
      )
      | inr i ↦ elim (Bool-cases (p.application.status.deployed_revision == resolved)) [
        | inl r ↦ (
          resolved,
          lifted p,
          runs_again held h i ((eq_iff p.application.status.deployed_revision resolved).0 r),
          attempt-Attempted s start resolved (lifted p) q (simp (i, r) at e),
        )
        | inr d ↦ elim (Bool-cases (p.application.status.deployed_revision == "")) [
          | inl n ↦ absurd (ground (arith, ap is_apply (simp (i, d, n) at e)))
          | inr n ↦
              deploy_held-Choice s start resolved _ deployed p q
                (λ revision k.
                  instead held revision h i
                    (differ p.application.status.deployed_revision resolved d)
                    (differ p.application.status.deployed_revision "" n) k)
                (simp (i, d, n) at e)
        ]
      ]
    ]

-- Whatever `Reconcile` applies is an attempt that the retry limits allow and that is counted once if
-- it is new; where the rollout is fresh, the dependencies are ready. It is made with the Revision of
-- the resolved source, if that is not held, or if it is held and a rollback is requested or its
-- commit is the deployed one, both of which lift the hold. Where it is held and neither is so, the
-- attempt is made with the Revision of the deployed commit, which there is.
pub reconcile_revision-apply :
    (s : Setting) (start : Start) (resolved : String) (deployed : String ⊎ Revision) (p q : Pair)
    → reconcile_revision s start resolved deployed p ≡ apply q
    → Choice s start resolved deployed p q
unfolding reconcile_revision
reconcile_revision-apply s start resolved deployed p q e =
    held_attempt-Choice s start resolved deployed (held_by p.revision) p q refl e
