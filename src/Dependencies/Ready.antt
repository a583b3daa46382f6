-- ===== src/Dependencies/Ready.antt =====
-- When application_controller.go takes the dependencies of an Application for ready.
use kuvryn_sync.Prelude.{
  String, ◌≡◌, refl, sym, ◌∙◌, ◌≢◌, ◌↔◌, inl, inr, Bool, true, false, Option, none, some, List, [],
  ◌∷◌, arith, eq_iff, eq_refl, ltb, eqb→eq, Bool-cases, length, All, lookup,
}
use mathlib.Core.Bool.{false≢true}
use mathlib.Core.Path.{subst}
use mathlib.Core.Option.{some-injective}
use kuvryn_sync.Api.{HealthState, Application}
use kuvryn_sync.Dependencies.{
  dependency_cycle, by_name, waiting_for, dependency_healthy, dependencies_condition,
  dependencies_ready, with_answer, ready_for,
}
use kuvryn_sync.Dependencies.Cycles.{Walk, one, more, dependency_cycle_iff}

-- The status is of the latest generation, the health is Healthy, and what is deployed is the wanted
-- Revision.
abbrev pub IsUp : Application → Type 0
IsUp app =
    (app.status.observed_generation ≡ app.generation)
    × (app.status.health ≡ HealthState.healthy)
    × (app.status.desired_revision ≢ "")
    × (app.status.deployed_revision ≡ app.status.desired_revision)

-- There is an Application of the name, and it is up.
abbrev pub IsReady : List (String × Application) → String → Type 0
IsReady names dep = (app : Application) × (lookup dep names ≡ some app) × IsUp app

healthy_app_iff : (app : Application) → (dependency_healthy (some app) ≡ true) ↔ IsUp app
unfolding dependency_healthy
healthy_app_iff app = ground (
  arith,
  eqb→eq app.status.observed_generation app.generation,
  eq_iff app.status.desired_revision "",
  eq_iff app.status.deployed_revision app.status.desired_revision,
)

dependency_healthy_iff :
    (names : List (String × Application)) (dep : String)
    → (dependency_healthy (lookup dep names) ≡ true) ↔ IsReady names dep
unfolding dependency_healthy
dependency_healthy_iff names dep = by_lookup (lookup dep names) refl
  where
    by_lookup :
        (o : Option Application)
        → lookup dep names ≡ o
        → (dependency_healthy o ≡ true) ↔ IsReady names dep
    by_lookup none e =
        (λ h. absurd (false≢true h), λ (app, found, _). absurd (ground (arith, e, found)))
    by_lookup (some app) e = (
      λ h. (app, e, (healthy_app_iff app).0 h),
      λ (other, found, rest).
          let same : other ≡ app = some-injective other app (sym found ∙ e) in
          (healthy_app_iff app).1 (subst IsUp same rest),
    )

none_pending :
    (names : List (String × Application)) (deps : List String)
    → (ltb 0 (length (waiting_for names deps)) ≡ false) ↔ All (IsReady names) deps
unfolding waiting_for
none_pending names [] = (λ e. tt, λ h. refl)
none_pending names (dep ∷ deps) = elim (Bool-cases (dependency_healthy (lookup dep names))) [
  | inl e ↦ rw e (
    λ h. ((dependency_healthy_iff names dep).0 e, (none_pending names deps).0 h),
    λ h. (none_pending names deps).1 h.1,
  )
  | inr e ↦ rw e (
    λ h. absurd (ground (arith, h)),
    λ h. absurd (false≢true (sym e ∙ (dependency_healthy_iff names dep).1 h.0)),
  )
]

no-Walk :
    (start : String) (names : List (String × Application)) (y : String)
    → Walk start [] names start y
    → ⊥
no-Walk start names y (one (next, e, m)) = ground (arith, e, m, eq_refl start)
no-Walk start names y (more w e) = no-Walk start names _ w

condition_iff :
    (found : String) (waiting : List String)
    → ((dependencies_condition found waiting).holds ≡ true)
      ↔ ((found ≡ "") × (ltb 0 (length waiting) ≡ false))
unfolding dependencies_condition
condition_iff found waiting = ground (arith, eq_iff found "")

ready_for_iff :
    (apps : List Application) (application : Application) (deps : List String)
    → (ready : Bool) × (after : Application) × (ready_for (some apps) application deps
        ≡ some (ready, after))
      × ((ready ≡ true) ↔ (
          (Walk application.name deps (by_name [] apps) application.name application.name → ⊥)
          × All (IsReady (by_name [] apps)) deps))
unfolding ready_for with_answer
ready_for_iff apps application [] = (
  true,
  _,
  refl,
  (λ e. (no-Walk application.name (by_name [] apps) application.name, tt), λ h. refl),
)
ready_for_iff apps application (dep ∷ deps) =
    let names = by_name [] apps in
    let found = dependency_cycle application.name (dep ∷ deps) names in
    let (to, back) = condition_iff found (waiting_for names (dep ∷ deps)) in
    let (none_found, no_path) = dependency_cycle_iff application.name (dep ∷ deps) names in
    let (all_ready, none_waits) = none_pending names (dep ∷ deps) in
    (
      _,
      _,
      refl,
      (λ e. (none_found (to e).0, all_ready (to e).1), λ h. back (no_path h.0, none_waits h.1)),
    )

-- With the Applications of the namespace listed, the dependencies are ready exactly where no walk
-- along the dependencies leads from the Application back to it and each of them is the name of an
-- Application that is up: its status is of its latest generation, its health is Healthy, and what it
-- deployed is the Revision that it wants, which is named. The answer is given for every Application.
pub dependencies_ready_iff :
    (apps : List Application) (application : Application)
    → (ready : Bool) × (after : Application) × (dependencies_ready (some apps) application
        ≡ some (ready, after))
      × ((ready ≡ true) ↔ (
          (Walk application.name application.depends_on
              (by_name [] apps)
              application.name
              application.name
            → ⊥)
          × All (IsReady (by_name [] apps)) application.depends_on))
unfolding dependencies_ready
dependencies_ready_iff apps application = ready_for_iff apps application application.depends_on
