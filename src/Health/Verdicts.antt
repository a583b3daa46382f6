-- ===== src/Health/Verdicts.antt =====
-- internal/health/health.go: what a verdict says of the object.
use kuvryn_sync.Prelude.{◌≡◌, refl, ◌↔◌, ◌⊎◌, Option, none, some, arith, eq_iff, ℤ, pos, ◌≤ℤ◌}
use kuvryn_sync.Resource.{ObjectId}
use kuvryn_sync.Api.{HealthState}
use kuvryn_sync.Health.{Live, int_or, evaluate_replicas, evaluate_as}

-- What a field says, or its default.
abbrev pub said : Option ℤ → ℤ → ℤ
said none fallback = fallback
said (some n) fallback = n

said_lem : (o : Option ℤ) (fallback : ℤ) → said o fallback ≡ int_or fallback o
said_lem none fallback = refl
said_lem (some n) fallback = refl

-- The latest generation of the object, where it has one, was observed, and at least the replicas
-- that its spec wants are available.
abbrev pub IsAvailable : Live → Type 0
IsAvailable o =
    ((o.generation ≤ℤ pos 0) ⊎ (o.generation ≤ℤ said (o.status_int "observedGeneration") (pos 0)))
    × (said (o.spec_int "replicas") (pos 1) ≤ℤ said (o.status_int "availableReplicas") (pos 0))

evaluate_replicas-state :
    (id : ObjectId) (o : Live)
    → (((evaluate_replicas id o).state ≡ HealthState.healthy) ↔ IsAvailable o)
      × (((evaluate_replicas id o).state ≡ HealthState.progressing) ↔ (¬ IsAvailable o))
unfolding evaluate_replicas
evaluate_replicas-state id o =
    rw
      (
        said_lem (o.status_int "observedGeneration") (pos 0),
        said_lem (o.spec_int "replicas") (pos 1),
        said_lem (o.status_int "availableReplicas") (pos 0),
      )
      (ground arith)

has_replicas :
    (id : ObjectId) (o : Live)
    → (o.object.kind ≡ "Deployment") ⊎ (o.object.kind ≡ "StatefulSet")
    → evaluate_as id o ≡ evaluate_replicas id o
unfolding evaluate_as
has_replicas id o k =
    ground (arith, k, eq_iff o.object.kind "Deployment", eq_iff o.object.kind "StatefulSet")

-- A Deployment or a StatefulSet is healthy exactly when its generation is not above the observed one,
-- or is not positive, and at least as many replicas are available as its spec wants, 1 where it says
-- nothing; otherwise it progresses.
pub evaluate_as-replicas :
    (id : ObjectId) (o : Live)
    → (o.object.kind ≡ "Deployment") ⊎ (o.object.kind ≡ "StatefulSet")
    → (((evaluate_as id o).state ≡ HealthState.healthy) ↔ IsAvailable o)
      × (((evaluate_as id o).state ≡ HealthState.progressing) ↔ (¬ IsAvailable o))
evaluate_as-replicas id o k = rw (has_replicas id o k) (evaluate_replicas-state id o)
