-- ===== src/Health/Counts.antt =====
-- internal/health/health.go: `Summary` counts every verdict once.
use kuvryn_sync.Prelude.{
  ℕ, ◌+◌, ◌≤◌, ◌≡◌, refl, ◌↔◌, inl, inr, Bool, true, false, List, [], ◌∷◌, arith, if◌then◌else◌,
  Bool-cases, length, select, All,
}
use kuvryn_sync.Api.{HealthState}
use kuvryn_sync.Health.{Result, Summary, count_state, summary_from, summary}

abbrev pub IsState : HealthState → Result → Type 0
IsState state r = r.state ≡ state

-- The verdicts of a state; `unknown` stands for every state but the three that have their own count.
abbrev pub is_kind : HealthState → HealthState → Bool
is_kind HealthState.healthy HealthState.healthy = true
is_kind HealthState.progressing HealthState.progressing = true
is_kind HealthState.degraded HealthState.degraded = true
is_kind HealthState.unknown HealthState.unset = true
is_kind HealthState.unknown HealthState.unknown = true
is_kind HealthState.unknown HealthState.suspended = true
is_kind _ _ = false

abbrev pub those : HealthState → List Result → ℕ
those state rs = length (select (λ r. is_kind state r.state) rs)

abbrev pub counted : Summary → ℕ
counted s = s.healthy + s.progressing + s.degraded + s.unknown

summary_from-those :
    (s : Summary) (rs : List Result)
    → let t = summary_from s rs in
      (t.healthy ≡ s.healthy + those HealthState.healthy rs)
      × (t.progressing ≡ s.progressing + those HealthState.progressing rs)
      × (t.degraded ≡ s.degraded + those HealthState.degraded rs)
      × (t.unknown ≡ s.unknown + those HealthState.unknown rs)
      × (t.total ≡ s.total)
unfolding summary_from count_state
summary_from-those s [] = omega arith
summary_from-those s (r ∷ rs) = ground (arith, summary_from-those (count_state r.state s) rs)

one_kind :
    (state : HealthState)
    → (if is_kind HealthState.healthy state then 1 else 0)
        + (if is_kind HealthState.progressing state then 1 else 0)
        + (if is_kind HealthState.degraded state then 1 else 0)
        + (if is_kind HealthState.unknown state then 1 else 0)
      ≡ 1
one_kind HealthState.healthy = refl
one_kind HealthState.progressing = refl
one_kind HealthState.degraded = refl
one_kind HealthState.unset = refl
one_kind HealthState.unknown = refl
one_kind HealthState.suspended = refl

those-cons :
    (state : HealthState) (r : Result) (rs : List Result)
    → those state (r ∷ rs) ≡ (if is_kind state r.state then 1 else 0) + those state rs
those-cons state r rs = elim (Bool-cases (is_kind state r.state)) [
  | inl e ↦ rw e (omega arith)
  | inr e ↦ rw e (omega arith)
]

four_kinds :
    (rs : List Result)
    → those HealthState.healthy rs
        + those HealthState.progressing rs
        + those HealthState.degraded rs
        + those HealthState.unknown rs
      ≡ length rs
four_kinds [] = refl
four_kinds (r ∷ rs) = omega (
  arith,
  four_kinds rs,
  one_kind r.state,
  those-cons HealthState.healthy r rs,
  those-cons HealthState.progressing r rs,
  those-cons HealthState.degraded r rs,
  those-cons HealthState.unknown r rs,
)

those-le : (state : HealthState) (rs : List Result) → those state rs ≤ length rs
those-le state [] = omega arith
those-le state (r ∷ rs) = ground (arith, those-le state rs, those-cons state r rs)

all_healthy_iff :
    (rs : List Result)
    → (those HealthState.healthy rs ≡ length rs) ↔ All (IsState HealthState.healthy) rs
all_healthy_iff [] = (λ h. tt, λ h. refl)
all_healthy_iff (r ∷ rs) = (
  λ h. (
    ground (arith, those-le HealthState.healthy rs),
    (all_healthy_iff rs).0 (ground (arith, those-le HealthState.healthy rs)),
  ),
  λ h. ground (arith, (all_healthy_iff rs).1 h.1),
)

-- Each of the four numbers is how many verdicts have its state, `unknown` every state but Healthy,
-- Progressing and Degraded; they add up to the total, which is the number of verdicts; and the
-- healthy ones are the total exactly when every verdict is healthy.
pub summary_lem :
    (results : List Result)
    → let s = summary results in
      (s.healthy ≡ those HealthState.healthy results)
      × (s.progressing ≡ those HealthState.progressing results)
      × (s.degraded ≡ those HealthState.degraded results)
      × (s.unknown ≡ those HealthState.unknown results)
      × (s.total ≡ length results)
      × (counted s ≡ s.total)
      × ((s.healthy ≡ s.total) ↔ All (IsState HealthState.healthy) results)
unfolding summary
summary_lem results =
    let (h, p, d, u, t) = summary_from-those none_yet results in
    let (to, back) = all_healthy_iff results in
    (
      omega (arith, h),
      omega (arith, p),
      omega (arith, d),
      omega (arith, u),
      t,
      omega (arith, h, p, d, u, t, four_kinds results),
      (λ e. to (omega (arith, e, h, t)), λ a. omega (arith, h, t, back a)),
    )
  where
    none_yet : Summary
    none_yet = record {
      healthy = 0;
      progressing = 0;
      degraded = 0;
      unknown = 0;
      total = length results;
    }
