-- ===== src/Retry/Bounds.antt =====
-- internal/retry/retry.go: when an attempt is allowed, and how long one may have to wait.
use kuvryn_sync.Prelude.{
  ℕ, zero, suc, ◌+◌, ◌-◌, ◌^◌, ◌≤◌, ◌<◌, min, ◌≡◌, ap, ◌↔◌, ◌⊎◌, true, Option, arith, ℤ,
}
use native.Mathlib.Nat.{pow-suc}
use Prim.Native.Nat.add
use kuvryn_sync.Api.{Revision}
use kuvryn_sync.Retry.{State, max_attempts, decide, retry_backoff}

-- An attempt is allowed exactly when attempts are left and no backoff since a recorded failure is
-- running; and it is refused for good exactly when no attempt is left.
pub decide_iff :
    (policy : Option ℤ) (s : State) (now backoff : ℕ)
    → (((decide policy s now backoff).allowed ≡ true) ↔ (
        (s.attempts < max_attempts policy)
        × ((s.last_failure_at ≡ 0) ⊎ (backoff ≡ 0) ⊎ (s.last_failure_at + backoff ≤ now))))
      × (((decide policy s now backoff).exhausted ≡ true) ↔ (max_attempts policy ≤ s.attempts))
unfolding decide
decide_iff policy s now backoff =
    ((λ h. ground arith, λ h. ground arith), (λ h. ground arith, λ h. ground arith))

pow_mono : (n k : ℕ) → (1 ≤ 2 ^ n) × (2 ^ n ≤ 2 ^ (k + n))
pow_mono zero zero = omega arith
pow_mono (suc n) zero = rw add.zero (omega (arith, pow-suc 2 n, pow_mono n zero))
pow_mono n (suc k) = rw add.suc (omega (arith, pow-suc 2 (k + n), pow_mono n k))

-- A failed Revision waits between one second and one minute for its next attempt, and after more
-- attempts it never waits less.
pub retry_backoff_bounds :
    (r s : Revision)
    → r.status.attempts ≤ s.status.attempts
    → (1 ≤ retry_backoff r) × (retry_backoff r ≤ retry_backoff s) × (retry_backoff s ≤ 60)
unfolding retry_backoff
retry_backoff_bounds r s h =
    let k : ℕ = min s.status.attempts 6 - min r.status.attempts 6 in
    let e : k + min r.status.attempts 6 ≡ min s.status.attempts 6 = omega arith in
    omega (arith, pow_mono (min r.status.attempts 6) k, ap (λ (n : ℕ). 2 ^ n) e)
