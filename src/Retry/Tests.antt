-- ===== src/Retry/Tests.antt =====
-- internal/retry/retry.go on concrete numbers.
use kuvryn_sync.Prelude.{ℕ, ◌+◌, ◌≤◌, ◌<◌, ◌≡◌, refl, ◌↔◌, ◌⊎◌, true, some, arith, pos}
use kuvryn_sync.Api.{Phase, Revision}
use kuvryn_sync.Samples.{planned}
use kuvryn_sync.Retry.{State, max_attempts, decide, retry_backoff}
use kuvryn_sync.Retry.Bounds.{decide_iff, retry_backoff_bounds}

abbrev tried : ℕ → Revision
tried n =
    let r = planned Phase.failed "shop-1" "abc" 1 in
    record r { status = record (r.status) { attempts = n } }

abbrev state : State
state = record { desired_revision = "abc"; attempts = 2; last_failure_at = 100 }

retry_backoff_test : retry_backoff (tried 3) ≡ 8
unfolding retry_backoff
retry_backoff_test = refl

decide_iff_example :
    (((decide (some (pos 3)) state 103 4).allowed ≡ true) ↔ (
      (state.attempts < max_attempts (some (pos 3)))
      × ((state.last_failure_at ≡ 0) ⊎ (◌≡◌ {A = ℕ} 4 0) ⊎ (state.last_failure_at + 4 ≤ 103))))
    × (((decide (some (pos 3)) state 103 4).exhausted ≡ true)
        ↔ (max_attempts (some (pos 3)) ≤ state.attempts))
decide_iff_example = decide_iff (some (pos 3)) state 103 4

retry_backoff_bounds_example :
    (1 ≤ retry_backoff (tried 2))
    × (retry_backoff (tried 2) ≤ retry_backoff (tried 9))
    × (retry_backoff (tried 9) ≤ 60)
retry_backoff_bounds_example = retry_backoff_bounds (tried 2) (tried 9) (ground arith)
