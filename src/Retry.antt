-- ===== src/Retry.antt =====
-- internal/retry/retry.go, and `retryBlocked` and `retryBackoff` of
-- internal/controller/application_controller.go. Durations are whole seconds.
pub mod Bounds
pub mod Tests
use kuvryn_sync.Prelude.{
  ℕ, zero, suc, ◌+◌, ◌-◌, ◌*◌, ◌^◌, ◌≤◌, ◌<◌, min, String, str_append, ◌≡◌, refl, sym, ap, ◌∙◌, ◌≢◌,
  ◌↔◌, ◌⊎◌, inl, inr, Bool, true, false, not, ◌&&◌, ◌||◌, Option, none, some, List, [], ◌∷◌, ◌++◌,
  map, Perm, arith, ◌==◌, eq_iff, eq_refl, ltb, leb, eqb, if◌then◌else◌, is_none, ltb→lt, lt→ltb,
  leb→le, eqb→eq, tests, Bool-cases, Option-cases, length, take, drop, select, any, all,
  length-append, take-append-drop, length-take, length-drop, All, Any, Each, text_lt, text_lt-asym,
  text_lt_trans, text_lt-antisym, IsOrder, sort_by, IsSorted, sort_by-perm, All-sort_by,
  sort_by-IsSorted, or_empty, lookup, insert, delete, lookup-insert, lookup-delete, ℤ, pos, negsuc,
  pos_part, neg_part, ◌<ℤ◌, ltb_ℤ, eqb_ℤ, eqb_ℤ→eq, ltb_ℤ-antisym, atoi, codes, codes_eq,
  trim_space, trim, to_lower, split, gather, All-select, All-of_select, All-of_sort_by, All-left,
  All-right, All-reverse, Each-reverse, gather-append, All-append, All-map_of, All-and,
  All-of_forall, Each-append, Each-and, gather-sort_by-perm, Each-sort_by,
}
use kuvryn_sync.Api.{Phase, Failure, Revision, Application}

pub record State : Type 0 where
  pub desired_revision : String
  pub attempts : ℕ
  pub last_failure_at : ℕ

pub data Why : Type 0 where
  attempts_reached : ℕ → Why
  backoff_running : Why

pub record Decision : Type 0 where
  pub allowed : Bool
  pub exhausted : Bool
  pub reason : Option Why

-- `policy.MaxAttempts`, an int32, where it is positive, and else 1.
unfoldable pub max_attempts : Option ℤ → ℕ
max_attempts none = 1
max_attempts (some (pos zero)) = 1
max_attempts (some (pos (suc n))) = suc n
max_attempts (some (negsuc n)) = 1

unfoldable pub decide : Option ℤ → State → ℕ → ℕ → Decision
decide policy state now backoff =
    if leb (max_attempts policy) state.attempts
    then record {
      allowed = false;
      exhausted = true;
      reason = some (attempts_reached (max_attempts policy));
    }
    else if ltb 0 backoff
        && not (eqb state.last_failure_at 0)
        && ltb now (state.last_failure_at + backoff)
    then record { allowed = false; exhausted = false; reason = some backoff_running }
    else record { allowed = true; exhausted = false; reason = none }

-- `min(time.Second<<min(attempts, 6), time.Minute)`
unfoldable pub retry_backoff : Revision → ℕ
retry_backoff revision = min (2 ^ min revision.status.attempts 6) 60

is_failed : Phase → Bool
is_failed Phase.failed = true
is_failed _ = false

abbrev or_zero : Option ℕ → ℕ
or_zero none = 0
or_zero (some n) = n

-- The state of the attempts for which `retryBlocked` asks.
unfoldable pub retry_state : Revision → State
retry_state revision = record {
  desired_revision = revision.source_revision;
  attempts = revision.status.attempts;
  last_failure_at = or_zero revision.status.completed_at;
}

blocked_by : Decision → Option Why × Bool
blocked_by d = if d.allowed then (none, false) else (d.reason, d.exhausted)

-- Why the Revision may not be tried again, and whether it never may.
unfoldable pub retry_blocked : Application → Revision → ℕ → Option Why × Bool
unfolding is_failed blocked_by decide retry_backoff retry_state
retry_blocked application revision now =
    if not (is_failed revision.status.phase) || is_none revision.status.failure
    then (none, false)
    else blocked_by (
        decide application.strategy.failure_policy.max_attempts (retry_state revision) now
          (retry_backoff revision))
