-- ===== src/Deployment/Fails.antt =====
-- internal/controller/application_controller.go: what `failRevisionAndApplication` leaves.
use kuvryn_sync.Prelude.{
  ℕ, String, ◌≡◌, refl, sym, ◌⊎◌, inl, inr, true, false, Option, none, some, List, Bool-cases,
  lookup, insert, lookup-insert,
}
use mathlib.Core.Bool.{false≢true}
use kuvryn_sync.Api.{Phase, HealthState, SyncState, Condition, Failure, Revision}
use kuvryn_sync.Rollback.{
  application_revisions, abandon_rollback, rollback_request_of, is_active, application_revisions,
  clear_rollback_request, set_rollback_request, RollbackHold, written_status,
}
use kuvryn_sync.Rollback.Request.{cleared-inactive}
use kuvryn_sync.Deployment.{
  is_rollback, fail_revision_and_application, Pair, set_ready, written, fail, failed_with, fail_to,
  queue_rollback,
}
use kuvryn_sync.History.{target}
use kuvryn_sync.Deployment.Ends.{ready_of, sync_of}

-- A Revision that is failed or rolls back, and an Application that is degraded, not Synced and not
-- Ready, with the failure's reason.
abbrev pub IsFailed : Failure → Pair → Type 0
IsFailed failure q =
    ((q.revision.status.phase ≡ Phase.failed) ⊎ (q.revision.status.phase ≡ Phase.rolling_back))
    × (q.application.status.health ≡ HealthState.degraded)
    × (sync_of q ≡ SyncState.out_of_sync)
    × (ready_of q ≡ some (record { holds = false; reason = failure.reason }))

not_ready :
    (failure : Failure) (conditions : List (String × Condition))
    → lookup "Ready" (insert "Ready" (record { holds = false; reason = failure.reason }) conditions)
      ≡ some (record { holds = false; reason = failure.reason })
not_ready failure conditions =
    lookup-insert "Ready" "Ready" (record { holds = false; reason = failure.reason }) conditions

module _ (now : ℕ) (failure : Failure) (p : Pair) where
  failed_with-IsFailed :
      (hold : Option RollbackHold) → IsFailed failure (written hold (failed_with now failure p))
  unfolding failed_with fail set_ready written_status
  failed_with-IsFailed none =
      (inl refl, refl, refl, not_ready failure p.application.status.conditions)
  failed_with-IsFailed (some hold) =
      (inl refl, refl, refl, not_ready failure p.application.status.conditions)

  fail_to-IsFailed :
      (to : Option Revision) (hold : Option RollbackHold)
      → IsFailed failure (written hold (fail_to to now failure p))
  unfolding fail_to queue_rollback failed_with fail set_ready written_status set_rollback_request
  fail_to-IsFailed none none =
      (inl refl, refl, refl, not_ready failure p.application.status.conditions)
  fail_to-IsFailed none (some hold) =
      (inl refl, refl, refl, not_ready failure p.application.status.conditions)
  fail_to-IsFailed (some to) none =
      (inr refl, refl, refl, not_ready failure p.application.status.conditions)
  fail_to-IsFailed (some to) (some hold) =
      (inr refl, refl, refl, not_ready failure p.application.status.conditions)

  annotations-kept :
      (hold : Option RollbackHold)
      → (written hold (failed_with now failure p)).application.annotations
        ≡ p.application.annotations
  unfolding failed_with fail set_ready
  annotations-kept hold = refl

given_up-inactive :
    (now : ℕ) (failure : Failure) (p : Pair) (hold : Option RollbackHold)
    → is_active (
        rollback_request_of
          (written hold (
            failed_with now failure
              (record p { application = clear_rollback_request p.application }))).application)
      ≡ false
unfolding failed_with fail set_ready clear_rollback_request is_active rollback_request_of
given_up-inactive now failure p hold = cleared-inactive p.application

-- After a failure the Revision is failed or rolls back, and the Application is degraded, not Synced
-- and not Ready, with the failure's reason. If the target of a requested rollback failed, then the
-- request is gone where the failure cannot be retried, and all annotations are as they were where
-- it can.
pub fail_revision_and_application-IsFailed :
    (now : ℕ) (hold : Option RollbackHold) (others : List Revision) (failure : Failure) (p : Pair)
    → let q = (fail_revision_and_application now hold others failure p).0 in
      IsFailed failure q
      × (is_active (rollback_request_of p.application) ≡ true
          → failure.retryable ≡ false
          → is_active (rollback_request_of q.application) ≡ false)
      × (is_active (rollback_request_of p.application) ≡ true
          → failure.retryable ≡ true
          → q.application.annotations ≡ p.application.annotations)
unfolding fail_revision_and_application abandon_rollback
fail_revision_and_application-IsFailed now hold others failure p =
    elim (Bool-cases (is_active (rollback_request_of p.application))) [
      | inl e ↦ elim (Bool-cases failure.retryable) [
        | inl r ↦
            rw (e, r)
              (
                failed_with-IsFailed now failure p hold,
                λ a n. absurd (false≢true (sym n)),
                λ a y. annotations-kept now failure p hold,
              )
        | inr r ↦
            rw (e, r)
              (
                failed_with-IsFailed now failure
                    (record p { application = clear_rollback_request p.application }) hold,
                λ a n. given_up-inactive now failure p hold,
                λ a y. absurd (false≢true y),
              )
      ]
      | inr e ↦ elim (Bool-cases (is_rollback p.application.strategy.failure_policy.action)) [
        | inl r ↦
            rw (e, r)
              (
                fail_to-IsFailed now failure p
                    (target p.revision (application_revisions p.application others)) hold,
                λ a. absurd (false≢true a),
                λ a. absurd (false≢true a),
              )
        | inr r ↦
            rw (e, r)
              (
                failed_with-IsFailed now failure p hold,
                λ a. absurd (false≢true a),
                λ a. absurd (false≢true a),
              )
      ]
    ]
