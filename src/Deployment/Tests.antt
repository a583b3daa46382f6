-- ===== src/Deployment/Tests.antt =====
-- The ends of concrete deployments.
use kuvryn_sync.Prelude.{
  String, ◌≡◌, refl, Bool, true, false, Option, none, some, List, [], ◌∷◌, lookup, trim,
}
use kuvryn_sync.Api.{Phase, Failure, Revision}
use kuvryn_sync.Annotations.{rollback_revision, rollback_from}
use kuvryn_sync.Samples.{planned, application}
use kuvryn_sync.Rollback.{rollback_request_of, is_active, RollbackHold}
use kuvryn_sync.Deployment.{Pair, complete_successful_deployment, fail_revision_and_application}
use kuvryn_sync.Deployment.Ends.{IsDeployed, IsEnd, complete_successful_deployment-IsEnd}
use kuvryn_sync.Deployment.Fails.{IsFailed, fail_revision_and_application-IsFailed}

abbrev pair : List (String × String) → Pair
pair annotations = record {
  revision = planned Phase.observing "shop-1" "abc" 1;
  application = application annotations;
}

abbrev rolling_back : Pair
rolling_back = pair ((rollback_revision, "abc") ∷ (rollback_from, "def") ∷ [])

abbrev others : List Revision
others = planned Phase.failed "shop-2" "def" 2 ∷ []

abbrev accept_all : Revision → Bool
accept_all r = true

abbrev stored : Option Pair → Pair
stored none = rolling_back
stored (some p) = p

abbrev result : Option Pair × List Revision
result = complete_successful_deployment accept_all 9 none others rolling_back

it_is_stored : result ≡ (some (stored result.0), result.1)
unfolding complete_successful_deployment is_active rollback_request_of trim lookup
    kuvryn_sync.Rollback.hold_replaced kuvryn_sync.Rollout.set_rollout_complete
    kuvryn_sync.Rollback.application_revisions kuvryn_sync.Rollback.passes_over
it_is_stored = refl

complete_successful_deployment-IsEnd_example :
    IsDeployed rolling_back (stored result.0)
    × IsEnd (is_active (rollback_request_of rolling_back.application)) none (stored result.0)
complete_successful_deployment-IsEnd_example =
    complete_successful_deployment-IsEnd accept_all 9 none others rolling_back (stored result.0)
      result.1 it_is_stored

abbrev failure : Failure
failure = record { reason = "HookFailed"; message = "a hook failed"; retryable = false }

fail_revision_and_application-IsFailed_example :
    IsFailed failure (fail_revision_and_application 9 none others failure rolling_back).0
    × (is_active (rollback_request_of rolling_back.application) ≡ true
        → failure.retryable ≡ false
        → is_active (
            rollback_request_of
              (fail_revision_and_application 9 none others failure rolling_back).0.application)
          ≡ false)
    × (is_active (rollback_request_of rolling_back.application) ≡ true
        → failure.retryable ≡ true
        → (fail_revision_and_application 9 none others failure
            rolling_back).0.application.annotations
          ≡ rolling_back.application.annotations)
fail_revision_and_application-IsFailed_example =
    fail_revision_and_application-IsFailed 9 none others failure rolling_back
