-- ===== src/Reconcile/Tests.antt =====
-- Runs and examples for the decisions of a reconcile.
use kuvryn_sync.Prelude.{
  String, ◌≡◌, refl, ◌⊎◌, inr, Bool, true, false, none, some, [], ◌∷◌, lookup,
}
use kuvryn_sync.Samples.{
  group_versions, application, planned as planned_revision, clock, fingerprint,
}
use kuvryn_sync.Api.{Phase, HealthState, Revision, Application}
use kuvryn_sync.Rollout.{not_started, rollout_of}
use kuvryn_sync.Rollback.{RollbackRequest, held_by, is_active, if_true, lift_hold}
use kuvryn_sync.Retry.{retry_blocked}
use kuvryn_sync.Deployment.{Pair, start_planning}
use kuvryn_sync.Dependencies.{dependencies_ready}
use kuvryn_sync.Reconcile.{Ending, apply, asks_approval, Plan, planned, Setting, Progress}
use kuvryn_sync.Reconcile.Decide.{decide_plan, is_empty, is_in_progress}
use kuvryn_sync.Reconcile.Attempt.{Start, reconcile_revision}
use kuvryn_sync.Reconcile.Gates.{Passed, decide_plan-apply}
use kuvryn_sync.Reconcile.Holds.{Choice, reconcile_revision-apply}
use kuvryn_sync.Conflicts.{conflict_failure}

abbrev one_create : Plan
one_create = record { creates = 1; updates = 0; deletes = 0; changes = []; digest = "digest-2" }

abbrev setting : Setting
setting = record {
  sum = fingerprint;
  time = clock;
  gv = group_versions;
  listed = some [];
  finished_health = some HealthState.healthy;
  plan_of = λ p. planned "state-2" one_create;
  hold = none;
  now = 20;
}

abbrev no_request : RollbackRequest
no_request = record { target = ""; from = ""; kind = "" }

abbrev first_rollout : Progress
first_rollout = record {
  request = no_request;
  rollout = not_started;
  fresh = true;
  previous_phase = Phase.pending;
  previous_health = HealthState.unknown;
  previous_state = HealthState.unknown;
}

abbrev automatic_application : Application
automatic_application =
    let app = application [] in record app { sync = record (app.sync) { automatic = true } }

abbrev pair : Pair
pair = record {
  revision = planned_revision Phase.pending "shop-2" "def" 4;
  application = automatic_application;
}

abbrev pair_of : Ending → Pair
pair_of (apply q) = q
pair_of _ = pair

-- A manual sync waits for an approval.
abbrev waits_for_approval : Ending → Bool
waits_for_approval (asks_approval _ _) = true
waits_for_approval _ = false

manual_waits :
    waits_for_approval
      (decide_plan setting first_rollout one_create (record pair { application = application [] }))
    ≡ true
unfolding decide_plan conflict_failure kuvryn_sync.Approval.rollout_approval is_active
    kuvryn_sync.Approval.manual_approval lookup kuvryn_sync.Rollback.rollback_approval
manual_waits = refl

decided :
    decide_plan setting first_rollout one_create pair
    ≡ apply (pair_of (decide_plan setting first_rollout one_create pair))
unfolding decide_plan conflict_failure
decided = refl

decide_plan-apply_example :
    ((is_empty one_create ≡ true) × (is_in_progress not_started ≡ true))
    ⊎ Passed setting first_rollout one_create pair
        (pair_of (decide_plan setting first_rollout one_create pair))
decide_plan-apply_example =
    decide_plan-apply setting first_rollout one_create pair
      (pair_of (decide_plan setting first_rollout one_create pair)) decided

abbrev start : Start
start = record {
  request = no_request;
  previous_health = HealthState.healthy;
  previous_state = HealthState.healthy;
  others = [];
}

abbrev held_pair : Pair
held_pair =
    let r = planned_revision Phase.failed "shop-2" "def" 4 in
    record pair {
      revision = record r {
        status = record (r.status) {
          conditions = ("RolledBack", record { holds = true; reason = "RollbackCompleted" }) ∷ [];
        };
      };
    }

abbrev deployed_one : String ⊎ Revision
deployed_one = inr (planned_revision Phase.pending "shop-1" "abc" 3)

-- The held Revision stays where it is, and the deployed_one one is applied.
reconciled :
    reconcile_revision setting start "def" deployed_one held_pair
    ≡ apply (pair_of (reconcile_revision setting start "def" deployed_one held_pair))
unfolding reconcile_revision held_by lookup is_active retry_blocked rollout_of dependencies_ready
    decide_plan conflict_failure start_planning
reconciled = refl

reconcile_revision-apply_example :
    Choice setting start "def" deployed_one held_pair
      (pair_of (reconcile_revision setting start "def" deployed_one held_pair))
reconcile_revision-apply_example =
    reconcile_revision-apply setting start "def" deployed_one held_pair
      (pair_of (reconcile_revision setting start "def" deployed_one held_pair)) reconciled
