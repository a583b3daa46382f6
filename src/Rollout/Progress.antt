-- ===== src/Rollout/Progress.antt =====
-- internal/controller/application_rollout.go: the progress of a rollout, recorded and read again.
use kuvryn_sync.Prelude.{
  String, ◌≡◌, refl, ◌≢◌, Bool, arith, eq_iff, if◌then◌else◌, lookup, lookup-insert,
}
use kuvryn_sync.Api.{Phase, Revision}
use kuvryn_sync.Rollout.{
  RolloutState, rollout_complete_condition, rollout_of, rollout_of_condition, set_rollout_complete,
}

abbrev pub recorded_state : Bool → RolloutState
recorded_state done = if done then RolloutState.complete else RolloutState.in_progress

-- What was recorded last is what a later reconcile reads, whatever phase the Revision has by then,
-- a failed one included; and recording it changes no other condition and not the phase.
pub rollout_of-set_rollout_complete :
    (revision : Revision) (done : Bool) (previous : Phase)
    → let after = set_rollout_complete revision done in
      (rollout_of after previous ≡ recorded_state done)
      × (after.status.phase ≡ revision.status.phase)
      × ((kind : String)
          → rollout_complete_condition ≢ kind
          → lookup kind after.status.conditions ≡ lookup kind revision.status.conditions)
unfolding rollout_of set_rollout_complete rollout_of_condition
rollout_of-set_rollout_complete revision done previous = (
  rw
      (lookup-insert rollout_complete_condition rollout_complete_condition
        (record { holds = done; reason = if done then "Complete" else "RollingOut" })
        revision.status.conditions)
      refl,
  refl,
  λ kind n.
      rw
        (lookup-insert rollout_complete_condition kind
          (record { holds = done; reason = if done then "Complete" else "RollingOut" })
          revision.status.conditions)
        (ground (arith, n, eq_iff rollout_complete_condition kind)),
)
