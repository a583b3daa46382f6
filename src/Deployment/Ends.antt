-- ===== src/Deployment/Ends.antt =====
-- internal/controller/application_controller.go: what is stored when a deployment ends.
use kuvryn_sync.Prelude.{
  ℕ, ◌≡◌, refl, sym, ap, ◌⊎◌, inl, inr, Bool, true, false, Option, none, some, List, if◌then◌else◌,
  lookup, lookup-insert,
}
use kuvryn_sync.Api.{Phase, SyncState, Condition, Revision}
use kuvryn_sync.Rollout.{RolloutState, rollout_of, set_rollout_complete}
use kuvryn_sync.Rollout.Progress.{rollout_of-set_rollout_complete}
use kuvryn_sync.Rollback.{
  rollback_request_of, is_active, application_revisions, clear_rollback_request, hold_replaced,
  RollbackHold, written_status,
}
use kuvryn_sync.Rollback.Request.{cleared-inactive}
use kuvryn_sync.Deployment.{
  Pair, complete_healthy, deployed, rolled_back, request_removed, ready_by, set_ready, written,
  complete_successful_deployment,
}

-- The rollout is recorded as complete with the state that it deployed, and no rollback is requested
-- any more.
abbrev pub IsDeployed : Pair → Pair → Type 0
IsDeployed p q =
    (q.revision.status.deployed_desired_state_hash ≡ p.revision.desired_state_hash)
    × ((previous : Phase) → rollout_of q.revision previous ≡ RolloutState.complete)
    × (is_active (rollback_request_of q.application) ≡ false)
    × (q.application.status.deployed_revision ≡ p.revision.source_revision)

abbrev pub ready_of : Pair → Option Condition
ready_of p = lookup "Ready" p.application.status.conditions

abbrev pub sync_of : Pair → SyncState
sync_of p = p.application.status.sync

-- Which phase, sync state and readiness the end has, by whether a rollback was requested and whether
-- one holds.
abbrev pub IsEnd : Bool → Option RollbackHold → Pair → Type 0
IsEnd true hold q =
    (q.revision.status.phase ≡ Phase.rolled_back)
    × (sync_of q ≡ SyncState.out_of_sync)
    × (ready_of q ≡ some (record { holds = false; reason = "RolledBack" }))
IsEnd false (some hold) q =
    (q.revision.status.phase ≡ Phase.healthy)
    × (sync_of q ≡ SyncState.out_of_sync)
    × (ready_of q ≡ some (record { holds = false; reason = "RolledBack" }))
IsEnd false none q =
    (q.revision.status.phase ≡ Phase.healthy)
    × (sync_of q ≡ SyncState.synced)
    × (ready_of q ≡ some (record { holds = true; reason = "Healthy" }))

rollback-ends :
    (now : ℕ) (hold : Option RollbackHold) (p : Pair)
    → let q = written hold (request_removed (rolled_back (deployed now p))) in
      IsDeployed p q × IsEnd true hold q
unfolding deployed rolled_back request_removed set_ready complete_healthy written_status
    clear_rollback_request is_active rollback_request_of rollout_of set_rollout_complete
rollback-ends now none p = (
  (
    refl,
    λ previous. (rollout_of-set_rollout_complete p.revision true previous).0,
    cleared-inactive p.application,
    refl,
  ),
  (
    refl,
    refl,
    lookup-insert "Ready" "Ready" (record { holds = false; reason = "RolledBack" })
        p.application.status.conditions,
  ),
)
rollback-ends now (some hold) p = (
  (
    refl,
    λ previous. (rollout_of-set_rollout_complete p.revision true previous).0,
    cleared-inactive p.application,
    refl,
  ),
  (
    refl,
    refl,
    lookup-insert "Ready" "Ready" (record { holds = false; reason = "RolledBack" })
        p.application.status.conditions,
  ),
)

success-ends :
    (now : ℕ) (hold : Option RollbackHold) (p : Pair)
    → is_active (rollback_request_of p.application) ≡ false
    → let q = written hold (ready_by hold (deployed now p)) in IsDeployed p q × IsEnd false hold q
unfolding deployed ready_by set_ready complete_healthy written_status clear_rollback_request
    is_active rollback_request_of rollout_of set_rollout_complete
success-ends now none p i = (
  (refl, λ previous. (rollout_of-set_rollout_complete p.revision true previous).0, i, refl),
  (
    refl,
    refl,
    lookup-insert "Ready" "Ready" (record { holds = true; reason = "Healthy" })
        p.application.status.conditions,
  ),
)
success-ends now (some hold) p i = (
  (refl, λ previous. (rollout_of-set_rollout_complete p.revision true previous).0, i, refl),
  (
    refl,
    refl,
    lookup-insert "Ready" "Ready" (record { holds = false; reason = "RolledBack" })
        p.application.status.conditions,
  ),
)

abbrev stored_or : Pair → Option Pair → Pair
stored_or p none = p
stored_or p (some q) = q

abbrev ending : Option Pair → List Revision → Option Pair × List Revision
ending stored rest = (stored, rest)

-- Which of the two pairs is stored.
ends_by :
    (active held : Bool) (x y q : Pair) (r t rest : List Revision)
    → (if active then ending (if held then some x else none) r else ending (some y) t)
      ≡ ending (some q) rest
    → ((active ≡ true) × (x ≡ q)) ⊎ ((active ≡ false) × (y ≡ q))
ends_by true true x y q r t rest h = inl (refl, ap (λ e. stored_or x e.0) h)
ends_by true false x y q r t rest h = cc
ends_by false held x y q r t rest h = inr (refl, ap (λ e. stored_or y e.0) h)

-- A deployment that succeeds, where the call gets to its end: the Revision's rollout is complete,
-- with the desired state that it deployed; no rollback is requested any more; and the Application
-- is Synced and Ready exactly when no rollback was requested and none holds. When one was, the
-- Revision is RolledBack.
pub complete_successful_deployment-IsEnd :
    (accepts : Revision → Bool) (now : ℕ) (hold : Option RollbackHold) (others : List Revision)
    (p q : Pair) (rest : List Revision)
    → complete_successful_deployment accepts now hold others p ≡ (some q, rest)
    → IsDeployed p q × IsEnd (is_active (rollback_request_of p.application)) hold q
unfolding complete_successful_deployment
complete_successful_deployment-IsEnd accepts now hold others p q rest h =
    elim (ends_by (is_active (rollback_request_of p.application))
      (hold_replaced accepts (rollback_request_of p.application)
        (rolled_back (deployed now p)).revision (application_revisions p.application others)).1
      (written hold (request_removed (rolled_back (deployed now p))))
      (written hold (ready_by hold (deployed now p))) q _ _ rest h) [
        | inl (e, same) ↦ rw (sym same, e) (rollback-ends now hold p)
        | inr (e, same) ↦ rw (sym same, e) (success-ends now hold p e)
      ]
