-- ===== src/Rollback/Abandon.antt =====
-- internal/controller/application_rollback.go: a rollback that is given up, and the status that is
-- written while one holds.
use kuvryn_sync.Prelude.{◌≡◌, refl, ◌≢◌, false, none, some, arith, lookup, lookup-insert}
use kuvryn_sync.Api.{Phase, HealthState, SyncState, Revision, ApplicationStatus}
use kuvryn_sync.Rollback.{RollbackRequest, RollbackHold, held_sync, written_status, report_hold}

-- Of the failing source revision and still rolling back.
abbrev pub IsLeft : RollbackRequest → Revision → Type 0
IsLeft request r = (r.source_revision ≡ request.from) × (r.status.phase ≡ Phase.rolling_back)

held_sync≢synced : (s : SyncState) → held_sync s ≢ SyncState.synced
held_sync≢synced s h = ground arith

-- While a rollback holds, the written status never says Synced, and names the held revision as the
-- desired one; otherwise it is written as it is. A reported hold is not Ready.
pub written_status-lem :
    (hold : RollbackHold) (status : ApplicationStatus) (own overall : HealthState)
    → (written_status none status ≡ status)
      × ((written_status (some hold) status).sync ≢ SyncState.synced)
      × ((written_status (some hold) status).desired_revision ≡ hold.desired)
      × ((report_hold hold own overall status).sync ≡ SyncState.out_of_sync)
      × (lookup "Ready" (report_hold hold own overall status).conditions
          ≡ some (record { holds = false; reason = "RolledBack" }))
unfolding written_status report_hold
written_status-lem hold status own overall = (
  refl,
  held_sync≢synced status.sync,
  refl,
  refl,
  rw
      (lookup-insert "Ready" "Ready" (record { holds = false; reason = "RolledBack" })
        status.conditions)
      refl,
)
