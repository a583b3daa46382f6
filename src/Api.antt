-- ===== src/Api.antt =====
-- api/v1alpha1: the parts of an Application and a Revision that the controller reads and writes.
-- A time is a number of seconds since the zero time, so that 0 is Go's zero time, and
-- a duration is one too. Conditions are a map by their type, as the CRDs declare them: to find, set
-- and remove one is `lookup`, `insert` and `delete`. `unset` is the empty string of a state that was
-- never written.
use kuvryn_sync.Prelude.{
  ℕ, String, ◌≡◌, ◌↔◌, Bool, true, ◌&&◌, Option, List, arith, ◌==◌, eq_iff, ℤ,
}

pub data Phase : Type 0 where
  unset pending planning awaiting_approval applying observing healthy failed rolling_back
        rolled_back cancelled :
      Phase

pub data HealthState : Type 0 where
  unset unknown progressing healthy degraded suspended : HealthState

pub data SyncState : Type 0 where
  unset unknown synced out_of_sync drifted planning awaiting_approval applying pruning : SyncState

pub data ConflictPolicy : Type 0 where
  unset fail adopt : ConflictPolicy

pub data FailureAction : Type 0 where
  unset pause rollback : FailureAction

pub Phase-discrete : Discrete Phase
Phase-discrete = hlevel

pub HealthState-discrete : Discrete HealthState
HealthState-discrete = hlevel

-- `holds` says that the status is True.
pub record Condition : Type 0 where
  pub holds : Bool
  pub reason : String

pub record ResourceRef : Type 0 where
  pub api_version : String
  pub kind : String
  pub namespace : String
  pub name : String

abbrev pub ref_eq : ResourceRef → ResourceRef → Bool
ref_eq a b =
    a.api_version == b.api_version
    && a.kind == b.kind
    && a.namespace == b.namespace
    && a.name == b.name

-- The message, a text for people, is left out.
pub record HookStatus : Type 0 where
  pub resource : ResourceRef
  pub stage : String
  pub state : HealthState

pub record Approval : Type 0 where
  pub approved_by : String
  pub approved_at : ℕ
  pub plan_digest : String
  pub desired_state_hash : String

pub record Failure : Type 0 where
  pub reason : String
  pub message : String
  pub retryable : Bool

pub record RevisionStatus : Type 0 where
  pub phase : Phase
  pub started_at : Option ℕ
  pub completed_at : Option ℕ
  pub attempts : ℕ
  pub plan_digest : String
  pub failure : Option Failure
  pub approval : Option Approval
  pub previous_revision : Option String
  pub deployed_desired_state_hash : String
  pub hooks : List HookStatus
  pub conditions : List (String × Condition)

pub record Revision : Type 0 where
  pub name : String
  pub created : ℕ
  pub application : String
  pub source_revision : String
  pub desired_state_hash : String
  pub status : RevisionStatus

pub record ApplicationStatus : Type 0 where
  pub observed_generation : ℕ
  pub sync : SyncState
  pub health : HealthState
  pub state : HealthState
  pub desired_revision : String
  pub deployed_revision : String
  pub conditions : List (String × Condition)

pub record FailurePolicy : Type 0 where
  pub action : FailureAction
  pub timeout : Option ℤ
  pub max_attempts : Option ℤ

-- The JSON name of the kind is `type`.
pub record Strategy : Type 0 where
  pub kind : String
  pub failure_policy : FailurePolicy

pub record SyncPolicy : Type 0 where
  pub automatic : Bool
  pub prune : Bool
  pub self_heal : Bool
  pub conflict_policy : ConflictPolicy

pub record Application : Type 0 where
  pub name : String
  pub namespace : String
  pub generation : ℕ
  pub annotations : List (String × String)
  pub depends_on : List String
  pub sync : SyncPolicy
  pub strategy : Strategy
  pub history_limit : Option ℤ
  pub health_timeout : Option ℤ
  pub status : ApplicationStatus

pub ref_eq_iff : (a b : ResourceRef) → (ref_eq a b ≡ true) ↔ (a ≡ b)
ref_eq_iff a b = ground (
  arith,
  eq_iff a.api_version b.api_version,
  eq_iff a.kind b.kind,
  eq_iff a.namespace b.namespace,
  eq_iff a.name b.name,
)
