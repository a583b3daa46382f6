-- ===== src/Rollback.antt =====
-- internal/controller/application_rollback.go: the rollback request in an Application's annotations,
-- the approval it gives, and the hold on what a rollback replaced.
pub mod Request
pub mod Holds
pub mod Abandon
pub mod Tests
use kuvryn_sync.Prelude.{
  ℕ, zero, suc, ◌+◌, ◌-◌, ◌*◌, ◌^◌, ◌≤◌, ◌<◌, min, String, str_append, ◌≡◌, refl, sym, ap, ◌∙◌, ◌≢◌,
  ◌↔◌, ◌⊎◌, inl, inr, Bool, true, false, not, ◌&&◌, ◌||◌, Option, none, some, List, [], ◌∷◌, ◌++◌,
  map, Perm, arith, ◌==◌, eq_iff, eq_refl, ltb, leb, eqb, if◌then◌else◌, is_none, ltb→lt, lt→ltb,
  leb→le, eqb→eq, tests, Bool-cases, Option-cases, length, take, drop, select, any, all,
  length-append, take-append-drop, length-take, length-drop, All, Any, Each, text_lt, text_lt-asym,
  text_lt_trans, text_lt-antisym, IsOrder, sort_by, IsSorted, sort_by-perm, All-sort_by,
  sort_by-IsSorted, or_empty, lookup, insert, delete, lookup-insert, lookup-delete, ℤ, pos, negsuc,
  pos_part, neg_part, ◌<ℤ◌, ltb_ℤ, eqb_ℤ, eqb_ℤ→eq, ltb_ℤ-antisym, atoi, codes, codes_eq,
  trim_space, trim, to_lower, split, gather, All-select, All-of_select, All-of_sort_by, All-left,
  All-right, All-reverse, Each-reverse, gather-append, All-append, All-map_of, All-and,
  All-of_forall, Each-append, Each-and, gather-sort_by-perm, Each-sort_by,
}
use kuvryn_sync.Api.{
  Phase, HealthState, SyncState, Condition, Approval, Failure, RevisionStatus, Revision,
  ApplicationStatus, Application,
}
use kuvryn_sync.Annotations.{
  Annotations, given, rollback_revision, rollback_from, rollback_kind_key, rollback_target_revision,
  rollback_requested_by, rollback_requested_at, rollback_target_hash, manual, automatic, Rfc3339,
  Sum, binding,
}
use kuvryn_sync.Rollout.{RolloutState}

pub record RollbackRequest : Type 0 where
  pub target : String
  pub from : String
  pub kind : String

unfoldable pub rollback_request_of : Application → RollbackRequest
rollback_request_of application = record {
  target = trim (given rollback_revision application.annotations);
  from = trim (given rollback_from application.annotations);
  kind = given rollback_kind_key application.annotations;
}

unfoldable pub is_active : RollbackRequest → Bool
is_active request = not (request.target == "")

unfoldable pub is_automatic : RollbackRequest → Bool
is_automatic request = request.kind == automatic

unfoldable pub set_rollback_request : Application → RollbackRequest → Application
set_rollback_request application request = record application {
  annotations = insert rollback_kind_key request.kind (
      insert rollback_from request.from
        (insert rollback_revision request.target application.annotations));
}

unfoldable pub delete_all : List String → Annotations → Annotations
delete_all [] m = m
delete_all (key ∷ keys) m = delete_all keys (delete key m)

abbrev pub request_keys : List String
request_keys =
    rollback_revision ∷ rollback_from ∷ rollback_kind_key ∷ rollback_target_revision
    ∷ rollback_requested_by ∷ rollback_requested_at ∷ rollback_target_hash ∷ []

unfoldable pub clear_rollback_request : Application → Application
unfolding delete_all
clear_rollback_request application = record application {
  annotations = delete_all request_keys application.annotations;
}

abbrev pub same_request : RollbackRequest → RollbackRequest → Bool
same_request a b = a.target == b.target && a.from == b.from && a.kind == b.kind

-- The request with its kind, the Application that carries it, and whether it was written.
unfoldable pub record_rollback_intent :
    Application → RollbackRequest → RollbackRequest × Application × Bool
unfolding rollback_request_of set_rollback_request
record_rollback_intent application request =
    let full = record request { kind = if request.kind == "" then manual else request.kind } in
    if same_request full (rollback_request_of application)
    then (full, application, false)
    else (full, set_rollback_request application full, true)

abbrev pub rolled_back_condition : String
rolled_back_condition = "RolledBack"

unfoldable pub if_true : Option Condition → Option Condition
if_true none = none
if_true (some c) = if c.holds then some c else none

-- The condition that holds the Revision, if there is one.
unfoldable pub held_by : Revision → Option Condition
unfolding if_true
held_by revision = if_true (lookup rolled_back_condition revision.status.conditions)

abbrev pub is_in_progress : RolloutState → Bool
is_in_progress RolloutState.in_progress = true
is_in_progress _ = false

-- The approval that the rollout already acted on stands, and else the new one.
unfoldable pub recorded_or_new : RolloutState → Option Approval → Approval → Approval
recorded_or_new rollout none approval = approval
recorded_or_new rollout (some recorded) approval =
    if is_in_progress rollout
      && recorded.approved_by == approval.approved_by
      && eqb recorded.approved_at approval.approved_at
      && recorded.desired_state_hash == approval.desired_state_hash
    then recorded
    else approval

module _ (sum : Sum) (time : Rfc3339) where
  -- By the parsed time of the request.
  unfoldable pub rollback_approval_at :
      Option ℕ → Application → Revision → RolloutState → Option Approval × Bool
  unfolding recorded_or_new
  rollback_approval_at none application revision rollout = (none, false)
  rollback_approval_at (some requested_at) application revision rollout =
      let annotations = application.annotations in
      let chosen = given rollback_target_revision annotations in
      let chosen_hash = given rollback_target_hash annotations in
      let requested_by = given rollback_requested_by annotations in
      if chosen == "" || chosen_hash == "" || requested_by == ""
      then (none, false)
      else if not (revision.name == chosen)
          || not (binding sum revision.desired_state_hash application == chosen_hash)
      then (none, true)
      else if revision.status.plan_digest == ""
      then (none, false)
      else (
        some (
            recorded_or_new rollout revision.status.approval (record {
              approved_by = requested_by;
              approved_at = requested_at;
              plan_digest = revision.status.plan_digest;
              desired_state_hash = revision.desired_state_hash;
            })),
        false,
      )

  -- The approval, and whether the target is no longer what the requester chose.
  unfoldable pub rollback_approval :
      Application → RollbackRequest → Revision → RolloutState → Option Approval × Bool
  unfolding rollback_approval_at is_active is_automatic
  rollback_approval application request revision rollout =
      if not (is_active request)
        || is_automatic request
        || not (revision.source_revision == request.target)
        || not (is_none (held_by revision))
      then (none, false)
      else rollback_approval_at (time.parse (given rollback_requested_at application.annotations))
          application revision rollout

-- The Revisions that a listing by the Application's label returns, less those of another one.
unfoldable pub application_revisions : Application → List Revision → List Revision
application_revisions application = select (λ r. r.application == application.name)

abbrev pub rollback_reason : Bool → String
rollback_reason is_manual = if is_manual then "ManualRollback" else "RollbackCompleted"

abbrev rollback_how : Bool → String
rollback_how is_manual = if is_manual then "manually" else "after a failure"

abbrev pub is_failed : Phase → Bool
is_failed Phase.failed = true
is_failed _ = false

unfoldable pub has_reason : String → Option Condition → Bool
has_reason reason none = false
has_reason reason (some c) = c.reason == reason

or_failure : Option Failure → Failure → Option Failure
or_failure none f = some f
or_failure (some g) f = some g

abbrev pub hold_reason : RollbackRequest → String
hold_reason request = rollback_reason (not (is_automatic request))

-- The Revision as it is marked.
unfoldable pub mark_replaced : RollbackRequest → Revision → Revision → Revision
unfolding is_automatic or_failure
mark_replaced request target replaced = record replaced {
  status = record (replaced.status) {
    phase = Phase.failed;
    failure = or_failure replaced.status.failure (record {
      reason = "RolledBack";
      message = str_append "Rolled back " (
          str_append (rollback_how (not (is_automatic request)))
            (str_append " to source revision " target.source_revision));
      retryable = false;
    });
    conditions =
        insert rolled_back_condition (record { holds = true; reason = hold_reason request })
          replaced.status.conditions;
  };
}

-- Whether the loop passes the Revision over.
unfoldable pub passes_over : RollbackRequest → Revision → Revision → Bool
unfolding held_by has_reason is_automatic
passes_over request target replaced =
    replaced.name == target.name
    || not (replaced.source_revision == request.from)
    || has_reason (hold_reason request) (held_by replaced) && is_failed replaced.status.phase

-- `accepts` is the answer of the API server to a write of the status, whose first refusal ends the
-- loop. The Revisions as they are stored then, and whether the loop got to its end.
module _ (accepts : Revision → Bool) (request : RollbackRequest) (target : Revision) where
  unfoldable pub hold_each : List Revision → List Revision × Bool
  hold_each [] = ([], true)
  hold_each (r ∷ rs) =
      let rest = hold_each rs in
      if passes_over request target r
      then (r ∷ rest.0, rest.1)
      else if accepts (mark_replaced request target r)
      then (mark_replaced request target r ∷ rest.0, rest.1)
      else (r ∷ rs, false)

  unfoldable pub hold_replaced : List Revision → List Revision × Bool
  unfolding hold_each
  hold_replaced revisions =
      if request.from == "" || request.from == target.source_revision
      then (revisions, true)
      else hold_each revisions

-- The Revision that deploys again.
unfoldable pub lift_hold : Revision → Revision
lift_hold revision = record revision {
  status = record (revision.status) {
    conditions = delete rolled_back_condition revision.status.conditions;
    failure = none;
    phase = Phase.pending;
  };
}

unfoldable pub is_rolling_back : Phase → Bool
is_rolling_back Phase.rolling_back = true
is_rolling_back _ = false

-- One Revision of a rollback that is given up.
unfoldable pub fail_rolling_back : RollbackRequest → Revision → Revision
unfolding is_rolling_back
fail_rolling_back request r =
    if r.source_revision == request.from && is_rolling_back r.status.phase
    then record r { status = record (r.status) { phase = Phase.failed } }
    else r

-- The Application and its Revisions after all writes went through.
unfoldable pub abandon_rollback :
    Application → RollbackRequest → List Revision → Application × List Revision
unfolding clear_rollback_request fail_rolling_back is_automatic
abandon_rollback application request revisions = (
  clear_rollback_request application,
  if is_automatic request && not (request.from == "")
      then map (fail_rolling_back request) revisions
      else revisions,
)

-- A hold that a reconcile reports: the held revision that is desired, and whether it is manual.
pub record RollbackHold : Type 0 where
  pub desired : String
  pub is_manual : Bool

abbrev pub held_sync : SyncState → SyncState
held_sync SyncState.synced = SyncState.out_of_sync
held_sync s = s

-- What `updateApplicationStatus` writes.
unfoldable pub written_status : Option RollbackHold → ApplicationStatus → ApplicationStatus
written_status none status = status
written_status (some hold) status = record status {
  desired_revision = hold.desired;
  sync = held_sync status.sync;
}

unfoldable pub report_hold :
    RollbackHold → HealthState → HealthState → ApplicationStatus → ApplicationStatus
unfolding written_status
report_hold hold health state status = written_status (some hold) (record status {
  health = health;
  state = state;
  sync = SyncState.out_of_sync;
  conditions = insert "Ready" (record { holds = false; reason = "RolledBack" }) status.conditions;
})

-- `pendingRollbackRequests`: their names, sorted.
unfoldable pub pending_rollback_requests : List Application → List String
unfolding is_active rollback_request_of
pending_rollback_requests applications = sort_by text_lt (
    map (λ a. str_append a.namespace (str_append "/" a.name))
      (select
        (λ a.
          is_active (rollback_request_of a)
          && not (given rollback_requested_by a.annotations == ""))
        applications))
