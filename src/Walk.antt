-- ===== src/Walk.antt =====
-- internal/controller/application_controller.go: `applyAndObserve`, the walk over the groups of a
-- rollout, with `groupHealth`, `replaceStaleHooks`, `pruneStale`, and internal/live/reader.go. The
-- cluster is what it answers to each call; the calls that change it are recorded in their order.
pub mod Visit
pub mod Handler
pub mod Steps
pub mod Calls
pub mod Groups
pub mod Done
pub mod Outcome
pub mod Tests
use kuvryn_sync.Prelude.{
  ℕ, zero, suc, ◌+◌, ◌-◌, ◌*◌, ◌^◌, ◌≤◌, ◌<◌, min, String, str_append, ◌≡◌, refl, sym, ap, ◌∙◌, ◌≢◌,
  ◌↔◌, ◌⊎◌, inl, inr, Bool, true, false, not, ◌&&◌, ◌||◌, Option, none, some, List, [], ◌∷◌, ◌++◌,
  map, Perm, arith, ◌==◌, eq_iff, eq_refl, ltb, leb, eqb, if◌then◌else◌, is_none, ltb→lt, lt→ltb,
  leb→le, eqb→eq, tests, Bool-cases, Option-cases, length, take, drop, select, any, all,
  length-append, take-append-drop, length-take, length-drop, All, Any, Each, text_lt, text_lt-asym,
  text_lt_trans, text_lt-antisym, IsOrder, sort_by, IsSorted, sort_by-perm, All-sort_by,
  sort_by-IsSorted, or_empty, lookup, insert, delete, lookup-insert, lookup-delete, ℤ, pos, negsuc,
  pos_part, neg_part, ◌<ℤ◌, ltb_ℤ, eqb_ℤ, eqb_ℤ→eq, ltb_ℤ-antisym, atoi, codes, codes_eq,
  trim_space, trim, to_lower, split, gather, All-select, All-of_select, All-of_sort_by, All-left,
  All-right, All-reverse, Each-reverse, gather-append, All-append, All-map_of, All-and,
  All-of_forall, Each-append, Each-and, gather-sort_by-perm, Each-sort_by,
}
use Prim.Native.String.{slice}
use kuvryn_sync.Api.{HealthState, ConflictPolicy, Failure, HookStatus, ResourceRef}
use kuvryn_sync.Resource.{Object, ObjectId, GroupVersions, from_object, id_eq}
use kuvryn_sync.Ordering.{Stage, ordinary, pre_sync, sync, post_sync, skip, Group, apply_order}
use kuvryn_sync.Rollout.{HookSplit, split_hooks, record_hooks}
use kuvryn_sync.Health.{Result, Summary, summary}
use kuvryn_sync.Prune.{
  Rejected, Reason, identity_required, not_managed, prune_disabled, high_risk_kind,
}
use kuvryn_sync.Prune

-- An error of the API server: `apierrors.IsForbidden`, and its text.
pub record Error : Type 0 where
  pub forbidden : Bool
  pub text : String

-- What a read of one object answers.
pub data Answer (A : Type 0) : Type 0 where
  absent : Answer A
  unreadable : Error → Answer A
  present : A → Answer A

-- A live hook: its Revision annotation, and whether it is being deleted.
pub record LiveHook : Type 0 where
  pub revision : String
  pub deleting : Bool

-- The answers of the API server to the calls of one walk. `none` is a write that succeeded, or a
-- delete of an object that was gone. `evaluate` is the health evaluator with the HealthChecks of
-- the Application, `identity_text` the message of an object without an identity and `message` that
-- of a verdict.
pub record Cluster : Type 0 where
  pub get : ObjectId → Answer Object
  pub get_hook : Object → Answer LiveHook
  pub delete_hook : Object → Option Error
  pub delete_stale : Object → Option Error
  pub apply : ConflictPolicy → List Object → Option Error
  pub evaluate : Object → Error ⊎ Result
  pub identity_text : Object → String
  pub message : Result → String

-- The calls that change the cluster.
pub data Call : Type 0 where
  replaced : Stage → Object → Call
  applied : Stage → List Object → Call
  pruned : Object → Call

-- What a rollout does not change: what it goes by.
pub record Rollout : Type 0 where
  pub revision : String
  pub policy : ConflictPolicy
  pub hooks : ResourceRef → Option HealthState
  pub pruning : Prune.Result

pub record Walked : Type 0 where
  pub is_pruned : Bool
  pub calls : List Call
  pub hooks : List HookStatus
  pub results : List Result

-- How a walk ends before its last group.
pub data End : Type 0 where
  failed : Failure → End
  waits : ℕ → End

pub data Step : Type 0 where
  stop : End → Walked → Step
  next : Walked → Step

unfoldable pub and_then : Step → (Walked → Step) → Step
and_then (stop e w) f = stop e w
and_then (next w) f = f w

abbrev pub with_calls : List Call → Walked → Walked
with_calls calls w = record w { calls = w.calls ++ calls }

-- `redact` is `redact.String`, whose patterns are regular expressions.
module _ (redact : String → String) where
  -- The message is cut at 512 bytes; a character that the cut divides is left out whole.
  unfoldable pub safe_message : String → String → String
  safe_message text fallback =
      let message = redact text in slice (if message == "" then fallback else message) 0 512

  unfoldable pub access_failure : Error → String → String → Bool → Failure
  unfolding safe_message
  access_failure err reason fallback retryable =
      if err.forbidden
      then record {
        reason = "Forbidden";
        message =
            safe_message err.text "Application service account is not allowed to manage a resource";
        retryable = false;
      }
      else record {
        reason = reason;
        message = safe_message err.text fallback;
        retryable = retryable;
      }

  reason_text : String → Reason → String
  reason_text kind identity_required = "application identity is required"
  reason_text kind not_managed = "resource is not managed by this Application"
  reason_text kind prune_disabled = "prune disabled by sync.kuvryn.io/prune annotation"
  reason_text kind high_risk_kind =
      str_append "high-risk " (str_append kind " is never pruned automatically")

  -- The objects whose delete was asked for are recorded, the last of them where it failed too.
  unfoldable pub prune_eligible : Cluster → List Object → Option Error × List Object
  prune_eligible c [] = (none, [])
  prune_eligible c (obj ∷ objects) =
      let rest = prune_eligible c objects in
      elim (c.delete_stale obj) [ none ↦ (rest.0, obj ∷ rest.1) | some err ↦ (some err, obj ∷ []) ]

  unfoldable pub prune_failure : Option Error × List Object → Option Failure × List Object
  unfolding access_failure
  prune_failure (none, objects) = (none, objects)
  prune_failure (some err, objects) =
      (some (access_failure err "PruneFailure" "Managed resource prune failed" true), objects)

  unfoldable pub prune_stale : Cluster → Prune.Result → Option Failure × List Object
  unfolding safe_message reason_text prune_eligible prune_failure
  prune_stale c pruning = elim pruning.rejected [
    | [] ↦ prune_failure (prune_eligible c pruning.eligible)
    | first ∷ _ ↦ (
      some (record {
        reason = "PruneFailure";
        message =
            safe_message (reason_text first.object.kind first.reason)
              "Managed resource prune was rejected";
        retryable = false;
      }),
      [],
    )
  ]

-- Whether any hook of an earlier Revision is still there, and the hooks whose delete was asked for.
unfoldable pub replace_stale_hooks :
    Cluster → String → Bool → List Object → (Error ⊎ Bool) × List Object
replace_stale_hooks c revision replacing [] = (inr replacing, [])
replace_stale_hooks c revision replacing (hook ∷ hooks) =
    let rest = replace_stale_hooks c revision replacing hooks in
    let going = replace_stale_hooks c revision true hooks in
    elim (c.get_hook hook) [
      | absent ↦ rest
      | unreadable err ↦ (inl err, [])
      | present current ↦
          if current.revision == revision
          then rest
          else if current.deleting
          then going
          else elim (c.delete_hook hook) [
            | none ↦ (going.0, hook ∷ going.1)
            | some err ↦ (inl err, hook ∷ [])
          ]
    ]

-- `live.Result`
pub record Read : Type 0 where
  pub found : List (ObjectId × Object)
  pub missing : List ObjectId

-- `result.Found[id] = live`
put_found : ObjectId → Object → List (ObjectId × Object) → List (ObjectId × Object)
put_found id live [] = (id, live) ∷ []
put_found id live ((key, item) ∷ found) =
    let rest = put_found id live found in
    if id_eq key id then (id, live) ∷ found else (key, item) ∷ rest

module _ (gv : GroupVersions) (c : Cluster) where
  read_from : Read → List Object → Error ⊎ Read
  unfolding put_found
  read_from r [] = inr r
  read_from r (obj ∷ objects) = elim (from_object gv obj) [
    | none ↦ inl (record { forbidden = false; text = c.identity_text obj })
    | some id ↦ elim (c.get id) [
      | absent ↦ read_from (record r { missing = r.missing ++ id ∷ [] }) objects
      | unreadable err ↦ inl err
      | present live ↦ read_from (record r { found = put_found id live r.found }) objects
    ]
  ]

  -- `live.Reader.Read`
  unfoldable pub read : List Object → Error ⊎ Read
  unfolding read_from
  read = read_from (record { found = []; missing = [] })

  evaluate_all : List Object → Error ⊎ List Result
  evaluate_all [] = inr []
  evaluate_all (obj ∷ objects) =
      let rest = evaluate_all objects in
      elim (c.evaluate obj) [
        | inl err ↦ inl err
        | inr result ↦ elim rest [ inl err ↦ inl err | inr results ↦ inr (result ∷ results) ]
      ]

  missing_result : Bool → ObjectId → Result
  missing_result true id = record {
    resource = id;
    state = HealthState.degraded;
    reason = "HookMissing";
  }
  missing_result false id = record {
    resource = id;
    state = HealthState.progressing;
    reason = "NotFound";
  }

  checked : Bool → List ObjectId → Error ⊎ List Result → Error ⊎ List Result
  unfolding missing_result
  checked hooks missing (inl err) = inl err
  checked hooks missing (inr results) = inr (results ++ map (missing_result hooks) missing)

  health_of : Bool → Error ⊎ Read → Error ⊎ List Result
  unfolding evaluate_all checked
  health_of hooks (inl err) = inl err
  health_of hooks (inr r) =
      checked hooks r.missing (evaluate_all (apply_order (map (λ f. f.1) r.found)))

  unfoldable pub group_health : List Object → Bool → Error ⊎ List Result
  unfolding read health_of
  group_health objects hooks = health_of hooks (read objects)

abbrev pub is_post : Stage → Bool
is_post post_sync = true
is_post _ = false

-- `group.Stage != ordering.StageSync`
abbrev pub is_hook : Stage → Bool
is_hook sync = false
is_hook _ = true

unfoldable pub stage_text : Stage → String
stage_text ordinary = ""
stage_text pre_sync = "PreSync"
stage_text sync = "Sync"
stage_text post_sync = "PostSync"
stage_text skip = "Skip"

abbrev pub is_degraded : HealthState → Bool
is_degraded HealthState.degraded = true
is_degraded _ = false

-- The first result that is degraded.
unfoldable pub first_degraded : List Result → Option Result
first_degraded [] = none
first_degraded (r ∷ results) =
    let rest = first_degraded results in if is_degraded r.state then some r else rest
