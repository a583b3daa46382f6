-- ===== src/Prune.antt =====
-- internal/prune/prune.go, and `staleManagedObjects` of internal/controller/application_controller.go,
-- which gives it its input.
pub mod Safety
pub mod Complete
pub mod Stale
pub mod Tests
use kuvryn_sync.Prelude.{
  ℕ, zero, suc, ◌+◌, ◌-◌, ◌*◌, ◌^◌, ◌≤◌, ◌<◌, min, String, str_append, ◌≡◌, refl, sym, ap, ◌∙◌, ◌≢◌,
  ◌↔◌, ◌⊎◌, inl, inr, Bool, true, false, not, ◌&&◌, ◌||◌, Option, none, some, List, [], ◌∷◌, ◌++◌,
  map, Perm, arith, ◌==◌, eq_iff, eq_refl, ltb, leb, eqb, if◌then◌else◌, is_none, ltb→lt, lt→ltb,
  leb→le, eqb→eq, tests, Bool-cases, Option-cases, length, take, drop, select, any, all,
  length-append, take-append-drop, length-take, length-drop, All, Any, Each, text_lt, text_lt-asym,
  text_lt_trans, text_lt-antisym, IsOrder, sort_by, IsSorted, sort_by-perm, All-sort_by,
  sort_by-IsSorted, or_empty, lookup, insert, delete, lookup-insert, lookup-delete, ℤ, pos, negsuc,
  pos_part, neg_part, ◌<ℤ◌, ltb_ℤ, eqb_ℤ, eqb_ℤ→eq, ltb_ℤ-antisym, atoi, codes, codes_eq,
  trim_space, trim, to_lower, split, gather, All-select, All-of_select, All-of_sort_by, All-left,
  All-right, All-reverse, Each-reverse, gather-append, All-append, All-map_of, All-and,
  All-of_forall, Each-append, Each-and, gather-sort_by-perm, Each-sort_by,
}
use kuvryn_sync.Resource.{Object, ObjectId, GroupVersions, from_object, id_eq}
use kuvryn_sync.Ordering.{prune_order}

pub record Policy : Type 0 where
  pub application : String
  pub allow_high_risk : Bool

-- The messages of the source, by what they say.
pub data Reason : Type 0 where
  identity_required not_managed prune_disabled high_risk_kind : Reason

pub record Rejected : Type 0 where
  pub object : Object
  pub reason : Reason

pub record Result : Type 0 where
  pub eligible : List Object
  pub skipped : List Rejected
  pub rejected : List Rejected

abbrev pub application_label : String
application_label = "sync.kuvryn.io/application"

-- The label that says whose an object is.
abbrev pub owner : Object → String
owner obj = or_empty (lookup application_label obj.labels)

abbrev pub prune_annotation : Object → String
prune_annotation obj = or_empty (lookup "sync.kuvryn.io/prune" obj.annotations)

unfoldable pub high_risk : Object → Bool
high_risk obj =
    any (λ k. obj.kind == k)
      ("Namespace" ∷ "CustomResourceDefinition" ∷ "PersistentVolumeClaim" ∷ "PersistentVolume"
        ∷ "Secret" ∷ [])

-- `none` is the empty string.
unfoldable pub reject_reason : Object → Policy → Option Reason
reject_reason obj policy =
    if policy.application == ""
    then some identity_required
    else if owner obj == policy.application
    then none
    else some not_managed

unfoldable pub skip_reason : Object → Policy → Option Reason
skip_reason obj policy =
    if prune_annotation obj == "disabled"
    then some prune_disabled
    else if high_risk obj && not policy.allow_high_risk
    then some high_risk_kind
    else none

-- One round of the loop in `Plan`, from the two reasons.
sort_out : Option Reason → Option Reason → Object → Result → Result
sort_out (some reason) skipping obj r = record r {
  rejected = r.rejected ++ record { object = obj; reason = reason } ∷ [];
}
sort_out none (some reason) obj r = record r {
  skipped = r.skipped ++ record { object = obj; reason = reason } ∷ [];
}
sort_out none none obj r = record r { eligible = r.eligible ++ obj ∷ [] }

unfoldable pub plan_from : Policy → Result → List Object → Result
unfolding sort_out
plan_from policy r [] = r
plan_from policy r (obj ∷ live) =
    plan_from policy (sort_out (reject_reason obj policy) (skip_reason obj policy) obj r) live

abbrev no_result : Result
no_result = record { eligible = []; skipped = []; rejected = [] }

unfoldable pub prune_plan : List Object → Policy → Result
unfolding plan_from
prune_plan live policy =
    let r = plan_from policy no_result live in record r { eligible = prune_order r.eligible }

-- The bodies of the two loops of `staleManagedObjects`, from the identity of the object.
add_id : Option ObjectId → List ObjectId → List ObjectId
add_id none ids = ids
add_id (some id) ids = id ∷ ids

add_stale : List ObjectId → Object → Option ObjectId → List Object → List Object
add_stale kept obj none stale = stale
add_stale kept obj (some id) stale = if any (id_eq id) kept then stale else obj ∷ stale

module _ (gv : GroupVersions) where
  unfoldable pub ids_of : List Object → List ObjectId
  unfolding add_id
  ids_of [] = []
  ids_of (obj ∷ objects) = add_id (from_object gv obj) (ids_of objects)

  unfoldable pub stale_from : List ObjectId → List Object → List Object
  unfolding add_stale
  stale_from kept [] = []
  stale_from kept (obj ∷ managed) =
      add_stale kept obj (from_object gv obj) (stale_from kept managed)

  unfoldable pub stale_managed_objects : List Object → List Object → List Object → List Object
  unfolding ids_of stale_from
  stale_managed_objects desired desired_live managed =
      stale_from (ids_of desired ++ ids_of desired_live) managed
