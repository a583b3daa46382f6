-- ===== src/Conflicts.antt =====
-- internal/controller/application_controller.go: `markConflictPolicy` and `conflictFailure`, which
-- decide whether a server-side apply may take over fields of another manager.
pub mod Marked
pub mod Tests
use kuvryn_sync.Prelude.{
  ℕ, zero, suc, ◌+◌, ◌-◌, ◌*◌, ◌^◌, ◌≤◌, ◌<◌, min, String, str_append, ◌≡◌, refl, sym, ap, ◌∙◌, ◌≢◌,
  ◌↔◌, ◌⊎◌, inl, inr, Bool, true, false, not, ◌&&◌, ◌||◌, Option, none, some, List, [], ◌∷◌, ◌++◌,
  map, Perm, arith, ◌==◌, eq_iff, eq_refl, ltb, leb, eqb, if◌then◌else◌, is_none, ltb→lt, lt→ltb,
  leb→le, eqb→eq, tests, Bool-cases, Option-cases, length, take, drop, select, any, all,
  length-append, take-append-drop, length-take, length-drop, All, Any, Each, text_lt, text_lt-asym,
  text_lt_trans, text_lt-antisym, IsOrder, sort_by, IsSorted, sort_by-perm, All-sort_by,
  sort_by-IsSorted, or_empty, lookup, insert, delete, lookup-insert, lookup-delete, ℤ, pos, negsuc,
  pos_part, neg_part, ◌<ℤ◌, ltb_ℤ, eqb_ℤ, eqb_ℤ→eq, ltb_ℤ-antisym, atoi, codes, codes_eq,
  trim_space, trim, to_lower, split, gather, All-select, All-of_select, All-of_sort_by, All-left,
  All-right, All-reverse, Each-reverse, gather-append, All-append, All-map_of, All-and,
  All-of_forall, Each-append, Each-and, gather-sort_by-perm, Each-sort_by,
}
use kuvryn_sync.Resource.{ObjectId}
use kuvryn_sync.Api.{ConflictPolicy}

pub record Conflict : Type 0 where
  pub path : String
  pub manager : String
  pub policy : ConflictPolicy

-- The part of a change that conflicts concern.
pub record Change : Type 0 where
  pub id : ObjectId
  pub conflicts : List Conflict

-- The manager of fields from before the first server-side apply.
abbrev pub legacy_field_manager : String
legacy_field_manager = "before-first-apply"

unfoldable pub mark_conflict : ConflictPolicy → Conflict → Conflict
mark_conflict policy conflict = record conflict {
  policy = if conflict.manager == legacy_field_manager then ConflictPolicy.adopt else policy;
}

mark_change : ConflictPolicy → Change → Change
unfolding mark_conflict
mark_change policy change = record change {
  conflicts = map (mark_conflict policy) change.conflicts;
}

unfoldable pub mark_conflict_policy : ConflictPolicy → List Change → List Change
unfolding mark_change
mark_conflict_policy policy = map (mark_change policy)

is_fail : ConflictPolicy → Bool
is_fail ConflictPolicy.fail = true
is_fail _ = false

-- The first conflict that fails, of which the message names the manager.
first_failing : List Conflict → Option String
unfolding is_fail
first_failing [] = none
first_failing (c ∷ conflicts) =
    let rest = first_failing conflicts in if is_fail c.policy then some c.manager else rest

or_first : ObjectId → Option String → Option (ObjectId × String) → Option (ObjectId × String)
or_first id none rest = rest
or_first id (some manager) rest = some (id, manager)

-- The object and the manager that the failure names; `none` is the nil failure.
unfoldable pub conflict_failure : List Change → Option (ObjectId × String)
unfolding first_failing or_first
conflict_failure [] = none
conflict_failure (change ∷ changes) =
    or_first change.id (first_failing change.conflicts) (conflict_failure changes)
