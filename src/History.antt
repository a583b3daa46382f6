-- ===== src/History.antt =====
-- internal/history/history.go and internal/rollback/rollback.go: which Revisions are kept, and
-- which one a rollback goes back to.
pub mod Newest
pub mod Target
pub mod Tests
use kuvryn_sync.Prelude.{
  ℕ, zero, suc, ◌+◌, ◌-◌, ◌*◌, ◌^◌, ◌≤◌, ◌<◌, min, String, str_append, ◌≡◌, refl, sym, ap, ◌∙◌, ◌≢◌,
  ◌↔◌, ◌⊎◌, inl, inr, Bool, true, false, not, ◌&&◌, ◌||◌, Option, none, some, List, [], ◌∷◌, ◌++◌,
  map, Perm, arith, ◌==◌, eq_iff, eq_refl, ltb, leb, eqb, if◌then◌else◌, is_none, ltb→lt, lt→ltb,
  leb→le, eqb→eq, tests, Bool-cases, Option-cases, length, take, drop, select, any, all,
  length-append, take-append-drop, length-take, length-drop, All, Any, Each, text_lt, text_lt-asym,
  text_lt_trans, text_lt-antisym, IsOrder, sort_by, IsSorted, sort_by-perm, All-sort_by,
  sort_by-IsSorted, or_empty, lookup, insert, lookup-insert, lookup-delete, ℤ, pos, negsuc,
  pos_part, neg_part, ◌<ℤ◌, ltb_ℤ, eqb_ℤ, eqb_ℤ→eq, ltb_ℤ-antisym, atoi, codes, codes_eq,
  trim_space, trim, to_lower, split, gather, All-select, All-of_select, All-of_sort_by, All-left,
  All-right, All-reverse, Each-reverse, gather-append, All-append, All-map_of, All-and,
  All-of_forall, Each-append, Each-and, gather-sort_by-perm, Each-sort_by,
}
use kuvryn_sync.Api.{Phase, Revision, Application}

-- The `less` function of both sorts: the newest first, and of those the greatest name.
unfoldable pub newer : Revision → Revision → Bool
newer a b = if not (eqb a.created b.created) then ltb b.created a.created else text_lt b.name a.name

pub record Retention : Type 0 where
  pub keep : List Revision
  pub delete : List Revision

retain : ℤ → List Revision → Retention
retain (negsuc n) ordered = record { keep = ordered; delete = [] }
retain (pos n) ordered =
    if eqb n 0 || leb (length ordered) n
    then record { keep = ordered; delete = [] }
    else record { keep = take n ordered; delete = drop n ordered }

unfoldable pub apply_retention : List Revision → ℤ → Retention
unfolding retain
apply_retention revisions limit = retain limit (sort_by newer revisions)

abbrev pub is_pos : ℤ → Bool
is_pos z = ltb_ℤ (pos 0) z

limit_or : ℤ → Option ℤ → ℤ
limit_or fallback none = fallback
limit_or fallback (some limit) = if is_pos limit then limit else fallback

unfoldable pub limit_for : Application → ℤ → ℤ
unfolding limit_or
limit_for app fallback = limit_or (if is_pos fallback then fallback else pos 20) app.history_limit

is_healthy : Phase → Bool
is_healthy Phase.healthy = true
is_healthy _ = false

-- What the loop of `Target` lets through. `current.created` is 0 where it has no timestamp.
unfoldable pub is_candidate : Revision → Revision → Bool
unfolding is_healthy
is_candidate current rev =
    not (rev.name == current.name || not (rev.application == current.application))
    && is_healthy rev.status.phase
    && not (not (eqb current.created 0) && not (ltb rev.created current.created))

first : List Revision → Option Revision
first [] = none
first (r ∷ rs) = some r

-- `none` is `ErrNoTarget`.
unfoldable pub target : Revision → List Revision → Option Revision
unfolding first
target current history = first (sort_by newer (select (is_candidate current) history))
