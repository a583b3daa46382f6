-- ===== src/Prune/Safety.antt =====
-- internal/prune/prune.go: what may be deleted, and that nothing is lost.
use kuvryn_sync.Prelude.{
  ◌≡◌, refl, ◌≢◌, ◌⊎◌, true, false, Option, none, some, List, [], ◌∷◌, arith, eq_iff, All,
  All-sort_by, All-reverse, All-append,
}
use kuvryn_sync.Resource.{Object}
use kuvryn_sync.Ordering.{apply_order, prune_order}
use kuvryn_sync.Prune.{
  Policy, Reason, Rejected, Result, owner, prune_annotation, high_risk, reject_reason, skip_reason,
  sort_out, plan_from, no_result, prune_plan,
}

-- What the program promises of an object that it deletes.
abbrev pub MayDelete : Policy → Object → Type 0
MayDelete policy obj =
    (policy.application ≢ "")
    × (owner obj ≡ policy.application)
    × (prune_annotation obj ≢ "disabled")
    × (high_risk obj ≡ true → policy.allow_high_risk ≡ true)

-- An object that is kept on purpose is managed, and opted out or is of a high-risk kind.
abbrev pub IsKept : Policy → Rejected → Type 0
IsKept policy r =
    (policy.application ≢ "")
    × (owner r.object ≡ policy.application)
    × ((prune_annotation r.object ≡ "disabled")
        ⊎ ((high_risk r.object ≡ true) × (policy.allow_high_risk ≡ false)))

-- An object that must not be touched is not the Application's.
abbrev pub IsForeign : Policy → Rejected → Type 0
IsForeign policy r = (policy.application ≡ "") ⊎ (owner r.object ≢ policy.application)

abbrev pub IsPlanned : Policy → Result → Type 0
IsPlanned policy r =
    All (MayDelete policy) r.eligible
    × All (IsKept policy) r.skipped
    × All (IsForeign policy) r.rejected

module _ (policy : Policy) (obj : Object) where
  no_reject :
      reject_reason obj policy ≡ none → (policy.application ≢ "") × (owner obj ≡ policy.application)
  unfolding reject_reason
  no_reject h = ground (arith, eq_iff policy.application "", eq_iff (owner obj) policy.application)

  a_reject :
      {r : Reason}
      → reject_reason obj policy ≡ some r
      → (policy.application ≡ "") ⊎ (owner obj ≢ policy.application)
  unfolding reject_reason
  a_reject h = ground (arith, eq_iff policy.application "", eq_iff (owner obj) policy.application)

  no_skip :
      skip_reason obj policy ≡ none
      → (prune_annotation obj ≢ "disabled") × (high_risk obj ≡ true → policy.allow_high_risk ≡ true)
  unfolding skip_reason
  no_skip h = ground (arith, eq_iff (prune_annotation obj) "disabled")

  a_skip :
      {r : Reason}
      → skip_reason obj policy ≡ some r
      → (prune_annotation obj ≡ "disabled")
        ⊎ ((high_risk obj ≡ true) × (policy.allow_high_risk ≡ false))
  unfolding skip_reason
  a_skip h = ground (arith, eq_iff (prune_annotation obj) "disabled")

sort_out-IsPlanned :
    (policy : Policy) (obj : Object) (r : Result) (reject skipping : Option Reason)
    → reject_reason obj policy ≡ reject
    → skip_reason obj policy ≡ skipping
    → IsPlanned policy r
    → IsPlanned policy (sort_out reject skipping obj r)
unfolding sort_out
sort_out-IsPlanned policy obj r (some reason) skipping e k h =
    (h.0, h.1, All-append (IsForeign policy) r.rejected _ h.2 (a_reject policy obj e, tt))
sort_out-IsPlanned policy obj r none (some reason) e k h = (
  h.0,
  All-append (IsKept policy) r.skipped _ h.1
      (((no_reject policy obj e).0, (no_reject policy obj e).1, a_skip policy obj k), tt),
  h.2,
)
sort_out-IsPlanned policy obj r none none e k h = (
  All-append (MayDelete policy) r.eligible _ h.0 (
    (
      (no_reject policy obj e).0,
      (no_reject policy obj e).1,
      (no_skip policy obj k).0,
      (no_skip policy obj k).1,
    ),
    tt,
  ),
  h.1,
  h.2,
)

plan_from-IsPlanned :
    (policy : Policy) (r : Result) (live : List Object)
    → IsPlanned policy r
    → IsPlanned policy (plan_from policy r live)
unfolding plan_from
plan_from-IsPlanned policy r [] h = h
plan_from-IsPlanned policy r (obj ∷ live) h =
    plan_from-IsPlanned policy (sort_out (reject_reason obj policy) (skip_reason obj policy) obj r)
      live (sort_out-IsPlanned policy obj r _ _ refl refl h)

pub All-prune_order : (P : Object → Type 0) (os : List Object) → All P os → All P (prune_order os)
unfolding prune_order apply_order
All-prune_order P os h = All-reverse P _ (All-sort_by _ P os h)

-- The plan deletes only objects labelled with a named Application that did not opt out and are of
-- no high-risk kind unless that is allowed; it skips only managed objects that opted out or are of
-- such a kind; and it rejects only objects that are not the Application's.
pub prune_plan-IsPlanned :
    (live : List Object) (policy : Policy) → IsPlanned policy (prune_plan live policy)
unfolding prune_plan
prune_plan-IsPlanned live policy =
    (All-prune_order (MayDelete policy) r.eligible split.0, split.1, split.2)
  where
    r : Result
    r = plan_from policy no_result live

    split : IsPlanned policy r
    split = plan_from-IsPlanned policy no_result live (tt, tt, tt)

module _ (P : Object → Type 0) where
  sort_out-All :
      (obj : Object) (r : Result) (reject skipping : Option Reason)
      → P obj
      → All P r.eligible
      → All P (sort_out reject skipping obj r).eligible
  unfolding sort_out
  sort_out-All obj r (some reason) skipping p h = h
  sort_out-All obj r none (some reason) p h = h
  sort_out-All obj r none none p h = All-append P r.eligible _ h (p, tt)

  plan_from-All :
      (policy : Policy) (r : Result) (live : List Object)
      → All P live
      → All P r.eligible
      → All P (plan_from policy r live).eligible
  unfolding plan_from
  plan_from-All policy r [] l h = h
  plan_from-All policy r (obj ∷ live) l h =
      plan_from-All policy (sort_out (reject_reason obj policy) (skip_reason obj policy) obj r) live
        l.1 (sort_out-All obj r _ _ l.0 h)

  -- What holds of every live object holds of every eligible one.
  pub prune_plan-All :
      (live : List Object) (policy : Policy) → All P live → All P (prune_plan live policy).eligible
  unfolding prune_plan
  prune_plan-All live policy h = All-prune_order P _ (plan_from-All policy no_result live h tt)
