-- ===== src/Prune/Complete.antt =====
-- internal/prune/prune.go: every live object is accounted for, and the deletions run backwards.
use kuvryn_sync.Prelude.{
  ◌≤◌, Option, none, some, List, [], ◌∷◌, ◌++◌, map, Perm, Each, Each-reverse,
}
use mathlib.Core.List.{append-nil, perm_middle, perm_append_singleton, reverse_perm}
use mathlib.Core.List.Perm
use kuvryn_sync.Resource.{Object}
use kuvryn_sync.Ordering.{apply_order, prune_order, layer}
use kuvryn_sync.Ordering.Order.{apply_order-sorts, apply_order-layers}
use kuvryn_sync.Prune.{
  Policy, Reason, Rejected, Result, reject_reason, skip_reason, sort_out, plan_from, no_result,
  prune_plan,
}

abbrev pub sorted_out : Result → List Object
sorted_out r = r.eligible ++ map (λ x. x.object) r.skipped ++ map (λ x. x.object) r.rejected

module _ (obj : Object) where
  map-snoc :
      (rs : List Rejected) (reason : Reason)
      → Perm
          (map (λ x. x.object) (rs ++ record { object = obj; reason = reason } ∷ []))
          (obj ∷ map (λ x. x.object) rs)
  map-snoc [] reason = Perm.refl _
  map-snoc (r ∷ rs) reason =
      Perm.trans (Perm.cons r.object (map-snoc rs reason)) (Perm.swap obj r.object _)

  sort_out-perm :
      (r : Result) (reject skipping : Option Reason)
      → Perm (sorted_out (sort_out reject skipping obj r)) (obj ∷ sorted_out r)
  unfolding sort_out
  sort_out-perm r (some reason) skipping =
      Perm.trans
        (Perm.append_left (r.eligible ++ map (λ x. x.object) r.skipped)
          (map-snoc r.rejected reason))
        (perm_middle _ _)
  sort_out-perm r none (some reason) =
      Perm.append_right (map (λ x. x.object) r.rejected)
        (Perm.trans (Perm.append_left r.eligible (map-snoc r.skipped reason)) (perm_middle _ _))
  sort_out-perm r none none =
      Perm.append_right (map (λ x. x.object) r.rejected)
        (Perm.append_right (map (λ x. x.object) r.skipped) (perm_append_singleton obj r.eligible))

plan_from-perm :
    (policy : Policy) (r : Result) (live : List Object)
    → Perm (sorted_out (plan_from policy r live)) (sorted_out r ++ live)
unfolding plan_from
plan_from-perm policy r [] = rw append-nil (Perm.refl _)
plan_from-perm policy r (obj ∷ live) =
    Perm.trans
      (plan_from-perm policy (sort_out (reject_reason obj policy) (skip_reason obj policy) obj r)
        live)
      (Perm.trans (Perm.append_right live (sort_out-perm obj r _ _))
        (Perm.symm (perm_middle (sorted_out r) live)))

-- Each live object is in exactly one of the three lists of the plan, as often as it was given, and
-- the eligible ones stand in the reverse of the apply order: their layers never rise.
pub prune_plan-accounts :
    (live : List Object) (policy : Policy)
    → Perm (sorted_out (prune_plan live policy)) live
      × Each (λ a b. layer b ≤ layer a) (prune_plan live policy).eligible
unfolding prune_plan prune_order
prune_plan-accounts live policy = (
  Perm.trans
      (Perm.append_right (map (λ x. x.object) r.rejected) (
        Perm.append_right (map (λ x. x.object) r.skipped)
          (Perm.trans (reverse_perm (apply_order r.eligible)) (apply_order-sorts r.eligible).0)))
      (plan_from-perm policy no_result live),
  Each-reverse (λ a b. layer a ≤ layer b) (apply_order r.eligible) (apply_order-layers r.eligible),
)
  where
    r : Result
    r = plan_from policy no_result live
