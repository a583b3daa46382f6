-- ===== src/Inventory/Released.antt =====
-- What the deletion of an Application deletes, and when it lets the Application go.
use kuvryn_sync.Prelude.{
  String, ◌≡◌, refl, sym, ap, ◌↔◌, ◌⊎◌, inl, inr, Bool, true, false, Option, none, some, List, [],
  ◌∷◌, arith, Bool-cases, All,
}
use mathlib.Core.Path.{subst}
use mathlib.Core.Option.{some-injective}
use mathlib.Core.Bool.{false≢true}
use kuvryn_sync.Resource.{Object}
use kuvryn_sync.Ordering.{prune_order}
use kuvryn_sync.Prune.{Policy, prune_plan}
use kuvryn_sync.Prune.Safety.{MayDelete, prune_plan-IsPlanned, All-prune_order}
use kuvryn_sync.Inventory.{Deletion, Managed, delete_objects, delete_listed, reconcile_delete}

delete_objects-lem :
    (refuses : Object → Bool) (P : Object → Type 0) (objects : List Object)
    → All P objects
    → let d = delete_objects refuses objects in
      All P d.deletes
      × ((d.is_released ≡ true) ↔ All (λ o. refuses o ≡ false) objects)
      × (d.is_released ≡ true → d.deletes ≡ objects)
unfolding delete_objects
delete_objects-lem refuses P [] h = (tt, (λ _. tt, λ _. refl), λ _. refl)
delete_objects-lem refuses P (o ∷ os) h =
    let (deleted, (to, back), same) = delete_objects-lem refuses P os h.1 in
    elim (Bool-cases (refuses o)) [
      | inl e ↦ rw e (
        (h.0, tt),
        (λ k. absurd (false≢true k), λ k. absurd (false≢true (sym k.0))),
        λ k. absurd (false≢true k),
      )
      | inr e ↦
          rw e ((h.0, deleted), (λ k. (refl, to k), λ k. back k.1), λ k. ap (λ xs. o ∷ xs) (same k))
    ]

orphaning_not : (true ≡ false) ⊎ (true ≡ false) → ⊥
orphaning_not (inl e) = false≢true (sym e)
orphaning_not (inr e) = false≢true (sym e)

-- What the deletion is to delete.
abbrev pub doomed : String → Managed → List Object
doomed application m =
    prune_order
      (prune_plan m.objects (record { application = application; allow_high_risk = true })).eligible

-- Nothing is to be deleted: the policy is to orphan, or no service account can be used.
abbrev pub IsOrphaning : Bool → Bool → Type 0
IsOrphaning deletes_managed has_tenant = (deletes_managed ≡ false) ⊎ (has_tenant ≡ false)

-- What is managed could be listed, no delete of what is to be deleted fails, and the delete of each
-- is asked for, in the order of pruning.
abbrev pub IsDeleted : (Object → Bool) → String → Option Managed → List Object → Type 0
IsDeleted refuses application managed deletes =
    (m : Managed) × (managed ≡ some m)
    × All (λ o. refuses o ≡ false) (doomed application m)
    × (deletes ≡ doomed application m)

abbrev pub IsDeletion : (Object → Bool) → String → Bool → Bool → Option Managed → Deletion → Type 0
IsDeletion refuses application deletes_managed has_tenant managed d =
    All (MayDelete (record { application = application; allow_high_risk = true })) d.deletes
    × ((d.is_released ≡ true) ↔ (
        (IsOrphaning deletes_managed has_tenant × (d.deletes ≡ []))
        ⊎ IsDeleted refuses application managed d.deletes))

delete_listed-IsDeletion :
    (refuses : Object → Bool) (application : String) (managed : Option Managed)
    → IsDeletion refuses application true true managed (delete_listed refuses application managed)
unfolding delete_listed
delete_listed-IsDeletion refuses application none = (
  tt,
  (
    λ k. absurd (false≢true k),
    λ k. elim k [
      | inl (orphaning, _) ↦ absurd (orphaning_not orphaning)
      | inr (m, e, _, _) ↦ absurd (ground (arith, e))
    ],
  ),
)
delete_listed-IsDeletion refuses application (some m) =
    let policy : Policy = record { application = application; allow_high_risk = true } in
    let (allowed, (to, back), same) =
      delete_objects-lem refuses (MayDelete policy) (doomed application m)
        (All-prune_order (MayDelete policy) _ (prune_plan-IsPlanned m.objects policy).0) in
    (
      allowed,
      (
        λ k. inr (m, refl, to k, same k),
        λ k. elim k [
          | inl (orphaning, _) ↦ absurd (orphaning_not orphaning)
          | inr (other, e, free, _) ↦ back (
              subst (λ x. All (λ o. refuses o ≡ false) (doomed application x))
                (sym (some-injective m other e)) free)
        ],
      ),
    )

-- The deletion of an Application with the finalizer asks only for the deletion of objects that carry
-- its label and did not opt out. It lets the Application go exactly in two cases: the policy is to
-- orphan or no service account can be used, and nothing is deleted; or what is managed could be
-- listed, no delete of what is to be deleted fails, and each of them was asked for, in the order of
-- pruning.
pub reconcile_delete-lem :
    (refuses : Object → Bool) (application : String) (deletes_managed has_tenant : Bool)
    (managed : Option Managed)
    → IsDeletion refuses application deletes_managed has_tenant managed
        (reconcile_delete refuses application deletes_managed has_tenant managed)
unfolding reconcile_delete
reconcile_delete-lem refuses application true true managed =
    delete_listed-IsDeletion refuses application managed
reconcile_delete-lem refuses application true false managed =
    (tt, (λ k. inl (inr refl, refl), λ k. refl))
reconcile_delete-lem refuses application false has_tenant managed =
    (tt, (λ k. inl (inl refl, refl), λ k. refl))
