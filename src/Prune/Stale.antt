-- ===== src/Prune/Stale.antt =====
-- internal/controller/application_controller.go: `staleManagedObjects`, and what prune makes of it.
use kuvryn_sync.Prelude.{
  ◌≡◌, refl, sym, ◌∙◌, ◌≢◌, inl, inr, false, Option, none, some, List, [], ◌∷◌, ◌++◌, arith,
  Bool-cases, Option-cases, any, All, All-left, All-right, All-map_of, All-and,
}
use mathlib.Core.Path.{subst}
use kuvryn_sync.Prune.{Policy, prune_plan}
use kuvryn_sync.Prune.Safety.{MayDelete, prune_plan-IsPlanned, prune_plan-All}
use kuvryn_sync.Resource.{Object, ObjectId, GroupVersions, from_object, id_eq, id_eq_iff}
use kuvryn_sync.Prune.{add_id, add_stale, ids_of, stale_from, stale_managed_objects}

module _ (gv : GroupVersions) where
  -- No kept identity is that of the object.
  abbrev IsApart : List ObjectId → Object → Type 0
  IsApart kept obj = All (λ id. from_object gv obj ≢ some id) kept

  IsApart-of_any :
      (obj : Object) (id : ObjectId) (kept : List ObjectId)
      → from_object gv obj ≡ some id
      → any (id_eq id) kept ≡ false
      → IsApart kept obj
  IsApart-of_any obj id [] e h = tt
  IsApart-of_any obj id (k ∷ kept) e h =
      (λ p. ground (arith, id_eq_iff id k), IsApart-of_any obj id kept e (ground arith))

  add_stale-IsApart :
      (kept : List ObjectId) (obj : Object) (o : Option ObjectId) (stale : List Object)
      → from_object gv obj ≡ o
      → All (IsApart kept) stale
      → All (IsApart kept) (add_stale kept obj o stale)
  unfolding add_stale
  add_stale-IsApart kept obj none stale e h = h
  add_stale-IsApart kept obj (some id) stale e h = elim (Bool-cases (any (id_eq id) kept)) [
    | inl a ↦ rw a h
    | inr a ↦ rw a (IsApart-of_any obj id kept e a, h)
  ]

  stale_from-IsApart :
      (kept : List ObjectId) (managed : List Object)
      → All (IsApart kept) (stale_from gv kept managed)
  unfolding stale_from
  stale_from-IsApart kept [] = tt
  stale_from-IsApart kept (obj ∷ managed) =
      add_stale-IsApart kept obj _ _ refl (stale_from-IsApart kept managed)

  -- An object is unlike each of the given ones, in the identity that it has.
  abbrev pub IsUnlike : List Object → Object → Type 0
  IsUnlike objects obj =
      All (λ d. (id : ObjectId) → from_object gv d ≡ some id → from_object gv obj ≢ some id) objects

  IsUnlike-of_IsApart :
      (obj : Object) (objects : List Object)
      → IsApart (ids_of gv objects) obj
      → IsUnlike objects obj
  unfolding ids_of add_id
  IsUnlike-of_IsApart obj [] h = tt
  IsUnlike-of_IsApart obj (d ∷ objects) h = elim (Option-cases (from_object gv d)) [
    | inl e ↦
        (λ id p. cc, IsUnlike-of_IsApart obj objects (subst (apart_from (ids_of gv objects)) e h))
    | inr (i, e) ↦ (
      λ id p q. (subst (apart_from (ids_of gv objects)) e h).0 (q ∙ sym p ∙ e),
      IsUnlike-of_IsApart obj objects (subst (apart_from (ids_of gv objects)) e h).1,
    )
  ]
    where
      apart_from : List ObjectId → Option ObjectId → Type 0
      apart_from ids o = IsApart (add_id o ids) obj

  -- A stale object has the identity of no desired object, rendered or live.
  pub stale_managed_objects-IsUnlike :
      (desired desired_live managed : List Object)
      → All
          (λ o. IsUnlike desired o × IsUnlike desired_live o)
          (stale_managed_objects gv desired desired_live managed)
  unfolding stale_managed_objects
  stale_managed_objects-IsUnlike desired desired_live managed =
      All-map_of _ _ both _
        (stale_from-IsApart (ids_of gv desired ++ ids_of gv desired_live) managed)
    where
      both :
          (o : Object)
          → IsApart (ids_of gv desired ++ ids_of gv desired_live) o
          → IsUnlike desired o × IsUnlike desired_live o
      both o h = (
        IsUnlike-of_IsApart o desired (All-left _ (ids_of gv desired) (ids_of gv desired_live) h),
        IsUnlike-of_IsApart o desired_live
            (All-right _ (ids_of gv desired) (ids_of gv desired_live) h),
      )

  -- Pruning what is stale deletes no object that has the identity of a desired one, and none that
  -- prune may not delete.
  pub prune_plan-stale :
      (desired desired_live managed : List Object) (policy : Policy)
      → All
          (λ o. IsUnlike desired o × IsUnlike desired_live o × MayDelete policy o)
          (prune_plan (stale_managed_objects gv desired desired_live managed) policy).eligible
  prune_plan-stale desired desired_live managed policy =
      All-and _ _ _ (λ o p q. (p.0, p.1, q)) _
        (prune_plan-All _ (stale_managed_objects gv desired desired_live managed) policy
          (stale_managed_objects-IsUnlike desired desired_live managed))
        (prune_plan-IsPlanned (stale_managed_objects gv desired desired_live managed) policy).0
