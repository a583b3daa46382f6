-- ===== src/Rollout/Split.antt =====
-- internal/controller/application_rollout.go: which hooks of a stage are applied, which are only
-- watched, and which are done.
use kuvryn_sync.Prelude.{
  ◌+◌, ◌≡◌, refl, sym, ap, ◌∙◌, Bool, true, false, not, ◌&&◌, Option, none, some, List, [], ◌∷◌,
  ◌++◌, arith, if◌then◌else◌, length, select, length-append, gather,
}
use mathlib.Core.List.{append_assoc, append-nil}
use kuvryn_sync.Resource.{Object, ObjectId, GroupVersions, from_object}
use kuvryn_sync.Health.{Result}
use kuvryn_sync.Api.{HealthState, ResourceRef}
use kuvryn_sync.Rollout.{
  resource_ref, HookSplit, place_hook, split_hook, split_hooks_from, split_hooks,
}

-- What is recorded for the hook; nothing for an object without an identity.
abbrev pub recorded_for :
    GroupVersions → (ResourceRef → Option HealthState) → Option ObjectId → Option HealthState
recorded_for gv states none = none
recorded_for gv states (some id) = states (resource_ref gv id)

abbrev pub is_pending : Option HealthState → Bool
is_pending none = true
is_pending (some HealthState.degraded) = true
is_pending (some _) = false

abbrev pub is_done : Option HealthState → Bool
is_done (some HealthState.healthy) = true
is_done _ = false

-- The verdict on a hook that is not applied again.
abbrev pub done_result : Option ObjectId → Option HealthState → List Result
done_result (some id) (some HealthState.healthy) =
    record { resource = id; state = HealthState.healthy; reason = "HookSucceeded" } ∷ []
done_result _ _ = []

abbrev pub is_watched : Option HealthState → Bool
is_watched s = not (is_pending s) && not (is_done s)

place_hook-lem :
    (state : Option HealthState) (o : Object) (id : ObjectId) (s : HookSplit)
    → let after = place_hook state o id s in
      (after.pending ≡ s.pending ++ (if is_pending state then o ∷ [] else []))
      × (after.watched ≡ s.watched ++ (if is_watched state then o ∷ [] else []))
      × (after.done ≡ s.done ++ done_result (some id) state)
unfolding place_hook
place_hook-lem none o id s = (refl, sym (append-nil s.watched), sym (append-nil s.done))
place_hook-lem (some HealthState.degraded) o id s =
    (refl, sym (append-nil s.watched), sym (append-nil s.done))
place_hook-lem (some HealthState.healthy) o id s =
    (sym (append-nil s.pending), sym (append-nil s.watched), refl)
place_hook-lem (some HealthState.unset) o id s =
    (sym (append-nil s.pending), refl, sym (append-nil s.done))
place_hook-lem (some HealthState.unknown) o id s =
    (sym (append-nil s.pending), refl, sym (append-nil s.done))
place_hook-lem (some HealthState.progressing) o id s =
    (sym (append-nil s.pending), refl, sym (append-nil s.done))
place_hook-lem (some HealthState.suspended) o id s =
    (sym (append-nil s.pending), refl, sym (append-nil s.done))

-- A member goes to exactly one of the three parts.
one_part :
    (state : Option HealthState)
    → (if is_pending state then 1 else 0)
        + (if is_watched state then 1 else 0)
        + (if is_done state then 1 else 0)
      ≡ 1
one_part none = refl
one_part (some HealthState.degraded) = refl
one_part (some HealthState.healthy) = refl
one_part (some HealthState.unset) = refl
one_part (some HealthState.unknown) = refl
one_part (some HealthState.progressing) = refl
one_part (some HealthState.suspended) = refl

extend {ℓ} :
    {A : Type ℓ} (b : Bool) (x : A) (xs ys zs new : List A)
    → zs ≡ new ++ ys
    → new ≡ xs ++ (if b then x ∷ [] else [])
    → zs ≡ xs ++ (if b then x ∷ ys else ys)
extend true x xs ys zs new h k = h ∙ ap (λ l. l ++ ys) k ∙ append_assoc xs (x ∷ []) ys
extend false x xs ys zs new h k = h ∙ ap (λ l. l ++ ys) (k ∙ append-nil xs)

length-if {ℓ} :
    {A : Type ℓ} (b : Bool) (x : A) (xs : List A)
    → length (if b then x ∷ xs else xs) ≡ (if b then 1 else 0) + length xs
length-if true x xs = omega arith
length-if false x xs = omega arith

module _ (gv : GroupVersions) (states : ResourceRef → Option HealthState) where
  abbrev pub recorded : Object → Option HealthState
  recorded o = recorded_for gv states (from_object gv o)

  -- A hook that is recorded as healthy has succeeded.
  abbrev pub finished : Object → List Result
  finished o = done_result (from_object gv o) (recorded o)

  length-finished : (o : Object) → length (finished o) ≡ (if is_done (recorded o) then 1 else 0)
  length-finished o = by_identity (from_object gv o)
    where
      by_state :
          (id : ObjectId) (state : Option HealthState)
          → length (done_result (some id) state) ≡ (if is_done state then 1 else 0)
      by_state id none = refl
      by_state id (some HealthState.degraded) = refl
      by_state id (some HealthState.healthy) = refl
      by_state id (some HealthState.unset) = refl
      by_state id (some HealthState.unknown) = refl
      by_state id (some HealthState.progressing) = refl
      by_state id (some HealthState.suspended) = refl

      by_identity :
          (id : Option ObjectId)
          → length (done_result id (recorded_for gv states id))
            ≡ (if is_done (recorded_for gv states id) then 1 else 0)
      by_identity none = refl
      by_identity (some id) = by_state id (states (resource_ref gv id))

  split_hook-lem :
      (id : Option ObjectId) (o : Object) (s : HookSplit)
      → let state = recorded_for gv states id in
        let after = split_hook gv states id o s in
        (after.pending ≡ s.pending ++ (if is_pending state then o ∷ [] else []))
        × (after.watched ≡ s.watched ++ (if is_watched state then o ∷ [] else []))
        × (after.done ≡ s.done ++ done_result id state)
  unfolding split_hook
  split_hook-lem none o s = (refl, sym (append-nil s.watched), sym (append-nil s.done))
  split_hook-lem (some id) o s = place_hook-lem (states (resource_ref gv id)) o id s

  split_hooks_from-lem :
      (s : HookSplit) (objects : List Object)
      → let after = split_hooks_from gv states s objects in
        (after.pending ≡ s.pending ++ select (λ o. is_pending (recorded o)) objects)
        × (after.watched ≡ s.watched ++ select (λ o. is_watched (recorded o)) objects)
        × (after.done ≡ s.done ++ gather finished objects)
  unfolding split_hooks_from
  split_hooks_from-lem s [] =
      (sym (append-nil s.pending), sym (append-nil s.watched), sym (append-nil s.done))
  split_hooks_from-lem s (o ∷ objects) =
      let next = split_hook gv states (from_object gv o) o s in
      let (p, w, d) = split_hook-lem (from_object gv o) o s in
      let (ps, ws, ds) = split_hooks_from-lem next objects in
      (
        extend (is_pending (recorded o)) o s.pending _ _ next.pending ps p,
        extend (is_watched (recorded o)) o s.watched _ _ next.watched ws w,
        ds
            ∙ ap (λ l. l ++ gather finished objects) d
            ∙ append_assoc s.done (finished o) (gather finished objects),
      )

  three_parts :
      (objects : List Object)
      → length (select (λ o. is_pending (recorded o)) objects)
          + length (select (λ o. is_watched (recorded o)) objects)
          + length (gather finished objects)
        ≡ length objects
  three_parts [] = omega arith
  three_parts (o ∷ objects) = omega (
    arith,
    three_parts objects,
    one_part (recorded o),
    length-if (is_pending (recorded o)) o (select (λ x. is_pending (recorded x)) objects),
    length-if (is_watched (recorded o)) o (select (λ x. is_watched (recorded x)) objects),
    length-append (finished o) (gather finished objects),
    length-finished o,
  )

  -- A stage's hooks are split by what is recorded of them, in order: those with no identity, with
  -- no record or recorded as degraded are applied; for those recorded as healthy a healthy verdict
  -- that names the hook is given; the others, which run, are only watched. None is in two parts, and
  -- none is lost.
  pub split_hooks-lem :
      (objects : List Object)
      → let after = split_hooks gv states objects in
        (after.pending ≡ select (λ o. is_pending (recorded o)) objects)
        × (after.watched ≡ select (λ o. is_watched (recorded o)) objects)
        × (after.done ≡ gather finished objects)
        × (length after.pending + length after.watched + length after.done ≡ length objects)
  unfolding split_hooks
  split_hooks-lem objects =
      let (p, w, d) =
        split_hooks_from-lem (record { pending = []; watched = []; done = [] }) objects in
      (p, w, d, omega (arith, ap length p, ap length w, ap length d, three_parts objects))
