-- ===== src/Ordering/Stages.antt =====
-- internal/ordering/ordering.go: the order of the groups, and what stands in each.
use kuvryn_sync.Prelude.{
  ℕ, ◌≤◌, ◌<◌, ◌≡◌, refl, sym, ap, ◌≢◌, ◌⊎◌, inl, inr, true, false, List, [], ◌∷◌, ◌++◌, map, arith,
  ltb→lt, Bool-cases, All, Each, IsOrder, IsSorted, All-sort_by, sort_by-IsSorted, ℤ, pos, negsuc,
  ◌<ℤ◌, ltb_ℤ, eqb_ℤ, eqb_ℤ→eq, ltb_ℤ-antisym, All-append, All-map_of, All-of_forall, Each-append,
  Each-and, Each-sort_by,
}
use kuvryn_sync.Resource.{Object}
use kuvryn_sync.Ordering.{
  Stage, ordinary, pre_sync, sync, post_sync, skip, hook, wave, apply_less, Group, Split, append_at,
  place, collect, hook_group, wave_group, sorted_waves, groups_of, empty_split, groups, apply_order,
}
use kuvryn_sync.Ordering.Order.{apply_order-sorts}
use kuvryn_sync.Ordering.Hooks.{hook-ne-sync}

abbrev pub rank : Stage → ℕ
rank pre_sync = 0
rank sync = 1
rank post_sync = 2
rank _ = 3

-- One group has to be healthy before another starts.
abbrev pub Before : Group → Group → Type 0
Before g h =
    (rank g.stage < rank h.stage) ⊎ ((g.stage ≡ sync) × (h.stage ≡ sync) × (g.number <ℤ h.number))

-- An object stands in a group of its stage, an ordinary one in the group of its wave.
abbrev pub Belongs : Group → Object → Type 0
Belongs g obj =
    ((g.stage ≡ pre_sync) × (hook obj ≡ pre_sync))
    ⊎ ((g.stage ≡ post_sync) × (hook obj ≡ post_sync))
    ⊎ ((g.stage ≡ sync) × (hook obj ≡ ordinary) × (wave obj ≡ g.number))

abbrev pub IsGroup : Group → Type 0
IsGroup g = All (Belongs g) g.objects × IsSorted apply_less g.objects

-- The entries of the map of waves: their keys, and their objects.
abbrev InWave : ℤ × List Object → Type 0
InWave w = All (λ o. (hook o ≡ ordinary) × (wave o ≡ w.0)) w.1

abbrev Apart : ℤ × List Object → ℤ × List Object → Type 0
Apart v w = v.0 ≢ w.0

record IsSplit (s : Split) : Type 0 where
  pre_hooks : All (λ o. hook o ≡ pre_sync) s.pre
  post_hooks : All (λ o. hook o ≡ post_sync) s.post
  in_waves : All InWave s.waves
  apart : Each Apart s.waves

All-Apart-append_at :
    (v w : ℤ) (os : List Object) (obj : Object) (ws : List (ℤ × List Object))
    → v ≢ w
    → All (Apart (v, os)) ws
    → All (Apart (v, os)) (append_at w obj ws)
unfolding append_at
All-Apart-append_at v w os obj [] n h = (n, tt)
All-Apart-append_at v w os obj ((u, ps) ∷ ws) n h = elim (Bool-cases (eqb_ℤ u w)) [
  | inl e ↦ rw e (h.0, h.1)
  | inr e ↦ rw e (h.0, All-Apart-append_at v w os obj ws n h.1)
]

eqb_ℤ_refl : (a : ℤ) → eqb_ℤ a a ≡ true
eqb_ℤ_refl (pos n) = ground arith
eqb_ℤ_refl (negsuc n) = ground arith

append_at-Apart :
    (w : ℤ) (obj : Object) (ws : List (ℤ × List Object))
    → Each Apart ws
    → Each Apart (append_at w obj ws)
unfolding append_at
append_at-Apart w obj [] h = (tt, tt)
append_at-Apart w obj ((v, os) ∷ ws) h = elim (Bool-cases (eqb_ℤ v w)) [
  | inl e ↦ rw e h
  | inr e ↦ rw e (
    All-Apart-append_at v w os obj ws (λ p. cc (e, eqb_ℤ_refl w, ap (λ u. eqb_ℤ u w) p)) h.0,
    append_at-Apart w obj ws h.1,
  )
]

append_at-InWave :
    (obj : Object) (ws : List (ℤ × List Object))
    → hook obj ≡ ordinary
    → All InWave ws
    → All InWave (append_at (wave obj) obj ws)
unfolding append_at
append_at-InWave obj [] o h = (((o, refl), tt), tt)
append_at-InWave obj ((v, os) ∷ ws) o h = elim (Bool-cases (eqb_ℤ v (wave obj))) [
  | inl e ↦ rw e (
    All-append (λ x. (hook x ≡ ordinary) × (wave x ≡ v)) os (obj ∷ []) h.0
        ((o, sym (eqb_ℤ→eq v (wave obj) e)), tt),
    h.1,
  )
  | inr e ↦ rw e (h.0, append_at-InWave obj ws o h.1)
]

place-IsSplit :
    (st : Stage) (obj : Object) (s : Split) → hook obj ≡ st → IsSplit s → IsSplit (place st obj s)
unfolding place
place-IsSplit pre_sync obj s e h = record {
  pre_hooks = All-append (λ o. hook o ≡ pre_sync) s.pre (obj ∷ []) h.pre_hooks (e, tt);
  post_hooks = h.post_hooks;
  in_waves = h.in_waves;
  apart = h.apart;
}
place-IsSplit post_sync obj s e h = record {
  pre_hooks = h.pre_hooks;
  post_hooks = All-append (λ o. hook o ≡ post_sync) s.post (obj ∷ []) h.post_hooks (e, tt);
  in_waves = h.in_waves;
  apart = h.apart;
}
place-IsSplit skip obj s e h = h
place-IsSplit sync obj s e h = absurd (hook-ne-sync obj e)
place-IsSplit ordinary obj s e h = record {
  pre_hooks = h.pre_hooks;
  post_hooks = h.post_hooks;
  in_waves = append_at-InWave obj s.waves e h.in_waves;
  apart = append_at-Apart (wave obj) obj s.waves h.apart;
}

collect-IsSplit : (s : Split) (objects : List Object) → IsSplit s → IsSplit (collect s objects)
unfolding collect
collect-IsSplit s [] h = h
collect-IsSplit s (obj ∷ objects) h =
    collect-IsSplit (place (hook obj) obj s) objects (place-IsSplit (hook obj) obj s refl h)

wave_less : (v w : ℤ × List Object) → ltb_ℤ w.0 v.0 ≡ false → Apart v w → v.0 <ℤ w.0
wave_less v w h n = elim (Bool-cases (ltb_ℤ v.0 w.0)) [
  | inl e ↦ ltb→lt _ _ e
  | inr e ↦ absurd (n (ltb_ℤ-antisym v.0 w.0 e h))
]

wave-IsOrder : IsOrder {A = ℤ × List Object} (λ v w. ltb_ℤ v.0 w.0)
wave-IsOrder = record { asym = λ a b h. ground arith; trans = λ a b c h k. ground arith }

abbrev Earlier : ℤ × List Object → ℤ × List Object → Type 0
Earlier v w = v.0 <ℤ w.0

sorted_waves-Earlier :
    (ws : List (ℤ × List Object)) → Each Apart ws → Each Earlier (sorted_waves ws)
sorted_waves-Earlier ws h =
    Each-and (λ v w. ltb_ℤ w.0 v.0 ≡ false) Apart Earlier wave_less (sorted_waves ws)
      (sort_by-IsSorted (λ v w. ltb_ℤ v.0 w.0) wave-IsOrder ws)
      (Each-sort_by (λ v w. ltb_ℤ v.0 w.0) Apart (λ v w n p. n (sym p)) ws h)

-- The groups of the waves, and what may stand round them.
All-wave_group :
    (P : Group → Type 0) (ws : List (ℤ × List Object))
    → All (λ w. P (wave_group w)) ws
    → All P (map wave_group ws)
All-wave_group P [] h = tt
All-wave_group P (w ∷ ws) h = (h.0, All-wave_group P ws h.1)

Each-wave_group : (ws : List (ℤ × List Object)) → Each Earlier ws → Each Before (map wave_group ws)
unfolding wave_group
Each-wave_group [] h = tt
Each-wave_group (w ∷ ws) h = (
  All-wave_group (Before (wave_group w)) ws (
      All-map_of (Earlier w) (λ v. Before (wave_group w) (wave_group v))
        (λ v p. inr (refl, refl, p)) ws h.0),
  Each-wave_group ws h.1,
)

hook_group-Each : (st : Stage) (os : List Object) → Each Before (hook_group st os)
unfolding hook_group
hook_group-Each st [] = tt
hook_group-Each st (o ∷ os) = (tt, tt)

hook_group-All :
    (P : Group → Type 0) (st : Stage) (os : List Object)
    → ((gs : List Object) → P (record { stage = st; number = pos 0; objects = gs }))
    → All P (hook_group st os)
unfolding hook_group
hook_group-All P st [] f = tt
hook_group-All P st (o ∷ os) f = (f (apply_order (o ∷ os)), tt)

-- The groups run in order: the pre-sync hooks, the waves by rising number, the post-sync hooks.
pub groups-Before : (objects : List Object) → Each Before (groups objects)
unfolding groups groups_of wave_group
groups-Before objects =
    Each-append Before (hook_group pre_sync s.pre ++ waves) (hook_group post_sync s.post)
      (Each-append Before (hook_group pre_sync s.pre) waves (hook_group-Each pre_sync s.pre)
        (Each-wave_group (sorted_waves s.waves) (sorted_waves-Earlier s.waves split.apart))
        (hook_group-All (λ g. All (Before g) waves) pre_sync s.pre
          (λ gs.
            All-wave_group _ _ (All-of_forall _ (λ w. inl (omega arith)) (sorted_waves s.waves)))))
      (hook_group-Each post_sync s.post)
      (All-append (λ g. All (Before g) (hook_group post_sync s.post)) (hook_group pre_sync s.pre)
        waves
        (hook_group-All _ pre_sync s.pre
          (λ gs. hook_group-All _ post_sync s.post (λ hs. inl (omega arith))))
        (All-wave_group _ _ (
          All-of_forall _ (λ w. hook_group-All _ post_sync s.post (λ hs. inl (omega arith)))
            (sorted_waves s.waves))))
  where
    s : Split
    s = collect empty_split objects

    split : IsSplit s
    split =
        collect-IsSplit empty_split objects
          (record { pre_hooks = tt; post_hooks = tt; in_waves = tt; apart = tt })

    waves : List Group
    waves = map wave_group (sorted_waves s.waves)

All-apply_order : (P : Object → Type 0) (os : List Object) → All P os → All P (apply_order os)
unfolding apply_order
All-apply_order P os h = All-sort_by apply_less P os h

hook_group-IsGroup :
    (st : Stage) (os : List Object)
    → ((gs : List Object)
        → All (λ o. hook o ≡ st) gs
        → All (Belongs (record { stage = st; number = pos 0; objects = gs })) gs)
    → All (λ o. hook o ≡ st) os
    → All IsGroup (hook_group st os)
unfolding hook_group
hook_group-IsGroup st [] f h = tt
hook_group-IsGroup st (o ∷ os) f h =
    ((f (apply_order (o ∷ os)) (All-apply_order _ (o ∷ os) h), (apply_order-sorts (o ∷ os)).1), tt)

wave_group-IsGroup : (w : ℤ × List Object) → InWave w → IsGroup (wave_group w)
unfolding wave_group
wave_group-IsGroup w h = (
  All-map_of _ _ (λ o p. inr (inr (refl, p.0, p.1))) (apply_order w.1) (All-apply_order _ w.1 h),
  (apply_order-sorts w.1).1,
)

-- Every object stands in the group of its stage and wave, and each group is in apply order.
pub groups-IsGroup : (objects : List Object) → All IsGroup (groups objects)
unfolding groups groups_of
groups-IsGroup objects =
    All-append IsGroup (hook_group pre_sync s.pre ++ map wave_group (sorted_waves s.waves))
      (hook_group post_sync s.post)
      (All-append IsGroup (hook_group pre_sync s.pre) (map wave_group (sorted_waves s.waves))
        (hook_group-IsGroup pre_sync s.pre (λ gs. All-map_of _ _ (λ o p. inl (refl, p)) gs)
          split.pre_hooks)
        (All-wave_group IsGroup (sorted_waves s.waves) (
          All-sort_by (λ v w. ltb_ℤ v.0 w.0) (λ w. IsGroup (wave_group w)) s.waves
            (All-map_of InWave (λ w. IsGroup (wave_group w)) wave_group-IsGroup s.waves
              split.in_waves))))
      (hook_group-IsGroup post_sync s.post (λ gs. All-map_of _ _ (λ o p. inr (inl (refl, p))) gs)
        split.post_hooks)
  where
    s : Split
    s = collect empty_split objects

    split : IsSplit s
    split =
        collect-IsSplit empty_split objects
          (record { pre_hooks = tt; post_hooks = tt; in_waves = tt; apart = tt })

-- No group has another stage.
pub groups-rank : (objects : List Object) → All (λ g. rank g.stage ≤ 2) (groups objects)
unfolding groups groups_of wave_group
groups-rank objects =
    All-append _ (hook_group pre_sync s.pre ++ map wave_group (sorted_waves s.waves))
      (hook_group post_sync s.post)
      (All-append _ (hook_group pre_sync s.pre) (map wave_group (sorted_waves s.waves))
        (hook_group-All _ pre_sync s.pre (λ _. omega arith))
        (All-wave_group _ (sorted_waves s.waves)
          (All-of_forall _ (λ _. omega arith) (sorted_waves s.waves))))
      (hook_group-All _ post_sync s.post (λ _. omega arith))
  where
    s : Split
    s = collect empty_split objects
