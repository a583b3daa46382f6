-- ===== src/Ordering/Waves.antt =====
-- internal/ordering/ordering.go: `Groups` neither loses nor repeats an object.
use kuvryn_sync.Prelude.{
  ◌≡◌, refl, sym, ◌≢◌, inl, inr, Bool, true, not, List, [], ◌∷◌, ◌++◌, map, Perm, arith, Bool-cases,
  select, ℤ, ltb_ℤ, eqb_ℤ, gather, gather-append, gather-sort_by-perm,
}
use mathlib.Core.List.{append-nil, append_assoc, perm_middle, perm_append_singleton}
use mathlib.Core.List.Perm
use mathlib.Core.Path.{subst, sym}
use kuvryn_sync.Resource.{Object}
use kuvryn_sync.Ordering.{
  Stage, pre_sync, post_sync, skip, hook, wave, stage_eq, Split, append_at, place, collect,
  hook_group, wave_group, sorted_waves, groups_of, empty_split, groups,
}
use kuvryn_sync.Ordering.Order.{apply_order-sorts}

abbrev members : List (ℤ × List Object) → List Object
members = gather (λ w. w.1)

-- All that a split holds.
abbrev held : Split → List Object
held s = s.pre ++ members s.waves ++ s.post

abbrev pub deployed : Object → Bool
deployed obj = not (stage_eq (hook obj) skip)

append_at-perm :
    (w : ℤ) (obj : Object) (ws : List (ℤ × List Object))
    → Perm (members (append_at w obj ws)) (obj ∷ members ws)
unfolding append_at
append_at-perm w obj [] = Perm.refl _
append_at-perm w obj ((v, os) ∷ ws) = elim (Bool-cases (eqb_ℤ v w)) [
  | inl e ↦ rw e (rw (append_assoc os (obj ∷ []) (members ws)) (perm_middle os (members ws)))
  | inr e ↦
      rw e
        (Perm.trans (Perm.append_left os (append_at-perm w obj ws)) (perm_middle os (members ws)))
]

place-perm :
    (st : Stage) (obj : Object) (s : Split)
    → st ≢ skip
    → Perm (held (place st obj s)) (obj ∷ held s)
unfolding place
place-perm pre_sync obj s h =
    Perm.append_right s.post (Perm.append_right (members s.waves) (perm_append_singleton obj s.pre))
place-perm post_sync obj s h =
    Perm.trans (Perm.append_left (s.pre ++ members s.waves) (perm_append_singleton obj s.post))
      (perm_middle (s.pre ++ members s.waves) s.post)
place-perm skip obj s h = absurd (h refl)
place-perm _ obj s h = Perm.append_right s.post (
    Perm.trans (Perm.append_left s.pre (append_at-perm (wave obj) obj s.waves))
      (perm_middle s.pre (members s.waves)))

place-skip : (st : Stage) (obj : Object) (s : Split) → st ≡ skip → place st obj s ≡ s
unfolding place
place-skip st obj s h = ground arith

stage_eq-skip : (st : Stage) → (not (stage_eq st skip) ≡ true) → st ≢ skip
stage_eq-skip st h e = ground arith

collect-perm :
    (s : Split) (objects : List Object)
    → Perm (held (collect s objects)) (held s ++ select deployed objects)
unfolding collect
collect-perm s [] = rw append-nil (Perm.refl _)
collect-perm s (obj ∷ objects) = elim (Bool-cases (deployed obj)) [
  | inl e ↦ rw e (
      Perm.trans (collect-perm (place (hook obj) obj s) objects) (
        Perm.trans
          (Perm.append_right (select deployed objects)
            (place-perm (hook obj) obj s (stage_eq-skip (hook obj) e)))
          (Perm.symm (perm_middle (held s) (select deployed objects)))))
  | inr e ↦ rw e (
      subst (λ t. Perm (held (collect t objects)) (held s ++ select deployed objects))
        (sym (place-skip (hook obj) obj s (ground arith))) (collect-perm s objects))
]

hook_group-perm :
    (st : Stage) (objects : List Object)
    → Perm (gather (λ g. g.objects) (hook_group st objects)) objects
unfolding hook_group
hook_group-perm st [] = Perm.refl _
hook_group-perm st (obj ∷ objects) = rw append-nil (apply_order-sorts (obj ∷ objects)).0

wave_groups-perm :
    (ws : List (ℤ × List Object)) → Perm (gather (λ g. g.objects) (map wave_group ws)) (members ws)
unfolding wave_group
wave_groups-perm [] = Perm.refl _
wave_groups-perm (w ∷ ws) = Perm.append (apply_order-sorts w.1).0 (wave_groups-perm ws)

groups_of-perm : (s : Split) → Perm (gather (λ g. g.objects) (groups_of s)) (held s)
unfolding groups_of
groups_of-perm s =
    rw (gather-append, gather-append)
      (Perm.append
        (Perm.append (hook_group-perm pre_sync s.pre) (
          Perm.trans (wave_groups-perm (sorted_waves s.waves))
            (gather-sort_by-perm (λ v w. ltb_ℤ v.0 w.0) (λ w. w.1) s.waves)))
        (hook_group-perm post_sync s.post))

-- Together the groups have exactly the objects whose hook stage is not `skip`, each as often as it
-- was given.
pub groups-perm :
    (objects : List Object)
    → Perm (gather (λ g. g.objects) (groups objects)) (select deployed objects)
unfolding groups
groups-perm objects =
    Perm.trans (groups_of-perm (collect empty_split objects)) (collect-perm empty_split objects)
