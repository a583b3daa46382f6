-- ===== src/Walk/Done.antt =====
-- When a rollout is done, and what holds it up.
use kuvryn_sync.Prelude.{
  String, ◌≡◌, refl, sym, ap, ◌∙◌, ◌↔◌, ◌⊎◌, inl, inr, Bool, true, false, not, ◌&&◌, Option, none,
  some, List, [], ◌∷◌, ◌++◌, Bool-cases, All, All-right,
}
use mathlib.Core.Path.{subst}
use mathlib.Core.List.{append_assoc}
use mathlib.Core.Bool.{false≢true}
use kuvryn_sync.Api.{HookStatus}
use kuvryn_sync.Resource.{Object, GroupVersions}
use kuvryn_sync.Ordering.{Stage, Group, groups}
use kuvryn_sync.Health.{Result}
use kuvryn_sync.Walk.{Error, Cluster, Rollout, Walked, Step, stop, next, and_then, is_post, is_hook}
use kuvryn_sync.Walk.Visit.{
  prune_first, replaced_by, replace_hooks, applied_by, at_start, left_by, apply_pending, judged,
  with_results, checked_by, check_group, visit_group, walk, prune_last, roll_out,
}
use kuvryn_sync.Walk.Groups.{
  Goes, Goes-and_then, next_of, Prunes, Passes, prune_now-Goes, visit_group-Goes, walk-append,
}

abbrev Kept : Bool → Step → Type 0
Kept b s = (left_by s).is_pruned ≡ b

left_by-and_then :
    (s : Step) (f : Walked → Step) → Goes s → left_by (and_then s f) ≡ left_by (f (left_by s))
unfolding and_then
left_by-and_then (stop e w) f h = absurd h
left_by-and_then (next w) f h = refl

stopped : (s : Step) (f : Walked → Step) → ¬ Goes s → and_then s f ≡ s
unfolding and_then
stopped (stop e w) f h = refl
stopped (next w) f h = absurd (h tt)

Kept-and_then :
    (b : Bool) (s : Step) (f : Walked → Step)
    → Kept b s
    → ((w : Walked) → w.is_pruned ≡ b → Kept b (f w))
    → Kept b (and_then s f)
unfolding and_then
Kept-and_then b (stop e w) f h k = h
Kept-and_then b (next w) f h k = k w h

module _ (redact : String → String) (gv : GroupVersions) (c : Cluster) (r : Rollout) where
  replaced_by-Kept :
      (stage : Stage) (o : (Error ⊎ Bool) × List Object) (w : Walked)
      → Kept w.is_pruned (replaced_by redact gv c r stage o w)
  unfolding replaced_by
  replaced_by-Kept stage (inl err, objects) w = refl
  replaced_by-Kept stage (inr true, objects) w = refl
  replaced_by-Kept stage (inr false, objects) w = refl

  replace_hooks-Kept : (g : Group) (w : Walked) → Kept w.is_pruned (replace_hooks redact gv c r g w)
  unfolding replace_hooks
  replace_hooks-Kept g w = elim (Bool-cases (is_hook g.stage)) [
    | inl h ↦ rw h (replaced_by-Kept g.stage _ w)
    | inr h ↦ rw h refl
  ]

  applied_by-Kept :
      (o : Option Error) (w : Walked) → Kept w.is_pruned (applied_by redact gv c r o w)
  unfolding applied_by
  applied_by-Kept none w = refl
  applied_by-Kept (some err) w = refl

  apply_pending-Kept :
      (stage : Stage) (objects : List Object) (w : Walked)
      → Kept w.is_pruned (apply_pending redact gv c r stage objects w)
  unfolding apply_pending
  apply_pending-Kept stage [] w = refl
  apply_pending-Kept stage (o ∷ os) w = applied_by-Kept _ _

  judged-Kept :
      (stage : Stage) (o : Option Result) (waiting : Bool) (w : Walked)
      → Kept w.is_pruned (judged redact gv c r stage o waiting w)
  unfolding judged
  judged-Kept stage (some result) waiting w = refl
  judged-Kept stage none true w = refl
  judged-Kept stage none false w = refl

  checked_by-Kept :
      (stage : Stage) (done : List Result) (o : Error ⊎ List Result) (w : Walked)
      → Kept w.is_pruned (checked_by redact gv c r stage done o w)
  unfolding checked_by with_results
  checked_by-Kept stage done (inl err) w = refl
  checked_by-Kept stage done (inr checked) w = judged-Kept stage _ _ _

  -- Only before the first post-sync hooks does a visit prune.
  visit_group-Kept :
      (g : Group) (w : Walked)
      → is_post g.stage && not w.is_pruned ≡ false
      → Kept w.is_pruned (visit_group redact gv c r g w)
  unfolding visit_group prune_first check_group
  visit_group-Kept g w h = Kept-and_then w.is_pruned _ _ (rw h refl) (λ w1 e1.
      Kept-and_then w.is_pruned _ _ (replace_hooks-Kept g w1 ∙ e1) (λ w2 e2.
        Kept-and_then w.is_pruned _ _ (apply_pending-Kept g.stage _ w2 ∙ e2)
          (λ w3 e3. checked_by-Kept g.stage _ _ w3 ∙ e3)))

  abbrev Justified : Walked → Type 0
  Justified w = w.is_pruned ≡ true → Prunes redact gv c r

  visit_group-Justified :
      (g : Group) (w : Walked)
      → Goes (visit_group redact gv c r g w)
      → Justified w
      → Justified (left_by (visit_group redact gv c r g w))
  visit_group-Justified g w h before after =
      elim (Bool-cases (is_post g.stage && not w.is_pruned)) [
        | inl p ↦ ((visit_group-Goes redact gv c r g w).0 h).0 p
        | inr p ↦ before (sym (visit_group-Kept g w p) ∙ after)
      ]

  walk-Passes :
      (gs : List Group) (w : Walked)
      → Goes (walk redact gv c r gs w)
      → Justified w
      → All (Passes redact gv c r) gs × Justified (left_by (walk redact gv c r gs w))
  unfolding walk
  walk-Passes [] w h before = (tt, before)
  walk-Passes (g ∷ gs) w h before =
      let (now, later) =
        (Goes-and_then (visit_group redact gv c r g w) (walk redact gv c r gs)).0 h in
      let (all_pass, after) =
        walk-Passes gs (left_by (visit_group redact gv c r g w)) later
          (visit_group-Justified g w now before) in
      (
        (((visit_group-Goes redact gv c r g w).0 now).1, all_pass),
        subst Justified
            (sym (left_by-and_then (visit_group redact gv c r g w) (walk redact gv c r gs) now))
            after,
      )

  walk-Goes :
      (gs : List Group) (w : Walked)
      → All (Passes redact gv c r) gs
      → Prunes redact gv c r
      → Goes (walk redact gv c r gs w)
  unfolding walk
  walk-Goes [] w h p = tt
  walk-Goes (g ∷ gs) w h p =
      (Goes-and_then (visit_group redact gv c r g w) (walk redact gv c r gs)).1
        ((visit_group-Goes redact gv c r g w).1 (λ _. p, h.0), walk-Goes gs _ h.1 p)

  prune_last-Goes :
      (w : Walked) → Justified w → Goes (prune_last redact gv c r w) ↔ Prunes redact gv c r
  unfolding prune_last
  prune_last-Goes w j = elim (Bool-cases w.is_pruned) [
    | inl p ↦ (λ _. j p, λ _. simp p tt)
    | inr p ↦ (
      λ h. (prune_now-Goes redact gv c r w).0 (simp p at h),
      λ h. simp p ((prune_now-Goes redact gv c r w).1 h),
    )
  ]

  -- A rollout is done exactly where each of its groups passes and what is stale may and can be
  -- deleted.
  pub roll_out-done_iff :
      (desired : List Object) (hooks : List HookStatus)
      → ((w : Walked) × (roll_out redact gv c r desired (at_start hooks) ≡ next w))
        ↔ (All (Passes redact gv c r) (groups desired) × Prunes redact gv c r)
  unfolding roll_out
  roll_out-done_iff desired hooks =
      let start = at_start hooks in
      let walked = walk redact gv c r (groups desired) start in
      (
        λ (w, e).
            let (first, last) =
              (Goes-and_then walked (prune_last redact gv c r)).0 (subst Goes (sym e) tt) in
            let (passes, justified) =
              walk-Passes (groups desired) start first (λ p. absurd (false≢true p)) in
            (passes, (prune_last-Goes (left_by walked) justified).0 last),
        λ (passes, prunes). (
          left_by (and_then walked (prune_last redact gv c r)),
          next_of (and_then walked (prune_last redact gv c r)) (
              (Goes-and_then walked (prune_last redact gv c r)).1 (
                walk-Goes (groups desired) start passes prunes,
                (prune_last-Goes (left_by walked) (λ _. prunes)).1 prunes,
              )),
        ),
      )

  -- Where a group does not pass, a rollout ends with it: no later group has any part in it.
  pub roll_out-blocked :
      (desired : List Object) (hooks : List HookStatus) (before after : List Group) (g : Group)
      → groups desired ≡ before ++ g ∷ after
      → ¬ Passes redact gv c r g
      → roll_out redact gv c r desired (at_start hooks)
        ≡ walk redact gv c r (before ++ g ∷ []) (at_start hooks)
  unfolding roll_out
  roll_out-blocked desired hooks before after g e h =
      let start = at_start hooks in
      let front = before ++ g ∷ [] in
      let blocked : ¬ Goes (walk redact gv c r front start) = λ goes.
        h
          (All-right (Passes redact gv c r) before (g ∷ [])
            (walk-Passes front start goes (λ p. absurd (false≢true p))).0).0 in
      ap (λ gs. and_then (walk redact gv c r gs start) (prune_last redact gv c r))
        (e ∙ sym (append_assoc before (g ∷ []) after))
      ∙ ap (λ s. and_then s (prune_last redact gv c r))
          (walk-append redact gv c r front after start
            ∙ stopped (walk redact gv c r front start) (walk redact gv c r after) blocked)
      ∙ stopped (walk redact gv c r front start) (prune_last redact gv c r) blocked
