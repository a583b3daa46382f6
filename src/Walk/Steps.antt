-- ===== src/Walk/Steps.antt =====
-- What one step of the walk adds to the calls that change the cluster.
use kuvryn_sync.Prelude.{
  ℕ, ◌*◌, ◌≤◌, String, ◌≡◌, refl, ◌⊎◌, inl, inr, Bool, true, false, Option, none, some, List, [],
  ◌∷◌, map, arith, Bool-cases, All, Each, All-append, All-map_of, Each-append,
}
use kuvryn_sync.Api.{Failure}
use kuvryn_sync.Resource.{Object, GroupVersions}
use kuvryn_sync.Ordering.{Stage, Group}
use kuvryn_sync.Ordering.Stages.{rank}
use kuvryn_sync.Health.{Result}
use kuvryn_sync.Walk.{
  Error, Cluster, Call, replaced, applied, pruned, Rollout, Walked, Step, stop, next, and_then,
  with_calls, prune_stale, is_hook,
}
use kuvryn_sync.Walk.Visit.{
  pruned_by, prune_now, replaced_by, replace_hooks, applied_by, apply_pending, judged, with_results,
  checked_by, check_group,
}

-- Where a call stands: the pre-sync hooks, what is synced, what is pruned, the post-sync hooks.
abbrev pub call_place : Call → ℕ
call_place (replaced stage _) = 2 * rank stage
call_place (applied stage _) = 2 * rank stage
call_place (pruned _) = 3

abbrev pub Sorted : Walked → Type 0
Sorted w = Each (λ a b. call_place a ≤ call_place b) w.calls

abbrev pub Bounded : ℕ → Walked → Type 0
Bounded m w = All (λ a. call_place a ≤ m) w.calls

-- What a step leaves behind where its calls stand at `m`.
abbrev pub Good : ℕ → Bool → Step → Type 0
Good m b (stop e w) = Sorted w
Good m b (next w) = Sorted w × Bounded m w × (w.is_pruned ≡ b)

pub Good-and_then :
    (m n : ℕ) (b d : Bool) (s : Step) (f : Walked → Step)
    → Good m b s
    → ((w : Walked) → Sorted w → Bounded m w → w.is_pruned ≡ b → Good n d (f w))
    → Good n d (and_then s f)
unfolding and_then
Good-and_then m n b d (stop e w) f h k = h
Good-and_then m n b d (next w) f h k = k w h.0 h.1 h.2

Each-same :
    (m : ℕ) (cs : List Call)
    → All (λ c. call_place c ≡ m) cs
    → Each (λ a b. call_place a ≤ call_place b) cs
Each-same m [] h = tt
Each-same m (c ∷ cs) h = (
  All-map_of (λ d. call_place d ≡ m) (λ d. call_place c ≤ call_place d)
      (λ d e. omega (arith, e, h.0)) cs h.1,
  Each-same m cs h.1,
)

module _ (m : ℕ) (cs : List Call) (w : Walked) (e : All (λ c. call_place c ≡ m) cs) (s : Sorted w)
    (b : Bounded m w) where
  more-Sorted : Sorted (with_calls cs w)
  more-Sorted =
      Each-append (λ x y. call_place x ≤ call_place y) w.calls cs s (Each-same m cs e)
        (All-map_of (λ x. call_place x ≤ m) (λ x. All (λ y. call_place x ≤ call_place y) cs)
          (λ x l.
            All-map_of (λ y. call_place y ≡ m) (λ y. call_place x ≤ call_place y)
              (λ y k. omega (arith, k, l)) cs e)
          w.calls b)

  more-Bounded : Bounded m (with_calls cs w)
  more-Bounded =
      All-append (λ x. call_place x ≤ m) w.calls cs b
        (All-map_of (λ y. call_place y ≡ m) (λ y. call_place y ≤ m) (λ y k. omega (arith, k)) cs e)

All-map :
    {A : Type 0} (m : ℕ) (f : A → Call) (h : (a : A) → call_place (f a) ≡ m) (xs : List A)
    → All (λ c. call_place c ≡ m) (map f xs)
All-map m f h [] = tt
All-map m f h (x ∷ xs) = (h x, All-map m f h xs)

module _ (redact : String → String) (gv : GroupVersions) (c : Cluster) (r : Rollout) where
  pruned_by-Good :
      (o : Option Failure × List Object) (w : Walked)
      → Sorted w
      → Bounded 3 w
      → Good 3 true (pruned_by redact gv c r o w)
  unfolding pruned_by
  pruned_by-Good (none, objects) w s b =
      let e = All-map 3 pruned (λ o. refl) objects in
      (
        more-Sorted 3 (map pruned objects) w e s b,
        more-Bounded 3 (map pruned objects) w e s b,
        refl,
      )
  pruned_by-Good (some failure, objects) w s b =
      more-Sorted 3 (map pruned objects) w (All-map 3 pruned (λ o. refl) objects) s b

  module _ (stage : Stage) (b : Bool) (w : Walked) (s : Sorted w) (l : Bounded (2 * rank stage) w)
      (p : w.is_pruned ≡ b) where
    abbrev m : ℕ
    m = 2 * rank stage

    hooks-replaced :
        (objects : List Object) → All (λ c. call_place c ≡ m) (map (replaced stage) objects)
    hooks-replaced = All-map m (replaced stage) (λ o. refl)

    replaced_by-Good :
        (o : (Error ⊎ Bool) × List Object) → Good m b (replaced_by redact gv c r stage o w)
    unfolding replaced_by
    replaced_by-Good (inl err, os) =
        more-Sorted m (map (replaced stage) os) w (hooks-replaced os) s l
    replaced_by-Good (inr true, os) =
        more-Sorted m (map (replaced stage) os) w (hooks-replaced os) s l
    replaced_by-Good (inr false, os) = (
      more-Sorted m (map (replaced stage) os) w (hooks-replaced os) s l,
      more-Bounded m (map (replaced stage) os) w (hooks-replaced os) s l,
      p,
    )

    applied_by-Good : (o : Option Error) → Good m b (applied_by redact gv c r o w)
    unfolding applied_by
    applied_by-Good none = (s, l, p)
    applied_by-Good (some err) = s

    judged-Good :
        (o : Option Result) (waiting : Bool) → Good m b (judged redact gv c r stage o waiting w)
    unfolding judged
    judged-Good (some result) waiting = s
    judged-Good none true = s
    judged-Good none false = (s, l, p)

  module _ (stage : Stage) (b : Bool) (w : Walked) (s : Sorted w) (l : Bounded (2 * rank stage) w)
      (p : w.is_pruned ≡ b) where
    abbrev n : ℕ
    n = 2 * rank stage

    checked_by-Good :
        (done : List Result) (o : Error ⊎ List Result)
        → Good n b (checked_by redact gv c r stage done o w)
    unfolding checked_by with_results
    checked_by-Good done (inl err) = s
    checked_by-Good done (inr checked) =
        judged-Good stage b (with_results redact gv c r stage done checked w) s l p _ _

    pub apply_pending-Good :
        (objects : List Object) → Good n b (apply_pending redact gv c r stage objects w)
    unfolding apply_pending
    apply_pending-Good [] = (s, l, p)
    apply_pending-Good (o ∷ os) =
        let more = applied stage (o ∷ os) ∷ [] in
        applied_by-Good stage b (with_calls more w) (more-Sorted n more w (refl, tt) s l)
          (more-Bounded n more w (refl, tt) s l) p (c.apply r.policy (o ∷ os))

  module _ (g : Group) (b : Bool) where
    abbrev k : ℕ
    k = 2 * rank g.stage

    pub replace_hooks-Good :
        (w : Walked)
        → Sorted w
        → Bounded k w
        → w.is_pruned ≡ b
        → Good k b (replace_hooks redact gv c r g w)
    unfolding replace_hooks
    replace_hooks-Good w s l p = elim (Bool-cases (is_hook g.stage)) [
      | inl h ↦ rw h (replaced_by-Good g.stage b w s l p _)
      | inr h ↦ rw h (s, l, p)
    ]

    pub check_group-Good :
        (w : Walked)
        → Sorted w
        → Bounded k w
        → w.is_pruned ≡ b
        → Good k b (check_group redact gv c r g w)
    unfolding check_group
    check_group-Good w s l p = checked_by-Good g.stage b w s l p _ _

  pub prune_now-Good :
      (w : Walked) → Sorted w → Bounded 3 w → Good 3 true (prune_now redact gv c r w)
  unfolding prune_now
  prune_now-Good w s l = pruned_by-Good (prune_stale redact c r.pruning) w s l
