-- ===== src/Walk/Calls.antt =====
-- The order of the calls of a rollout that change the cluster.
use kuvryn_sync.Prelude.{
  ℕ, ◌*◌, ◌≤◌, String, ◌≡◌, ◌∙◌, inl, inr, Bool, true, false, not, ◌&&◌, ◌||◌, List, [], ◌∷◌, arith,
  if◌then◌else◌, Bool-cases, All, Each, All-map_of, All-and, All-of_forall,
}
use mathlib.Core.Bool.{false≢true}
use kuvryn_sync.Api.{HookStatus}
use kuvryn_sync.Resource.{Object, GroupVersions}
use kuvryn_sync.Ordering.{Stage, Group, groups}
use kuvryn_sync.Ordering.Stages.{rank, Before, groups-Before, groups-rank}
use kuvryn_sync.Walk.{Cluster, Rollout, Walked, Step, stop, next, and_then, is_post}
use kuvryn_sync.Walk.Visit.{
  prune_now, prune_first, at_start, left_by, visit_group, walk, prune_last, roll_out,
}
use kuvryn_sync.Walk.Steps.{
  call_place, Sorted, Bounded, Good, Good-and_then, replace_hooks-Good, check_group-Good,
  apply_pending-Good, prune_now-Good,
}

module _ (redact : String → String) (gv : GroupVersions) (c : Cluster) (r : Rollout) where
  -- What a walk needs before a group.
  abbrev Ready : Walked → Group → Type 0
  Ready w g =
      Bounded (if is_post g.stage && not w.is_pruned then 3 else 2 * rank g.stage) w
      × (w.is_pruned ≡ true → is_post g.stage ≡ true)

  post-rank : (stage : Stage) → is_post stage ≡ true → rank stage ≡ 2
  post-rank stage h = ground (arith, h)

  rank-post : (stage : Stage) → rank stage ≡ 2 → is_post stage ≡ true
  rank-post stage h = ground (arith, h)

  rank-unpost : (stage : Stage) → rank stage ≤ 2 → is_post stage ≡ false → rank stage ≤ 1
  rank-unpost stage l h = ground (arith, h, l)

  Bounded-le : (m n : ℕ) (w : Walked) → m ≤ n → Bounded m w → Bounded n w
  Bounded-le m n w l =
      All-map_of (λ a. call_place a ≤ m) (λ a. call_place a ≤ n) (λ a k. omega (arith, k, l))
        w.calls

  Good-le : (m n : ℕ) (b d : Bool) (s : Step) → m ≤ n → b ≡ d → Good m b s → Good n d s
  Good-le m n b d (stop e w) l e' h = h
  Good-le m n b d (next w) l e' h = (h.0, Bounded-le m n w l h.1, h.2 ∙ e')

  prune_first-Good :
      (g : Group) (w : Walked)
      → Sorted w
      → Ready w g
      → Good (2 * rank g.stage) (w.is_pruned || is_post g.stage) (prune_first redact gv c r g w)
  unfolding prune_first
  prune_first-Good g w s ready = elim (Bool-cases (is_post g.stage && not w.is_pruned)) [
    | inl h ↦
        let post : is_post g.stage ≡ true = ground (arith, h) in
        rw h (
          Good-le 3 (2 * rank g.stage) true (w.is_pruned || is_post g.stage)
            (prune_now redact gv c r w) (omega (arith, post-rank g.stage post))
            (ground (arith, post)) (prune_now-Good redact gv c r w s (rw h at ready.0)))
    | inr h ↦ rw h (s, rw h at ready.0, ground (arith, h, ready.1))
  ]

  visit_group-Good :
      (g : Group) (w : Walked)
      → Sorted w
      → Ready w g
      → Good (2 * rank g.stage) (w.is_pruned || is_post g.stage) (visit_group redact gv c r g w)
  unfolding visit_group
  visit_group-Good g w s ready =
      let k = 2 * rank g.stage in
      let b = w.is_pruned || is_post g.stage in
      Good-and_then k k b b _ _ (prune_first-Good g w s ready) (λ w1 s1 l1 p1.
        Good-and_then k k b b _ _ (replace_hooks-Good redact gv c r g b w1 s1 l1 p1) (λ w2 s2 l2 p2.
          Good-and_then k k b b _ _ (apply_pending-Good redact gv c r g.stage b w2 s2 l2 p2 _)
            (check_group-Good redact gv c r g b)))

  abbrev Finished : Step → Type 0
  Finished (stop e w) = Sorted w
  Finished (next w) = Sorted w × (w.is_pruned ≡ false → Bounded 3 w)

  Finished-and_then :
      (m : ℕ) (b : Bool) (s : Step) (f : Walked → Step)
      → Good m b s
      → ((w : Walked) → Sorted w → Bounded m w → w.is_pruned ≡ b → Finished (f w))
      → Finished (and_then s f)
  unfolding and_then
  Finished-and_then m b (stop e w) f h k = h
  Finished-and_then m b (next w) f h k = k w h.0 h.1 h.2

  -- Behind a group, a later one is ready.
  Ready-Before :
      (g h : Group) (b : Bool) (w : Walked)
      → Before g h
      → rank g.stage ≤ 2
      → rank h.stage ≤ 2
      → (b ≡ true → is_post g.stage ≡ true)
      → Bounded (2 * rank g.stage) w
      → w.is_pruned ≡ b || is_post g.stage
      → Ready w h
  Ready-Before g h b w before lg lh post l p = (
    elim (Bool-cases (is_post h.stage && not w.is_pruned)) [
      | inl q ↦
          rw q (Bounded-le (2 * rank g.stage) 3 w (ground (arith, rank-unpost g.stage lg, q, p)) l)
      | inr q ↦ rw q (Bounded-le (2 * rank g.stage) (2 * rank h.stage) w (ground (arith, before)) l)
    ],
    λ q. ground (arith, rank-post h.stage, post-rank g.stage, before, post, p, q, lh),
  )

  walk-Finished :
      (gs : List Group) (w : Walked)
      → Each Before gs
      → All (λ g. rank g.stage ≤ 2) gs
      → All (Ready w) gs
      → Sorted w
      → (w.is_pruned ≡ false → Bounded 3 w)
      → Finished (walk redact gv c r gs w)
  unfolding walk
  walk-Finished [] w before lows ready s l = (s, l)
  walk-Finished (g ∷ gs) w before lows ready s l =
      Finished-and_then (2 * rank g.stage) (w.is_pruned || is_post g.stage)
        (visit_group redact gv c r g w) (walk redact gv c r gs) (visit_group-Good g w s ready.0)
        (λ w' s' l' p.
          walk-Finished gs w' before.1 lows.1
            (All-and (Before g) (λ h. rank h.stage ≤ 2) (Ready w')
              (λ h k m. Ready-Before g h w.is_pruned w' k lows.0 m ready.0.1 l' p) gs before.0
              lows.1)
            s'
            (λ u.
              Bounded-le (2 * rank g.stage) 3 w' (ground (arith, rank-unpost g.stage lows.0, u, p))
                l'))

  Sorted-of : (s : Step) → Finished s → Sorted (left_by s)
  Sorted-of (stop e w) h = h
  Sorted-of (next w) h = h.0

  Sorted-prune_now :
      (w : Walked) → Sorted w → Bounded 3 w → Sorted (left_by (prune_now redact gv c r w))
  Sorted-prune_now w s l = by_step (prune_now redact gv c r w) (prune_now-Good redact gv c r w s l)
    where
      by_step : (t : Step) → Good 3 true t → Sorted (left_by t)
      by_step (stop e w) h = h
      by_step (next w) h = h.0

  prune_last-Sorted :
      (w : Walked) → Finished (next w) → Sorted (left_by (prune_last redact gv c r w))
  unfolding prune_last
  prune_last-Sorted w h = elim (Bool-cases w.is_pruned) [
    | inl p ↦ rw p h.0
    | inr p ↦ simp p (Sorted-prune_now w h.0 (h.1 p))
  ]

  ended_Sorted : (s : Step) → Finished s → Sorted (left_by (and_then s (prune_last redact gv c r)))
  unfolding and_then
  ended_Sorted (stop e w) h = h
  ended_Sorted (next w) h = prune_last-Sorted w h

  -- Whatever the cluster answers, a rollout makes its calls in this order: the pre-sync hooks, the
  -- objects that are synced, the deletes of what is pruned, the post-sync hooks.
  pub roll_out-calls :
      (desired : List Object) (hooks : List HookStatus)
      → Each
          (λ a b. call_place a ≤ call_place b)
          (left_by (roll_out redact gv c r desired (at_start hooks))).calls
  unfolding roll_out
  roll_out-calls desired hooks =
      ended_Sorted (walk redact gv c r (groups desired) (at_start hooks)) (
        walk-Finished (groups desired) (at_start hooks) (groups-Before desired)
          (groups-rank desired)
          (All-of_forall (Ready (at_start hooks)) (λ g. (tt, λ e. absurd (false≢true e)))
            (groups desired))
          tt (λ _. tt))
