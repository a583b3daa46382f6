-- ===== src/Walk/Groups.antt =====
-- When a rollout goes on to the next group, and when it is done.
use kuvryn_sync.Prelude.{
  String, ◌≡◌, refl, sym, ap, ◌∙◌, ◌≢◌, ◌↔◌, ◌⊎◌, inl, inr, Bool, true, false, not, ◌&&◌, none,
  List, [], ◌∷◌, ◌++◌, arith, ◌==◌, eq_iff, ltb, if◌then◌else◌, length, All, All-map_of, All-and,
}
use mathlib.Core.Path.{subst}
use mathlib.Core.Bool.{false≢true}
use kuvryn_sync.Api.{HealthState}
use kuvryn_sync.Resource.{Object, GroupVersions}
use kuvryn_sync.Ordering.{Stage, Group}
use kuvryn_sync.Health.{Result, Summary, summary, summary_from, count_state}
use kuvryn_sync.Walk.{
  Error, Answer, absent, unreadable, present, LiveHook, Cluster, Rollout, Walked, Step, stop, next,
  and_then, prune_stale, prune_eligible, prune_failure, replace_stale_hooks, group_health, is_post,
  is_hook, first_degraded,
}
use kuvryn_sync.Walk.Visit.{
  pruned_by, prune_now, prune_first, split_of, replaced_by, replace_hooks, applied_by, left_by,
  apply_pending, judged, checked_by, check_group, visit_group, walk,
}

-- A hook of this Revision, or none.
abbrev is_current : String → Answer LiveHook → Bool
is_current revision absent = true
is_current revision (unreadable err) = false
is_current revision (present hook) = hook.revision == revision

abbrev pub IsCurrent : String → Answer LiveHook → Type 0
IsCurrent revision hook = is_current revision hook ≡ true

-- A result that a rollout does not wait for and does not fail on.
abbrev pub IsFine : Result → Type 0
IsFine result = (result.state ≢ HealthState.degraded) × (result.state ≢ HealthState.progressing)

abbrev read_results : Error ⊎ List Result → List Result
read_results (inl _) = []
read_results (inr results) = results

abbrev pub Goes : Step → Type 0
Goes (stop _ _) = ⊥
Goes (next _) = Unit

pub Goes-and_then :
    (s : Step) (f : Walked → Step) → Goes (and_then s f) ↔ (Goes s × Goes (f (left_by s)))
unfolding and_then
Goes-and_then (stop e w) f = (λ h. absurd h, λ h. absurd h.0)
Goes-and_then (next w) f = (λ h. (tt, h), λ h. h.1)

pub next_of : (s : Step) → Goes s → s ≡ next (left_by s)
next_of (stop e w) h = absurd h
next_of (next w) h = refl

pub and_then_assoc :
    (s : Step) (f g : Walked → Step)
    → and_then (and_then s f) g ≡ and_then s (λ w. and_then (f w) g)
unfolding and_then
and_then_assoc (stop e w) f g = refl
and_then_assoc (next w) f g = refl

replace_true :
    (c : Cluster) (revision : String) (hooks : List Object)
    → (replace_stale_hooks c revision true hooks).0 ≢ inr false
unfolding replace_stale_hooks
replace_true c revision [] = ground arith
replace_true c revision (hook ∷ hooks) = ground (arith, replace_true c revision hooks)

replace_iff :
    (c : Cluster) (revision : String) (hooks : List Object)
    → ((replace_stale_hooks c revision false hooks).0 ≡ inr false)
      ↔ All (λ h. IsCurrent revision (c.get_hook h)) hooks
unfolding replace_stale_hooks
replace_iff c revision [] = (λ e. tt, λ h. refl)
replace_iff c revision (hook ∷ hooks) = ground (
  arith,
  replace_iff c revision hooks,
  replace_true c revision hooks,
  λ (s : String). eq_iff s revision,
)

progressing_iff :
    (s : Summary) (results : List Result)
    → ((summary_from s results).progressing ≡ 0)
      ↔ ((s.progressing ≡ 0) × All (λ x. x.state ≢ HealthState.progressing) results)
unfolding summary_from count_state
progressing_iff s [] = (λ e. (e, tt), λ h. h.0)
progressing_iff s (x ∷ results) = ground (arith, progressing_iff (count_state x.state s) results)

degraded_iff :
    (results : List Result)
    → (first_degraded results ≡ none) ↔ All (λ x. x.state ≢ HealthState.degraded) results
unfolding first_degraded
degraded_iff [] = (λ e. tt, λ h. refl)
degraded_iff (x ∷ results) = ground (arith, degraded_iff results)

IsFine-iff :
    (results : List Result)
    → ((first_degraded results ≡ none) × (ltb 0 (summary results).progressing ≡ false))
      ↔ All IsFine results
unfolding summary
IsFine-iff results =
    let start : Summary = record {
      healthy = 0;
      progressing = 0;
      degraded = 0;
      unknown = 0;
      total = length results;
    } in
    let none_progress = progressing_iff start results in
    let none_degraded = degraded_iff results in
    (
      λ h.
          All-and (λ x. x.state ≢ HealthState.degraded) (λ x. x.state ≢ HealthState.progressing)
            IsFine (λ x p q. (p, q)) results (none_degraded.0 h.0)
            (none_progress.0 (ground (arith, h.1))).1,
      λ h. (
        none_degraded.1 (All-map_of IsFine _ (λ x p. p.0) results h),
        ground (arith, none_progress.1 (refl, All-map_of IsFine _ (λ x p. p.1) results h)),
      ),
    )

module _ (redact : String → String) (gv : GroupVersions) (c : Cluster) (r : Rollout) where
  -- What is to be pruned may be, and can be deleted.
  abbrev pub Prunes : Type 0
  Prunes = (r.pruning.rejected ≡ []) × All (λ o. c.delete_stale o ≡ none) r.pruning.eligible

  prune_eligible_iff :
      (objects : List Object)
      → ((prune_eligible redact c objects).0 ≡ none) ↔ All (λ o. c.delete_stale o ≡ none) objects
  unfolding prune_eligible
  prune_eligible_iff [] = (λ e. tt, λ h. refl)
  prune_eligible_iff (o ∷ os) = ground (arith, prune_eligible_iff os)

  pub prune_now-Goes : (w : Walked) → Goes (prune_now redact gv c r w) ↔ Prunes
  unfolding prune_now prune_stale prune_failure pruned_by
  prune_now-Goes w = ground (arith, prune_eligible_iff r.pruning.eligible)

  pub walk-append :
      (before after : List Group) (w : Walked)
      → walk redact gv c r (before ++ after) w
        ≡ and_then (walk redact gv c r before w) (walk redact gv c r after)
  unfolding walk and_then
  walk-append [] after w = refl
  walk-append (g ∷ before) after w =
      ap (and_then (visit_group redact gv c r g w)) (λ i v. walk-append before after v i)
      ∙ sym (
          and_then_assoc (visit_group redact gv c r g w) (walk redact gv c r before)
            (walk redact gv c r after))

  -- The group holds nothing up: no hook that is to run is left from another Revision, what is to be
  -- applied is accepted, and the health of all of it can be read and is fine.
  pub record Passes (g : Group) : Type 0 where
    pub replaced :
        is_hook g.stage ≡ true
        → All (λ h. IsCurrent r.revision (c.get_hook h)) (split_of redact gv c r g).pending
    pub accepted :
        ((split_of redact gv c r g).pending ≡ [])
        ⊎ (c.apply r.policy (split_of redact gv c r g).pending ≡ none)
    pub checked : List Result
    pub is_checked :
        group_health gv c
          ((split_of redact gv c r g).watched ++ (split_of redact gv c r g).pending)
          (is_hook g.stage)
        ≡ inr checked
    pub fine : All IsFine ((split_of redact gv c r g).done ++ checked)

  replaced_by-Goes :
      (stage : Stage) (o : (Error ⊎ Bool) × List Object) (w : Walked)
      → Goes (replaced_by redact gv c r stage o w) ↔ (o.0 ≡ inr false)
  unfolding replaced_by
  replaced_by-Goes stage (o, objects) w = ground arith

  gated :
      (b : Bool) (s : Step) (w : Walked) (P : Type 0)
      → Goes s ↔ P
      → Goes (if b then s else next w) ↔ (b ≡ true → P)
  gated true s w P h = (λ k _. h.0 k, λ k. h.1 (k refl))
  gated false s w P h = (λ _ e. absurd (false≢true e), λ _. tt)

  replace_hooks-Goes :
      (g : Group) (w : Walked)
      → Goes (replace_hooks redact gv c r g w) ↔ (
          is_hook g.stage ≡ true
          → All (λ h. IsCurrent r.revision (c.get_hook h)) (split_of redact gv c r g).pending)
  unfolding replace_hooks
  replace_hooks-Goes g w =
      let hooks = (split_of redact gv c r g).pending in
      let outcome = replace_stale_hooks c r.revision false hooks in
      let by_outcome = replaced_by-Goes g.stage outcome w in
      let current = replace_iff c r.revision hooks in
      gated (is_hook g.stage) (replaced_by redact gv c r g.stage outcome w) w
        (All (λ h. IsCurrent r.revision (c.get_hook h)) hooks)
        (λ k. current.0 (by_outcome.0 k), λ k. by_outcome.1 (current.1 k))

  apply_pending-Goes :
      (stage : Stage) (objects : List Object) (w : Walked)
      → Goes (apply_pending redact gv c r stage objects w)
        ↔ ((objects ≡ []) ⊎ (c.apply r.policy objects ≡ none))
  unfolding apply_pending applied_by
  apply_pending-Goes stage objects w = ground arith

  checked_by-Goes :
      (stage : Stage) (done : List Result) (o : Error ⊎ List Result) (w : Walked)
      → Goes (checked_by redact gv c r stage done o w)
        ↔ ((checked : List Result) × (o ≡ inr checked) × All IsFine (done ++ checked))
  unfolding checked_by judged
  checked_by-Goes stage done (inl err) w = (λ h. absurd h, λ (x, e, f). ground (arith, e))
  checked_by-Goes stage done (inr checked) w =
      let fine = IsFine-iff (done ++ checked) in
      (
        λ h. (checked, refl, fine.0 (ground (arith, h))),
        λ (x, e, f).
            let k = fine.1 (subst (λ z. All IsFine (done ++ z)) (sym (ap read_results e)) f) in
            ground (arith, k),
      )

  -- Whether the walk goes on behind a group: what is stale is pruned before the first group of
  -- post-sync hooks.
  pub visit_group-Goes :
      (g : Group) (w : Walked)
      → Goes (visit_group redact gv c r g w)
        ↔ ((is_post g.stage && not w.is_pruned ≡ true → Prunes) × Passes g)
  unfolding visit_group prune_first check_group
  visit_group-Goes g w = (
    λ h.
        let (a, h1) = (Goes-and_then (prune_first redact gv c r g w) _).0 h in
        let (b, h2) = (Goes-and_then (replace_hooks redact gv c r g _) _).0 h1 in
        let (d, h3) = (Goes-and_then (apply_pending redact gv c r g.stage _ _) _).0 h2 in
        let (rs, e, f) = (checked_by-Goes g.stage _ _ _).0 h3 in
        (
          (gated (is_post g.stage && not w.is_pruned) (prune_now redact gv c r w) w Prunes
                (prune_now-Goes w)).0
              a,
          record {
            replaced = (replace_hooks-Goes g _).0 b;
            accepted = (apply_pending-Goes g.stage _ _).0 d;
            checked = rs;
            is_checked = e;
            fine = f;
          },
        ),
    λ (p, passes). (Goes-and_then (prune_first redact gv c r g w) _).1 (
      (gated (is_post g.stage && not w.is_pruned) (prune_now redact gv c r w) w Prunes
            (prune_now-Goes w)).1
          p,
      (Goes-and_then (replace_hooks redact gv c r g _) _).1 (
        (replace_hooks-Goes g _).1 passes.replaced,
        (Goes-and_then (apply_pending redact gv c r g.stage _ _) _).1 (
          (apply_pending-Goes g.stage _ _).1 passes.accepted,
          (checked_by-Goes g.stage _ _ _).1 (passes.checked, passes.is_checked, passes.fine),
        ),
      ),
    ),
  )
