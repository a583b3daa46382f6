-- ===== src/Walk/Visit.antt =====
-- internal/controller/application_controller.go: the loop of `applyAndObserve` over the groups.
use kuvryn_sync.Prelude.{
  String, str_append, ◌⊎◌, inl, inr, Bool, true, false, not, ◌&&◌, Option, none, some, List, [],
  ◌∷◌, ◌++◌, map, ltb, if◌then◌else◌,
}
use kuvryn_sync.Api.{HookStatus, Failure}
use kuvryn_sync.Resource.{Object, GroupVersions}
use kuvryn_sync.Ordering.{Stage, Group, groups}
use kuvryn_sync.Rollout.{HookSplit, split_hooks, record_hooks}
use kuvryn_sync.Health.{Result, summary}
use kuvryn_sync.Walk.{
  Error, Cluster, replaced, applied, pruned, Rollout, Walked, failed, waits, Step, stop, next,
  and_then, with_calls, safe_message, access_failure, prune_stale, replace_stale_hooks,
  group_health, is_post, is_hook, stage_text, first_degraded,
}

-- Where every walk begins, with the hooks that the Revision has recorded.
abbrev pub at_start : List HookStatus → Walked
at_start hooks = record { is_pruned = false; calls = []; hooks = hooks; results = [] }

-- What a walk leaves behind.
abbrev pub left_by : Step → Walked
left_by (stop _ w) = w
left_by (next w) = w

module _ (redact : String → String) (gv : GroupVersions) (c : Cluster) (r : Rollout) where
  unfoldable pub pruned_by : Option Failure × List Object → Walked → Step
  pruned_by (none, objects) w =
      next (record w { is_pruned = true; calls = w.calls ++ map pruned objects })
  pruned_by (some failure, objects) w = stop (failed failure) (with_calls (map pruned objects) w)

  unfoldable pub prune_now : Walked → Step
  unfolding pruned_by
  prune_now w = pruned_by (prune_stale redact c r.pruning) w

  unfoldable pub prune_first : Group → Walked → Step
  unfolding prune_now
  prune_first g w = if is_post g.stage && not w.is_pruned then prune_now w else next w

  abbrev pub split_of : Group → HookSplit
  split_of g =
      if is_hook g.stage
      then split_hooks gv r.hooks g.objects
      else record { pending = g.objects; watched = []; done = [] }

  unfoldable pub replaced_by : Stage → (Error ⊎ Bool) × List Object → Walked → Step
  replaced_by stage (inl err, objects) w =
      stop
        (failed (access_failure redact err "HookFailed" "Previous hooks could not be removed" true))
        (with_calls (map (replaced stage) objects) w)
  replaced_by stage (inr true, objects) w =
      stop (waits 2) (with_calls (map (replaced stage) objects) w)
  replaced_by stage (inr false, objects) w = next (with_calls (map (replaced stage) objects) w)

  unfoldable pub replace_hooks : Group → Walked → Step
  unfolding replaced_by
  replace_hooks g w =
      if is_hook g.stage
      then replaced_by g.stage (replace_stale_hooks c r.revision false (split_of g).pending) w
      else next w

  unfoldable pub applied_by : Option Error → Walked → Step
  applied_by none w = next w
  applied_by (some err) w =
      stop (failed (access_failure redact err "ApplyFailure" "Desired state apply failed" true)) w

  unfoldable pub apply_pending : Stage → List Object → Walked → Step
  unfolding applied_by
  apply_pending stage [] w = next w
  apply_pending stage (obj ∷ objects) w =
      applied_by (c.apply r.policy (obj ∷ objects))
        (with_calls (applied stage (obj ∷ objects) ∷ []) w)

  degraded_failure : Stage → Result → Failure
  degraded_failure stage result =
      if is_hook stage
      then record {
        reason = "HookFailed";
        message =
            safe_message redact
              (str_append (stage_text stage) (
                str_append " hook " (
                  str_append result.resource.kind (
                    str_append "/" (
                      str_append result.resource.name
                        (str_append " failed: " (c.message result)))))))
              "A sync hook failed";
        retryable = true;
      }
      else record {
        reason = "HealthFailure";
        message = "One or more resources are degraded";
        retryable = true;
      }

  -- By the first degraded result and the number of those that progress.
  unfoldable pub judged : Stage → Option Result → Bool → Walked → Step
  unfolding degraded_failure
  judged stage (some result) waiting w = stop (failed (degraded_failure stage result)) w
  judged stage none true w = stop (waits 10) w
  judged stage none false w = next w

  unfoldable pub with_results : Stage → List Result → List Result → Walked → Walked
  with_results stage done checked w = record w {
    hooks = if is_hook stage then record_hooks gv (stage_text stage) checked w.hooks else w.hooks;
    results = w.results ++ (done ++ checked);
  }

  unfoldable pub checked_by : Stage → List Result → Error ⊎ List Result → Walked → Step
  unfolding judged with_results
  checked_by stage done (inl err) w =
      stop
        (failed
          (access_failure redact err "HealthFailure" "Applied resources could not be read" true))
        w
  checked_by stage done (inr checked) w =
      judged stage (first_degraded (done ++ checked))
        (ltb 0 (summary (done ++ checked)).progressing) (with_results stage done checked w)

  unfoldable pub check_group : Group → Walked → Step
  unfolding checked_by
  check_group g w =
      let split = split_of g in
      checked_by g.stage split.done
        (group_health gv c (split.watched ++ split.pending) (is_hook g.stage)) w

  -- The body of the loop.
  unfoldable pub visit_group : Group → Walked → Step
  unfolding prune_first replace_hooks apply_pending check_group
  visit_group g w = and_then (prune_first g w) (λ w1.
      and_then (replace_hooks g w1)
        (λ w2. and_then (apply_pending g.stage (split_of g).pending w2) (check_group g)))

  unfoldable pub walk : List Group → Walked → Step
  unfolding visit_group
  walk [] w = next w
  walk (g ∷ gs) w = and_then (visit_group g w) (walk gs)

  -- What is not pruned before a group of hooks is pruned at the end.
  unfoldable pub prune_last : Walked → Step
  unfolding prune_now
  prune_last w = if w.is_pruned then next w else prune_now w

  unfoldable pub roll_out : List Object → Walked → Step
  unfolding walk prune_last
  roll_out desired w = and_then (walk (groups desired) w) prune_last
