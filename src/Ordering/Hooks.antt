-- ===== src/Ordering/Hooks.antt =====
-- internal/ordering/ordering.go: which stage a hook annotation gives an object.
use kuvryn_sync.Prelude.{
  ℕ, String, ◌≢◌, Bool, true, false, Option, none, some, List, [], ◌∷◌, arith, or_empty, lookup,
  codes, split,
}
use kuvryn_sync.Resource.{Object}
use kuvryn_sync.Ordering.{
  Stage, ordinary, pre_sync, sync, post_sync, skip, first_stage, argo_result, argo_events,
  argo_hook_stage, helm_event, helm_events, helm_hook_stage, own_hook_stage, hook_stage_of,
  hook_stage, or_skip, hook,
}

argo_result-ne-sync : (stage : Stage) (skipped : Bool) → argo_result stage skipped ≢ sync
unfolding argo_result
argo_result-ne-sync ordinary true h = cc
argo_result-ne-sync ordinary false h = cc
argo_result-ne-sync _ _ h = cc

-- The scan of an Argo CD hook never ends in the stage `sync`.
argo_events-ne-sync :
    (stage : Stage) (skipped : Bool) (es : List (List ℕ)) → argo_events stage skipped es ≢ some sync
unfolding argo_events
argo_events-ne-sync stage skipped [] h = ground (arith, argo_result-ne-sync stage skipped)
argo_events-ne-sync stage skipped (e ∷ es) h = ground (
  arith,
  argo_events-ne-sync (first_stage stage pre_sync) skipped es,
  argo_events-ne-sync (first_stage stage post_sync) skipped es,
  argo_events-ne-sync (first_stage stage sync) skipped es,
  argo_events-ne-sync stage true es,
)

-- A stage that a deployment of a Helm hook can have.
abbrev IsHelm : Stage → Type 0
IsHelm stage = (stage ≢ ordinary) × (stage ≢ sync)

helm_event-IsHelm : (stage : Stage) (e : List ℕ) → IsHelm stage → IsHelm (helm_event stage e)
unfolding helm_event first_stage
helm_event-IsHelm stage e h = (λ p. ground arith, λ p. ground arith)

helm_events-IsHelm :
    (stage : Stage) (es : List (List ℕ)) → IsHelm stage → IsHelm (helm_events stage es)
unfolding helm_events
helm_events-IsHelm stage [] h = h
helm_events-IsHelm stage (e ∷ es) h =
    helm_events-IsHelm (helm_event stage e) es (helm_event-IsHelm stage e h)

helm_hook_stage-ne-sync : (value : String) → helm_hook_stage value ≢ sync
unfolding helm_hook_stage
helm_hook_stage-ne-sync value h =
    ground (arith, (helm_events-IsHelm skip (split b',' (codes value)) (λ p. cc, λ p. cc)).1)

hook_stage_of-ne-sync : (own argo helm : Option String) → hook_stage_of own argo helm ≢ some sync
unfolding hook_stage_of own_hook_stage argo_hook_stage
hook_stage_of-ne-sync (some value) argo helm h = ground arith
hook_stage_of-ne-sync none (some value) helm h =
    argo_events-ne-sync ordinary false (split b',' (codes value)) h
hook_stage_of-ne-sync none none helm h = ground (arith, helm_hook_stage-ne-sync (or_empty helm))

-- No object's hook has the stage `sync`: an Argo CD `Sync` hook is an ordinary object.
pub hook-ne-sync : (obj : Object) → hook obj ≢ sync
unfolding hook hook_stage or_skip
hook-ne-sync obj h = ground (
  arith,
  hook_stage_of-ne-sync (lookup "sync.kuvryn.io/hook" obj.annotations)
      (lookup "argocd.argoproj.io/hook" obj.annotations) (lookup "helm.sh/hook" obj.annotations),
)
