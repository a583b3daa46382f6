-- ===== src/Ordering.antt =====
-- internal/ordering/ordering.go: the apply order of objects, the stage of a hook, and the groups
-- that a rollout walks. The operations are proved in the child modules.
pub mod Order
pub mod Hooks
pub mod Waves
pub mod Stages
pub mod Tests
use kuvryn_sync.Prelude.{
  ℕ, zero, suc, ◌+◌, ◌-◌, ◌*◌, ◌^◌, ◌≤◌, ◌<◌, min, String, str_append, ◌≡◌, refl, sym, ap, ◌∙◌, ◌≢◌,
  ◌↔◌, ◌⊎◌, inl, inr, Bool, true, false, not, ◌&&◌, ◌||◌, Option, none, some, List, [], ◌∷◌, ◌++◌,
  map, Perm, arith, ◌==◌, eq_iff, eq_refl, ltb, leb, eqb, if◌then◌else◌, is_none, ltb→lt, lt→ltb,
  leb→le, eqb→eq, tests, Bool-cases, Option-cases, length, take, drop, select, any, all,
  length-append, take-append-drop, length-take, length-drop, All, Any, Each, text_lt, text_lt-asym,
  text_lt_trans, text_lt-antisym, IsOrder, sort_by, IsSorted, sort_by-perm, All-sort_by,
  sort_by-IsSorted, or_empty, lookup, insert, delete, lookup-insert, lookup-delete, ℤ, pos, negsuc,
  pos_part, neg_part, ◌<ℤ◌, ltb_ℤ, eqb_ℤ, eqb_ℤ→eq, ltb_ℤ-antisym, atoi, codes, codes_eq,
  trim_space, trim, to_lower, split, gather, All-select, All-of_select, All-of_sort_by, All-left,
  All-right, All-reverse, Each-reverse, gather-append, All-append, All-map_of, All-and,
  All-of_forall, Each-append, Each-and, gather-sort_by-perm, Each-sort_by,
}
use mathlib.Core.List.{reverse}
use kuvryn_sync.Resource.{Object}

abbrev one_of : List String → String → Bool
one_of names s = any (λ n. s == n) names

-- The first kinds that a new object may depend on have the lowest layer.
unfoldable pub layer : Object → ℕ
layer obj =
    if one_of ("Namespace" ∷ "CustomResourceDefinition" ∷ []) obj.kind
    then 0
    else if one_of
        ("ServiceAccount" ∷ "Role" ∷ "ClusterRole" ∷ "RoleBinding" ∷ "ClusterRoleBinding"
          ∷ "ConfigMap" ∷ "Secret" ∷ "PersistentVolumeClaim" ∷ [])
        obj.kind
    then 10
    else if obj.kind == "Service"
    then 20
    else if one_of
        ("Deployment" ∷ "StatefulSet" ∷ "DaemonSet" ∷ "ReplicaSet" ∷ "Job" ∷ "CronJob" ∷ [])
        obj.kind
    then 30
    else if one_of ("Ingress" ∷ "HTTPRoute" ∷ "GRPCRoute" ∷ []) obj.kind
    then 40
    else 50

unfoldable pub identity : Object → String
identity obj = str_append obj.api_version (
    str_append "/"
      (str_append obj.kind (str_append "/" (str_append obj.namespace (str_append "/" obj.name)))))

-- The `less` function of the sort in `Apply`.
unfoldable pub apply_less : Object → Object → Bool
apply_less a b =
    if not (eqb (layer a) (layer b))
    then ltb (layer a) (layer b)
    else text_lt (identity a) (identity b)

unfoldable pub apply_order : List Object → List Object
apply_order objects = sort_by apply_less objects

unfoldable pub prune_order : List Object → List Object
unfolding apply_order
prune_order objects = reverse (apply_order objects)

-- `ordinary` is the empty string of the source.
pub data Stage : Type 0 where
  ordinary pre_sync sync post_sync skip : Stage

abbrev pub stage_eq : Stage → Stage → Bool
stage_eq ordinary ordinary = true
stage_eq pre_sync pre_sync = true
stage_eq sync sync = true
stage_eq post_sync post_sync = true
stage_eq skip skip = true
stage_eq _ _ = false

unfoldable pub first_stage : Stage → Stage → Stage
first_stage ordinary next = next
first_stage skip next = next
first_stage current next = current

-- What stands behind the loop of `argoHookStage`.
argo_result : Stage → Bool → Stage
argo_result ordinary true = skip
argo_result ordinary false = ordinary
argo_result sync skipped = ordinary
argo_result stage skipped = stage

-- The loop of `argoHookStage` from its variables; `none` is the error of an unknown event.
unfoldable pub argo_events : Stage → Bool → List (List ℕ) → Option Stage
unfolding argo_result first_stage
argo_events stage skipped [] = some (argo_result stage skipped)
argo_events stage skipped (e ∷ es) =
    let event = trim_space e in
    let on_pre = argo_events (first_stage stage pre_sync) skipped es in
    let on_post = argo_events (first_stage stage post_sync) skipped es in
    let on_sync = argo_events (first_stage stage sync) skipped es in
    let on_never = argo_events stage true es in
    if codes_eq event (codes "PreSync")
    then on_pre
    else if codes_eq event (codes "PostSync")
    then on_post
    else if codes_eq event (codes "Sync")
    then on_sync
    else if codes_eq event (codes "Skip")
    then some skip
    else if codes_eq event (codes "SyncFail")
        || codes_eq event (codes "PreDelete")
        || codes_eq event (codes "PostDelete")
    then on_never
    else none

unfoldable pub argo_hook_stage : String → Option Stage
unfolding argo_events
argo_hook_stage value = argo_events ordinary false (split b',' (codes value))

-- What one event of a Helm hook makes of the stage found so far.
helm_event : Stage → List ℕ → Stage
unfolding first_stage
helm_event stage e =
    let event = to_lower (trim_space e) in
    if codes_eq event (codes "pre-install") || codes_eq event (codes "pre-upgrade")
    then first_stage stage pre_sync
    else if codes_eq event (codes "post-install") || codes_eq event (codes "post-upgrade")
    then first_stage stage post_sync
    else stage

helm_events : Stage → List (List ℕ) → Stage
unfolding helm_event
helm_events stage [] = stage
helm_events stage (e ∷ es) = helm_events (helm_event stage e) es

unfoldable pub helm_hook_stage : String → Stage
unfolding helm_events
helm_hook_stage value =
    if codes_eq (trim_space (codes value)) []
    then ordinary
    else helm_events skip (split b',' (codes value))

own_hook_stage : List ℕ → Option Stage
own_hook_stage value =
    if codes_eq value (codes "pre-sync")
    then some pre_sync
    else if codes_eq value (codes "post-sync")
    then some post_sync
    else if codes_eq value (codes "skip")
    then some skip
    else none

hook_stage_of : Option String → Option String → Option String → Option Stage
unfolding own_hook_stage argo_hook_stage helm_hook_stage
hook_stage_of (some value) argo helm = own_hook_stage (to_lower (trim_space (codes value)))
hook_stage_of none (some value) helm = argo_hook_stage value
hook_stage_of none none helm = some (helm_hook_stage (or_empty helm))

-- `none` is the error of an unknown hook value.
unfoldable pub hook_stage : List (String × String) → Option Stage
unfolding hook_stage_of
hook_stage annotations =
    hook_stage_of (lookup "sync.kuvryn.io/hook" annotations)
      (lookup "argocd.argoproj.io/hook" annotations) (lookup "helm.sh/hook" annotations)

or_skip : Option Stage → Stage
or_skip none = skip
or_skip (some stage) = stage

unfoldable pub hook : Object → Stage
unfolding or_skip
hook obj = or_skip (hook_stage obj.annotations)

-- `true` is the nil error.
unfoldable pub validate_hooks : List Object → Bool
validate_hooks [] = true
validate_hooks (obj ∷ objects) = elim (hook_stage obj.annotations) [
  | none ↦ false
  | some stage ↦ validate_hooks objects
]

parsed_wave : Option String → Option ℤ
parsed_wave none = none
parsed_wave (some value) = atoi (trim_space (codes value))

first_wave : Option ℤ → Option ℤ → ℤ
first_wave (some wave) other = wave
first_wave none (some wave) = wave
first_wave none none = pos 0

-- The keys are tried in order, and a value that is no number counts as unset.
unfoldable pub wave : Object → ℤ
unfolding parsed_wave first_wave
wave obj =
    first_wave (parsed_wave (lookup "sync.kuvryn.io/sync-wave" obj.annotations))
      (parsed_wave (lookup "argocd.argoproj.io/sync-wave" obj.annotations))

pub record Group : Type 0 where
  pub stage : Stage
  pub number : ℤ
  pub objects : List Object

-- The variables of the loop in `Groups`; `waves` is a map whose keys are distinct.
pub record Split : Type 0 where
  pub pre : List Object
  pub post : List Object
  pub waves : List (ℤ × List Object)

-- `waves[w] = append(waves[w], obj)`
unfoldable pub append_at : ℤ → Object → List (ℤ × List Object) → List (ℤ × List Object)
append_at w obj [] = (w, obj ∷ []) ∷ []
append_at w obj ((v, objects) ∷ waves) =
    if eqb_ℤ v w then (v, objects ++ obj ∷ []) ∷ waves else (v, objects) ∷ append_at w obj waves

place : Stage → Object → Split → Split
place pre_sync obj s = record s { pre = s.pre ++ obj ∷ [] }
place post_sync obj s = record s { post = s.post ++ obj ∷ [] }
place skip obj s = s
place _ obj s = record s { waves = append_at (wave obj) obj s.waves }

unfoldable pub collect : Split → List Object → Split
unfolding place
collect s [] = s
collect s (obj ∷ objects) = collect (place (hook obj) obj s) objects

-- A group for a hook stage, if there is an object in it.
hook_group : Stage → List Object → List Group
hook_group stage [] = []
hook_group stage (obj ∷ objects) =
    record { stage = stage; number = pos 0; objects = apply_order (obj ∷ objects) } ∷ []

wave_group : ℤ × List Object → Group
wave_group w = record { stage = sync; number = w.0; objects = apply_order w.1 }

-- The entries of the map in ascending order of their keys.
abbrev sorted_waves : List (ℤ × List Object) → List (ℤ × List Object)
sorted_waves waves = sort_by (λ v w. ltb_ℤ v.0 w.0) waves

unfoldable pub groups_of : Split → List Group
unfolding hook_group wave_group
groups_of s =
    hook_group pre_sync s.pre
    ++ map wave_group (sorted_waves s.waves)
    ++ hook_group post_sync s.post

abbrev pub empty_split : Split
empty_split = record { pre = []; post = []; waves = [] }

unfoldable pub groups : List Object → List Group
unfolding groups_of collect
groups objects = groups_of (collect empty_split objects)
