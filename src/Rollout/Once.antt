-- ===== src/Rollout/Once.antt =====
-- internal/controller/application_rollout.go: a hook that was applied is not applied again, unless
-- it failed.
use kuvryn_sync.Prelude.{
  String, ◌≡◌, refl, sym, ap, ◌∙◌, inl, inr, Bool, true, false, Option, none, some, List, [], ◌∷◌,
  arith, if◌then◌else◌, Bool-cases, All, Each, All-map_of,
}
use kuvryn_sync.Resource.{GroupVersions}
use kuvryn_sync.Api.{HealthState, ResourceRef, ref_eq, ref_eq_iff, HookStatus}
use kuvryn_sync.Health.{Result}
use kuvryn_sync.Rollout.{resource_ref, hook_state, put_hook, record_hooks}

abbrev HasNone : ResourceRef → List HookStatus → Type 0
HasNone ref hooks = All (λ h. ref_eq h.resource ref ≡ false) hooks

-- No two statuses are of one reference.
abbrev pub IsDistinct : List HookStatus → Type 0
IsDistinct hooks = Each (λ h k. ref_eq k.resource h.resource ≡ false) hooks

hook_state-none :
    (ref : ResourceRef) (hooks : List HookStatus) → HasNone ref hooks → hook_state hooks ref ≡ none
unfolding hook_state
hook_state-none ref [] n = refl
hook_state-none ref (h ∷ hooks) n = rw (hook_state-none ref hooks n.1, n.0) refl

put_hook-HasNone :
    (status : HookStatus) (ref : ResourceRef) (hooks : List HookStatus)
    → ref_eq status.resource ref ≡ false
    → HasNone ref hooks
    → HasNone ref (put_hook status hooks)
unfolding put_hook
put_hook-HasNone status ref [] e n = (e, tt)
put_hook-HasNone status ref (h ∷ hooks) e n =
    elim (Bool-cases (ref_eq h.resource status.resource)) [
      | inl t ↦ rw t (e, n.1)
      | inr f ↦ rw f (n.0, put_hook-HasNone status ref hooks e n.1)
    ]

ref_eq-right : (a b c : ResourceRef) → ref_eq a b ≡ true → ref_eq c a ≡ ref_eq c b
ref_eq-right a b c e = ap (ref_eq c) ((ref_eq_iff a b).0 e)

ref_eq-sym : (a b : ResourceRef) → ref_eq a b ≡ false → ref_eq b a ≡ false
ref_eq-sym a b e = ground (arith, ref_eq_iff a b, ref_eq_iff b a)

put_hook-IsDistinct :
    (status : HookStatus) (hooks : List HookStatus)
    → IsDistinct hooks
    → IsDistinct (put_hook status hooks)
unfolding put_hook
put_hook-IsDistinct status [] d = (tt, tt)
put_hook-IsDistinct status (h ∷ hooks) d = elim (Bool-cases (ref_eq h.resource status.resource)) [
  | inl t ↦ rw t (
    All-map_of _ _ (λ k n. sym (ref_eq-right h.resource status.resource k.resource t) ∙ n) hooks
        d.0,
    d.1,
  )
  | inr f ↦ rw f (
    put_hook-HasNone status h.resource hooks (ref_eq-sym h.resource status.resource f) d.0,
    put_hook-IsDistinct status hooks d.1,
  )
]

-- The recorded statuses stay those of distinct hooks.
pub record_hooks-IsDistinct :
    (gv : GroupVersions) (stage : String) (results : List Result) (hooks : List HookStatus)
    → IsDistinct hooks
    → IsDistinct (record_hooks gv stage results hooks)
unfolding record_hooks
record_hooks-IsDistinct gv stage [] hooks d = d
record_hooks-IsDistinct gv stage (r ∷ results) hooks d =
    record_hooks-IsDistinct gv stage results _ (put_hook-IsDistinct _ hooks d)

behind :
    (h : HookStatus) (ref : ResourceRef) (hooks : List HookStatus)
    → HasNone h.resource hooks
    → ref_eq h.resource ref ≡ true
    → hook_state hooks ref ≡ none
behind h ref hooks n t =
    hook_state-none ref hooks
      (All-map_of _ _ (λ k e. sym (ref_eq-right h.resource ref k.resource t) ∙ e) hooks n)

ref_eq-left : (a b c : ResourceRef) → ref_eq a b ≡ true → ref_eq a c ≡ ref_eq b c
ref_eq-left a b c e = ap (λ x. ref_eq x c) ((ref_eq_iff a b).0 e)

-- One step of `hook_state`.
abbrev seen : Bool → HealthState → Option HealthState → Option HealthState
seen e state rest = elim rest [ some s ↦ some s | none ↦ if e then some state else none ]

seen_first :
    (e f : Bool) (new old : HealthState) (rest : Option HealthState)
    → f ≡ e
    → (f ≡ true → rest ≡ none)
    → seen e new rest ≡ (if e then some new else seen f old rest)
seen_first true f new old rest p n = rw (n p) refl
seen_first false true new old rest p n = cc
seen_first false false new old rest p n = refl

seen_behind :
    (e f : Bool) (new old : HealthState) (rest : Option HealthState)
    → seen f old (if e then some new else rest) ≡ (if e then some new else seen f old rest)
seen_behind true f new old rest = refl
seen_behind false f new old rest = refl

hook_state-put_hook :
    (status : HookStatus) (ref : ResourceRef) (hooks : List HookStatus)
    → IsDistinct hooks
    → hook_state (put_hook status hooks) ref
      ≡ (if ref_eq status.resource ref then some status.state else hook_state hooks ref)
unfolding hook_state put_hook
hook_state-put_hook status ref [] d = refl
hook_state-put_hook status ref (h ∷ hooks) d =
    go (ref_eq h.resource status.resource) refl (hook_state-put_hook status ref hooks d.1)
  where
    go :
        (b : Bool)
        → ref_eq h.resource status.resource ≡ b
        → hook_state (put_hook status hooks) ref
          ≡ (if ref_eq status.resource ref then some status.state else hook_state hooks ref)
        → hook_state (if b then status ∷ hooks else h ∷ put_hook status hooks) ref ≡ (
            if ref_eq status.resource ref
            then some status.state
            else seen (ref_eq h.resource ref) h.state (hook_state hooks ref))
    go true e r =
        seen_first (ref_eq status.resource ref) (ref_eq h.resource ref) status.state h.state
          (hook_state hooks ref) (ref_eq-left h.resource status.resource ref e)
          (behind h ref hooks d.0)
    go false e r =
        ap (seen (ref_eq h.resource ref) h.state) r
        ∙ seen_behind (ref_eq status.resource ref) (ref_eq h.resource ref) status.state h.state
            (hook_state hooks ref)

-- The state of the last verdict on the hook, or what was recorded before.
abbrev pub latest :
    GroupVersions → ResourceRef → List Result → Option HealthState → Option HealthState
latest gv ref [] before = before
latest gv ref (r ∷ results) before =
    latest gv ref results (if ref_eq (resource_ref gv r.resource) ref then some r.state else before)

-- After the verdicts on a stage's hooks are recorded, the state read for a hook is that of the last
-- verdict on it, and for a hook with no verdict what it was before.
pub hook_state-record_hooks :
    (gv : GroupVersions) (stage : String) (results : List Result) (hooks : List HookStatus)
    (ref : ResourceRef)
    → IsDistinct hooks
    → hook_state (record_hooks gv stage results hooks) ref
      ≡ latest gv ref results (hook_state hooks ref)
unfolding record_hooks
hook_state-record_hooks gv stage [] hooks ref d = refl
hook_state-record_hooks gv stage (r ∷ results) hooks ref d =
    hook_state-record_hooks gv stage results _ ref (put_hook-IsDistinct _ hooks d)
    ∙ ap (latest gv ref results) (hook_state-put_hook _ ref hooks d)
