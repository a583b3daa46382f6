-- ===== src/Approval/Covers.antt =====
-- internal/controller/application_controller.go and application_rollback.go: an approval covers the
-- plan or the desired state that was approved.
use kuvryn_sync.Prelude.{
  ℕ, String, ◌≡◌, refl, sym, ap, ◌≢◌, ◌⊎◌, inl, inr, Bool, true, false, not, ◌&&◌, ◌||◌, Option,
  none, some, arith, ◌==◌, eq_iff, if◌then◌else◌, is_none, Bool-cases,
}
use kuvryn_sync.Api.{Condition, Approval, Revision, Application}
use kuvryn_sync.Annotations.{
  given, approved_revision, approved_by, approved_digest, approved_at, Rfc3339,
}
use kuvryn_sync.Rollout.{RolloutState}
use kuvryn_sync.Rollback.{is_in_progress, held_by}
use kuvryn_sync.Approval.{recorded_approval, manual_approval_at, manual_approval}

-- What the annotations approve: exactly this Revision, which nothing holds, by a named approver, for
-- its desired state, and either for the plan that it has now or, while its rollout runs, for the
-- plan that the rollout started with, as it recorded.
abbrev pub IsManual : Application → Revision → RolloutState → Approval → Type 0
IsManual application revision rollout a =
    (given approved_revision application.annotations ≡ revision.name)
    × (held_by revision ≡ none)
    × (a.approved_by ≢ "")
    × (a.approved_by ≡ given approved_by application.annotations)
    × (a.plan_digest ≡ given approved_digest application.annotations)
    × (a.desired_state_hash ≡ revision.desired_state_hash)
    × ((a.plan_digest ≡ revision.status.plan_digest)
        ⊎ ((is_in_progress rollout ≡ true)
            × (revision.status.approval ≡ some a)
            × (a.desired_state_hash ≢ "")))

-- The approval of a pair, or the one at hand.
abbrev approval_or : Approval → Option Approval → Approval
approval_or b none = b
approval_or b (some a) = a

abbrev pub gives : Approval → Bool → Option Approval × Bool
gives a stale = (some a, stale)

abbrev pub gives_none : Bool → Option Approval × Bool
gives_none stale = (none, stale)

pub some_pair :
    (r a : Approval) (b stale : Bool) → gives r b ≡ gives a stale → (r ≡ a) × (b ≡ stale)
some_pair r a b stale h = (ap (λ p. approval_or r p.0) h, ap (λ p. p.1) h)

-- Where the approval is given under a test, the test has passed.
given_under :
    (test other : Bool) (r a : Approval) (stale : Bool)
    → (if test then gives r false else gives_none other) ≡ gives a stale
    → (test ≡ true) × (r ≡ a) × (false ≡ stale)
given_under true other r a stale h =
    let (same, fresh) = some_pair r a false stale h in (refl, same, fresh)
given_under false other r a stale h = cc

-- Where it is given only behind a test, the test has not.
pub given_behind :
    (test other : Bool) (rest : Option Approval × Bool) (a : Approval) (stale : Bool)
    → (if test then gives_none other else rest) ≡ gives a stale
    → (test ≡ false) × (rest ≡ gives a stale)
given_behind true other rest a stale h = cc
given_behind false other rest a stale h = (refl, h)

pub given_if :
    (test : Bool) (rest : Option Approval × Bool) (a : Approval) (stale : Bool)
    → (if test then rest else gives_none false) ≡ gives a stale
    → (test ≡ true) × (rest ≡ gives a stale)
given_if true rest a stale h = (refl, h)
given_if false rest a stale h = cc

pub not_eq : (s t : String) → s == t ≡ false → s ≢ t
not_eq s t h e = ground (arith, h, e, eq_iff s t)

recorded_approval-lem :
    (by digest : String) (revision : Revision) (rollout : RolloutState) (found : Option Approval)
    (a : Approval) (stale : Bool)
    → recorded_approval by digest revision rollout found ≡ (some a, stale)
    → (stale ≡ false)
      × (found ≡ some a)
      × (is_in_progress rollout ≡ true)
      × (a.plan_digest ≡ digest)
      × (a.approved_by ≡ by)
      × (a.desired_state_hash ≢ "")
      × (a.desired_state_hash ≡ revision.desired_state_hash)
unfolding recorded_approval
recorded_approval-lem by digest revision rollout none a stale h = cc
recorded_approval-lem by digest revision rollout (some r) a stale h =
    let (t, same, fresh) =
      given_under
        (is_in_progress rollout
          && r.plan_digest == digest
          && r.approved_by == by
          && not (r.desired_state_hash == "")
          && r.desired_state_hash == revision.desired_state_hash)
        true r a stale h in
    (
      sym fresh,
      ap (λ x. some x) same,
      ground (arith, t),
      rw (sym same) ((eq_iff r.plan_digest digest).0 (ground (arith, t))),
      rw (sym same) ((eq_iff r.approved_by by).0 (ground (arith, t))),
      rw (sym same) (not_eq r.desired_state_hash "" (ground (arith, t))),
      rw (sym same)
          ((eq_iff r.desired_state_hash revision.desired_state_hash).0 (ground (arith, t))),
    )

pub not_held : (o : Option Condition) → is_none o ≡ true → o ≡ none
not_held none h = refl
not_held (some c) h = cc

manual_approval_at-lem :
    (at : Option ℕ) (application : Application) (revision : Revision) (rollout : RolloutState)
    (a : Approval) (stale : Bool)
    → given approved_revision application.annotations ≡ revision.name
    → held_by revision ≡ none
    → manual_approval_at at application revision rollout ≡ (some a, stale)
    → (stale ≡ false) × IsManual application revision rollout a
unfolding manual_approval_at
manual_approval_at-lem none application revision rollout a stale n k h = cc
manual_approval_at-lem (some at) application revision rollout a stale n k h =
    let by = given approved_by application.annotations in
    let digest = given approved_digest application.annotations in
    let (named, h₁) = given_behind (by == "") true _ a stale h in
    elim (Bool-cases (digest == revision.status.plan_digest)) [
      | inl e ↦
          let (same, fresh) = some_pair _ a false stale (rw e at h₁) in
          (
            sym fresh,
            rw (sym same) (
              n,
              k,
              not_eq by "" named,
              refl,
              refl,
              refl,
              inl ((eq_iff digest revision.status.plan_digest).0 e),
            ),
          )
      | inr e ↦
          let (fresh, found, running, d, b, some_hash, hash) =
            recorded_approval-lem by digest revision rollout revision.status.approval a stale
              (rw e at h₁) in
          (fresh, (n, k, rw b (not_eq by "" named), b, d, hash, inr (running, found, some_hash)))
    ]

-- An approval by the Application's annotations is never stale and covers the Revision.
pub manual_approval-IsManual :
    (time : Rfc3339) (application : Application) (revision : Revision) (rollout : RolloutState)
    (a : Approval) (stale : Bool)
    → manual_approval time application revision rollout ≡ (some a, stale)
    → (stale ≡ false) × IsManual application revision rollout a
unfolding manual_approval
manual_approval-IsManual time application revision rollout a stale h =
    let approved = given approved_revision application.annotations in
    let (open_, h₁) =
      given_behind (not (approved == revision.name) || not (is_none (held_by revision))) false _ a
        stale h in
    manual_approval_at-lem (time.parse (given approved_at application.annotations)) application
      revision rollout a stale ((eq_iff approved revision.name).0 (ground (arith, open_)))
      (not_held (held_by revision) (ground (arith, open_))) h₁
