-- ===== src/Approval/Requested.antt =====
-- internal/controller/application_controller.go and application_rollback.go: a rollback's own
-- approval, and the one that a rollout gets.
use kuvryn_sync.Prelude.{
  ℕ, ◌≤◌, ◌≡◌, refl, sym, ap, ◌∙◌, ◌≢◌, ◌⊎◌, inl, inr, Bool, true, false, not, ◌&&◌, ◌||◌, Option,
  none, some, arith, ◌==◌, eq_iff, eqb, if◌then◌else◌, is_none, eqb→eq, Bool-cases,
}
use mathlib.Core.Bool.{false≢true}
use kuvryn_sync.Api.{Approval, Revision, Application}
use kuvryn_sync.Annotations.{
  given, rollback_target_revision, rollback_target_hash, rollback_requested_by,
  rollback_requested_at, approved_at, Rfc3339, Sum, binding,
}
use kuvryn_sync.Rollout.{RolloutState}
use kuvryn_sync.Rollback.{
  RollbackRequest, is_active, is_automatic, is_in_progress, held_by, recorded_or_new,
  rollback_approval, rollback_approval_at,
}
use kuvryn_sync.Approval.{
  manual_approval, not_before, approved_since_request, add_rollback, or_rollback, rollout_approval,
}
use kuvryn_sync.Approval.Covers.{
  IsManual, gives, some_pair, given_behind, given_if, not_eq, not_held, manual_approval-IsManual,
}

recorded_or_new-lem :
    (rollout : RolloutState) (found : Option Approval) (new : Approval)
    → let a = recorded_or_new rollout found new in
      (a.approved_by ≡ new.approved_by)
      × (a.approved_at ≡ new.approved_at)
      × (a.desired_state_hash ≡ new.desired_state_hash)
      × ((a.plan_digest ≡ new.plan_digest) ⊎ ((is_in_progress rollout ≡ true) × (found ≡ some a)))
unfolding recorded_or_new
recorded_or_new-lem rollout none new = (refl, refl, refl, inl refl)
recorded_or_new-lem rollout (some r) new =
    elim (Bool-cases (
      is_in_progress rollout
      && r.approved_by == new.approved_by
      && eqb r.approved_at new.approved_at
      && r.desired_state_hash == new.desired_state_hash)) [
        | inl e ↦ rw e (
          (eq_iff r.approved_by new.approved_by).0 (ground (arith, e)),
          eqb→eq r.approved_at new.approved_at (ground (arith, e)),
          (eq_iff r.desired_state_hash new.desired_state_hash).0 (ground (arith, e)),
          inr (ground (arith, e), refl),
        )
        | inr e ↦ rw e (refl, refl, refl, inl refl)
      ]

-- No time of the request is recorded, or the approval's recorded time is not before it.
abbrev pub IsSinceRequest : Rfc3339 → Application → Type 0
IsSinceRequest time application =
    let requested = time.parse (given rollback_requested_at application.annotations) in
    (requested ≡ none)
    ⊎ ((request : ℕ) × (approval : ℕ) × (requested ≡ some request)
        × (time.parse (given approved_at application.annotations) ≡ some approval)
        × (request ≤ approval))

since_request :
    (time : Rfc3339) (application : Application)
    → approved_since_request time application ≡ true
    → IsSinceRequest time application
unfolding approved_since_request
since_request time application h =
    by_times (time.parse (given rollback_requested_at application.annotations))
      (time.parse (given approved_at application.annotations)) h
  where
    by_times :
        (requested approved : Option ℕ)
        → not_before requested approved ≡ true
        → (requested ≡ none)
          ⊎ ((request : ℕ) × (approval : ℕ) × (requested ≡ some request)
              × (approved ≡ some approval)
              × (request ≤ approval))
    by_times none approved k = inl refl
    by_times (some request) none k = absurd (false≢true k)
    by_times (some request) (some approval) k =
        inr (request, approval, refl, refl, ground (arith, k))

module _ (sum : Sum) (time : Rfc3339) where
  -- What a person's request approves: the chosen Revision, of the target and held by nothing, while
  -- its desired state and the Application's policies are those that the request binds; by the
  -- requester, at the time of the request; and either for the plan that it has now or, while its
  -- rollout runs, for the plan that the rollout recorded.
  abbrev pub IsRequested :
      Application → RollbackRequest → Revision → RolloutState → Approval → Type 0
  IsRequested application request revision rollout a =
      let annotations = application.annotations in
      (is_active request ≡ true)
      × (is_automatic request ≡ false)
      × (revision.source_revision ≡ request.target)
      × (held_by revision ≡ none)
      × (revision.name ≡ given rollback_target_revision annotations)
      × (given rollback_target_hash annotations ≢ "")
      × (binding sum revision.desired_state_hash application
          ≡ given rollback_target_hash annotations)
      × (a.approved_by ≢ "")
      × (a.approved_by ≡ given rollback_requested_by annotations)
      × (time.parse (given rollback_requested_at annotations) ≡ some a.approved_at)
      × (a.desired_state_hash ≡ revision.desired_state_hash)
      × ((a.plan_digest ≡ revision.status.plan_digest)
          ⊎ ((is_in_progress rollout ≡ true) × (revision.status.approval ≡ some a)))

  rollback_approval_at-lem :
      (at : Option ℕ) (application : Application) (request : RollbackRequest) (revision : Revision)
      (rollout : RolloutState) (a : Approval) (changed : Bool)
      → time.parse (given rollback_requested_at application.annotations) ≡ at
      → is_active request ≡ true
      → is_automatic request ≡ false
      → revision.source_revision ≡ request.target
      → held_by revision ≡ none
      → rollback_approval_at sum time at application revision rollout ≡ gives a changed
      → (changed ≡ false) × IsRequested application request revision rollout a
  unfolding rollback_approval_at
  rollback_approval_at-lem none application request revision rollout a changed t i j k l h = cc
  rollback_approval_at-lem (some at) application request revision rollout a changed t i j k l h =
      let annotations = application.annotations in
      let chosen = given rollback_target_revision annotations in
      let chosen_hash = given rollback_target_hash annotations in
      let by = given rollback_requested_by annotations in
      let bound = binding sum revision.desired_state_hash application in
      let new : Approval = record {
        approved_by = by;
        approved_at = at;
        plan_digest = revision.status.plan_digest;
        desired_state_hash = revision.desired_state_hash;
      } in
      let (full, h₁) =
        given_behind (chosen == "" || chosen_hash == "" || by == "") false _ a changed h in
      let (same, h₂) =
        given_behind (not (revision.name == chosen) || not (bound == chosen_hash)) true _ a changed
          h₁ in
      let (planned, h₃) = given_behind (revision.status.plan_digest == "") false _ a changed h₂ in
      let (is_a, fresh) = some_pair _ a false changed h₃ in
      let (b, at_time, hash, plan) = recorded_or_new-lem rollout revision.status.approval new in
      (
        sym fresh,
        rw (sym is_a) (
          i,
          j,
          k,
          l,
          (eq_iff revision.name chosen).0 (ground (arith, same)),
          not_eq chosen_hash "" (ground (arith, full)),
          (eq_iff bound chosen_hash).0 (ground (arith, same)),
          rw b (not_eq by "" (ground (arith, full))),
          b,
          t ∙ ap (λ n. some n) (sym at_time),
          hash,
          plan,
        ),
      )

  -- A rollback's own approval is given only to a person's request, and covers what they chose.
  pub rollback_approval-IsRequested :
      (application : Application) (request : RollbackRequest) (revision : Revision)
      (rollout : RolloutState) (a : Approval) (changed : Bool)
      → rollback_approval sum time application request revision rollout ≡ (some a, changed)
      → (changed ≡ false) × IsRequested application request revision rollout a
  unfolding rollback_approval
  rollback_approval-IsRequested application request revision rollout a changed h =
      let (passed, h₁) =
        given_behind
          (not (is_active request)
            || is_automatic request
            || not (revision.source_revision == request.target)
            || not (is_none (held_by revision)))
          false _ a changed h in
      rollback_approval_at-lem _ application request revision rollout a changed refl
        (ground (arith, passed)) (ground (arith, passed))
        ((eq_iff revision.source_revision request.target).0 (ground (arith, passed)))
        (not_held (held_by revision) (ground (arith, passed))) h₁

  abbrev first_of : Option Approval × Bool → Option Approval
  first_of p = p.0

  abbrev second_of : Option Approval × Bool → Bool
  second_of p = p.1

  abbrev pair : Option Approval → Bool → Option Approval × Bool
  pair a flag = (a, flag)

  or_rollback-lem :
      (is_auto : Bool) (mine theirs : Option Approval × Bool) (a : Approval) (stale : Bool)
      → or_rollback is_auto mine theirs ≡ gives a stale
      → (mine ≡ gives a stale)
        ⊎ ((is_auto ≡ false) × (stale ≡ false) × (theirs ≡ gives a (second_of theirs)))
  unfolding or_rollback add_rollback
  or_rollback-lem is_auto (some b, s) theirs a stale h = inl h
  or_rollback-lem true (none, s) theirs a stale h = cc
  or_rollback-lem false (none, s) (some b, c) a stale h =
      inr (refl, sym (ap second_of h), ap (λ p. pair (first_of p) c) h)
  or_rollback-lem false (none, s) (none, c) a stale h = cc

  -- An approval with which a Revision rolls out is not stale, and is of one of two kinds. It stands
  -- in the annotations and covers the Revision, and no rollback is requested, or the request has no
  -- recorded time, or the approval's recorded time is not before the request's; or sync is manual,
  -- and it is that of a person's rollback request and covers what they chose.
  pub rollout_approval-covers :
      (application : Application) (revision : Revision) (request : RollbackRequest)
      (rollout : RolloutState) (a : Approval) (stale : Bool)
      → rollout_approval sum time application revision request rollout ≡ (some a, stale)
      → (stale ≡ false)
        × ((IsManual application revision rollout a
              × ((is_active request ≡ false) ⊎ IsSinceRequest time application))
            ⊎ ((application.sync.automatic ≡ false)
                × IsRequested application request revision rollout a))
  unfolding rollout_approval
  rollout_approval-covers application revision request rollout a stale h =
      elim (or_rollback-lem application.sync.automatic
        (if not (is_active request) || approved_since_request time application
          then manual_approval time application revision rollout
          else (none, false))
        (rollback_approval sum time application request revision rollout) a stale h) [
          | inl mine ↦
              let (test, given_) =
                given_if (not (is_active request) || approved_since_request time application)
                  (manual_approval time application revision rollout) a stale mine in
              let requested : not (is_active request) || approved_since_request time application
                    ≡ true
                  → (is_active request ≡ false) ⊎ IsSinceRequest time application =
                λ t. elim (Bool-cases (is_active request)) [
                  | inl active ↦ inr (since_request time application (ground (arith, t, active)))
                  | inr inactive ↦ inl inactive
                ] in
              let (fresh, covers) =
                manual_approval-IsManual time application revision rollout a stale given_ in
              (fresh, inl (covers, requested test))
          | inr (auto, fresh, theirs) ↦
              let (same, covers) =
                rollback_approval-IsRequested application request revision rollout a _ theirs in
              (fresh, inr (auto, covers))
        ]
