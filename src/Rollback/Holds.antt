-- ===== src/Rollback/Holds.antt =====
-- internal/controller/application_rollback.go: `holdReplaced` holds what a rollback replaced, also
-- when it is tried again; `liftHold` lifts the hold.
use kuvryn_sync.Prelude.{
  ℕ, String, ◌≡◌, refl, ap, ◌≢◌, inl, inr, Bool, true, false, not, ◌&&◌, ◌||◌, Option, none, some,
  List, [], ◌∷◌, arith, ◌==◌, eq_iff, eq_refl, Bool-cases, select, All, lookup-insert,
  lookup-delete,
}
use mathlib.Core.Bool.{false≢true}
use kuvryn_sync.Api.{Phase, Condition, Revision, Application}
use kuvryn_sync.Retry.{retry_blocked}
use kuvryn_sync.Rollback.{
  RollbackRequest, rolled_back_condition, held_by, hold_reason, mark_replaced, passes_over,
  has_reason, is_failed, if_true, hold_each, hold_replaced, lift_hold,
}

-- The Revision is failed and held for this request's kind of rollback.
abbrev pub IsHeldFor : RollbackRequest → Revision → Type 0
IsHeldFor request r =
    (r.status.phase ≡ Phase.failed)
    × ((c : Condition) × (held_by r ≡ some c) × (c.reason ≡ hold_reason request))

-- Of the replaced source revision, and not the target.
abbrev pub IsReplaced : RollbackRequest → Revision → Revision → Type 0
IsReplaced request target r = (r.name ≢ target.name) × (r.source_revision ≡ request.from)

held_by-mark_replaced :
    (request : RollbackRequest) (target r : Revision)
    → held_by (mark_replaced request target r)
      ≡ some (record { holds = true; reason = hold_reason request })
unfolding held_by mark_replaced if_true
held_by-mark_replaced request target r =
    rw
      (lookup-insert rolled_back_condition rolled_back_condition
        (record { holds = true; reason = hold_reason request }) r.status.conditions)
      refl

mark_replaced-IsFailed :
    (request : RollbackRequest) (target r : Revision)
    → (mark_replaced request target r).status.phase ≡ Phase.failed
unfolding mark_replaced
mark_replaced-IsFailed request target r = refl

-- A marked Revision is passed over from then on.
passes_over-mark_replaced :
    (request : RollbackRequest) (target r : Revision)
    → passes_over request target (mark_replaced request target r) ≡ true
unfolding passes_over has_reason
passes_over-mark_replaced request target r =
    rw
      (
        held_by-mark_replaced request target r,
        eq_refl (hold_reason request),
        mark_replaced-IsFailed request target r,
      )
      (ground arith)

mark_replaced-IsHeldFor :
    (request : RollbackRequest) (target r : Revision)
    → IsHeldFor request (mark_replaced request target r)
mark_replaced-IsHeldFor request target r =
    (mark_replaced-IsFailed request target r, (_, held_by-mark_replaced request target r, refl))

is_failed→eq : (p : Phase) → is_failed p ≡ true → p ≡ Phase.failed
is_failed→eq p h = ground arith

has_reason-lem :
    (reason : String) (o : Option Condition)
    → has_reason reason o ≡ true
    → (c : Condition) × (o ≡ some c) × (c.reason ≡ reason)
unfolding has_reason
has_reason-lem reason none h = cc
has_reason-lem reason (some c) h = (c, refl, (eq_iff c.reason reason).0 h)

-- A replaced Revision that is passed over is held already.
passes_over-IsHeldFor :
    (request : RollbackRequest) (target r : Revision)
    → IsReplaced request target r
    → passes_over request target r ≡ true
    → IsHeldFor request r
unfolding passes_over
passes_over-IsHeldFor request target r k h =
    let both : has_reason (hold_reason request) (held_by r) && is_failed r.status.phase ≡ true =
      ground (arith, h, k, eq_iff r.name target.name, eq_iff r.source_revision request.from) in
    (
      is_failed→eq r.status.phase (ground (arith, both)),
      has_reason-lem (hold_reason request) (held_by r) (ground (arith, both)),
    )

abbrev pub is_replaced : RollbackRequest → Revision → Revision → Bool
is_replaced request target r = not (r.name == target.name) && r.source_revision == request.from

is_replaced-mark_replaced :
    (request : RollbackRequest) (target r : Revision)
    → is_replaced request target (mark_replaced request target r) ≡ is_replaced request target r
unfolding mark_replaced
is_replaced-mark_replaced request target r = refl

marks_replaced :
    (request : RollbackRequest) (target r : Revision)
    → passes_over request target r ≡ false
    → is_replaced request target r ≡ true
unfolding passes_over
marks_replaced request target r h = ground (arith, h)

module _ (request : RollbackRequest) (target : Revision) where
  abbrev prepend : Revision → List Revision × Bool → List Revision × Bool
  prepend r p = (r ∷ p.0, p.1)

  abbrev pub accept_all : Revision → Bool
  accept_all r = true

  hold_each-IsHeldFor :
      (accepts : Revision → Bool) (rs : List Revision)
      → (hold_each accepts request target rs).1 ≡ true
      → All
          (λ r. IsReplaced request target r → IsHeldFor request r)
          (hold_each accepts request target rs).0
  unfolding hold_each
  hold_each-IsHeldFor accepts [] h = tt
  hold_each-IsHeldFor accepts (r ∷ rs) h = elim (Bool-cases (passes_over request target r)) [
    | inl e ↦ rw e (
      λ k. passes_over-IsHeldFor request target r k e,
      hold_each-IsHeldFor accepts rs (rw e at h),
    )
    | inr e ↦ elim (Bool-cases (accepts (mark_replaced request target r))) [
      | inl a ↦
          rw (e, a)
            (
              λ k. mark_replaced-IsHeldFor request target r,
              hold_each-IsHeldFor accepts rs (rw (e, a) at h),
            )
      | inr a ↦ absurd (false≢true (rw (e, a) at h))
    ]
  ]

  hold_each-again :
      (accepts : Revision → Bool) (rs : List Revision)
      → hold_each accept_all request target (hold_each accepts request target rs).0
        ≡ hold_each accept_all request target rs
  unfolding hold_each
  hold_each-again accepts [] = refl
  hold_each-again accepts (r ∷ rs) = elim (Bool-cases (passes_over request target r)) [
    | inl e ↦ rw (e, e) (ap (prepend r) (hold_each-again accepts rs))
    | inr e ↦ elim (Bool-cases (accepts (mark_replaced request target r))) [
      | inl a ↦
          rw (e, a, passes_over-mark_replaced request target r)
            (ap (prepend (mark_replaced request target r)) (hold_each-again accepts rs))
      | inr a ↦ rw (e, a, e) refl
    ]
  ]

  -- What the loop does not mark stays as it is.
  hold_each-others :
      (accepts : Revision → Bool) (rs : List Revision)
      → select (λ r. not (is_replaced request target r)) (hold_each accepts request target rs).0
        ≡ select (λ r. not (is_replaced request target r)) rs
  unfolding hold_each
  hold_each-others accepts [] = refl
  hold_each-others accepts (r ∷ rs) = elim (Bool-cases (passes_over request target r)) [
    | inl e ↦ rw (e, hold_each-others accepts rs) refl
    | inr e ↦ elim (Bool-cases (accepts (mark_replaced request target r))) [
      | inl a ↦
          rw
            (
              e,
              a,
              is_replaced-mark_replaced request target r,
              marks_replaced request target r e,
              hold_each-others accepts rs,
            )
            refl
      | inr a ↦ rw (e, a) refl
    ]
  ]

  -- When a completed rollback replaced another source revision, and the loop got to its end, every
  -- Revision of that source but the target is failed and held, whatever phase it was in; and
  -- whether it got there or a refused write ended it, the other Revisions are as they were, and
  -- trying again comes to the same Revisions as a loop with no refusal.
  pub hold_replaced-holds :
      (accepts : Revision → Bool) (rs : List Revision)
      → request.from ≢ ""
      → request.from ≢ target.source_revision
      → let (after, ended) = hold_replaced accepts request target rs in
        (ended ≡ true → All (λ r. IsReplaced request target r → IsHeldFor request r) after)
        × (select (λ r. not (is_replaced request target r)) after
            ≡ select (λ r. not (is_replaced request target r)) rs)
        × (hold_replaced accept_all request target after
            ≡ hold_replaced accept_all request target rs)
  unfolding hold_replaced
  hold_replaced-holds accepts rs m n =
      let starts : request.from == "" || request.from == target.source_revision ≡ false =
        ground (arith, m, n, eq_iff request.from "", eq_iff request.from target.source_revision) in
      rw starts
        (hold_each-IsHeldFor accepts rs, hold_each-others accepts rs, hold_each-again accepts rs)

-- A Revision whose hold is lifted is not held, and nothing of its last failure keeps it from being
-- tried again.
pub lift_hold-deploys :
    (application : Application) (revision : Revision) (now : ℕ)
    → (held_by (lift_hold revision) ≡ none)
      × (retry_blocked application (lift_hold revision) now ≡ (none, false))
unfolding held_by lift_hold if_true retry_blocked
lift_hold-deploys application revision now = (
  rw (lookup-delete rolled_back_condition rolled_back_condition revision.status.conditions) refl,
  refl,
)
