-- ===== src/Approval.antt =====
-- internal/controller/application_controller.go: which approval deploys a Revision on an Application
-- with manual sync.
pub mod Covers
pub mod Requested
pub mod Journey
pub mod Tests
use kuvryn_sync.Prelude.{
  ℕ, zero, suc, ◌+◌, ◌-◌, ◌*◌, ◌^◌, ◌≤◌, ◌<◌, min, String, str_append, ◌≡◌, refl, sym, ap, ◌∙◌, ◌≢◌,
  ◌↔◌, ◌⊎◌, inl, inr, Bool, true, false, not, ◌&&◌, ◌||◌, Option, none, some, List, [], ◌∷◌, ◌++◌,
  map, Perm, arith, ◌==◌, eq_iff, eq_refl, ltb, leb, eqb, if◌then◌else◌, is_none, ltb→lt, lt→ltb,
  leb→le, eqb→eq, tests, Bool-cases, Option-cases, length, take, drop, select, any, all,
  length-append, take-append-drop, length-take, length-drop, All, Any, Each, text_lt, text_lt-asym,
  text_lt_trans, text_lt-antisym, IsOrder, sort_by, IsSorted, sort_by-perm, All-sort_by,
  sort_by-IsSorted, or_empty, lookup, insert, delete, lookup-insert, lookup-delete, ℤ, pos, negsuc,
  pos_part, neg_part, ◌<ℤ◌, ltb_ℤ, eqb_ℤ, eqb_ℤ→eq, ltb_ℤ-antisym, atoi, codes, codes_eq,
  trim_space, trim, to_lower, split, gather, All-select, All-of_select, All-of_sort_by, All-left,
  All-right, All-reverse, Each-reverse, gather-append, All-append, All-map_of, All-and,
  All-of_forall, Each-append, Each-and, gather-sort_by-perm, Each-sort_by,
}
use kuvryn_sync.Api.{Condition, Approval, RevisionStatus, Revision, SyncPolicy, Application}
use kuvryn_sync.Annotations.{
  Annotations, given, approved_revision, approved_by, approved_at, approved_digest,
  rollback_requested_at, Rfc3339, Sum,
}
use kuvryn_sync.Rollout.{RolloutState}
use kuvryn_sync.Rollback.{RollbackRequest, is_active, is_in_progress, held_by, rollback_approval}

-- The approval that this rollout already acted on.
unfoldable pub recorded_approval :
    String → String → Revision → RolloutState → Option Approval → Option Approval × Bool
recorded_approval by digest revision rollout none = (none, true)
recorded_approval by digest revision rollout (some recorded) =
    if is_in_progress rollout
      && recorded.plan_digest == digest
      && recorded.approved_by == by
      && not (recorded.desired_state_hash == "")
      && recorded.desired_state_hash == revision.desired_state_hash
    then (some recorded, false)
    else (none, true)

-- By the parsed time of the approval.
unfoldable pub manual_approval_at :
    Option ℕ → Application → Revision → RolloutState → Option Approval × Bool
unfolding recorded_approval
manual_approval_at none application revision rollout = (none, true)
manual_approval_at (some at) application revision rollout =
    let by = given approved_by application.annotations in
    let digest = given approved_digest application.annotations in
    if by == ""
    then (none, true)
    else if digest == revision.status.plan_digest
    then (
      some (record {
        approved_by = by;
        approved_at = at;
        plan_digest = digest;
        desired_state_hash = revision.desired_state_hash;
      }),
      false,
    )
    else recorded_approval by digest revision rollout revision.status.approval

-- The approval, and whether there is one that must be given again.
unfoldable pub manual_approval :
    Rfc3339 → Application → Revision → RolloutState → Option Approval × Bool
unfolding manual_approval_at
manual_approval time application revision rollout =
    if not (given approved_revision application.annotations == revision.name)
      || not (is_none (held_by revision))
    then (none, false)
    else manual_approval_at (time.parse (given approved_at application.annotations)) application
        revision rollout

not_before : Option ℕ → Option ℕ → Bool
not_before none approved = true
not_before (some requested) none = false
not_before (some requested) (some approved) = leb requested approved

unfoldable pub approved_since_request : Rfc3339 → Application → Bool
unfolding not_before
approved_since_request time application =
    not_before (time.parse (given rollback_requested_at application.annotations))
      (time.parse (given approved_at application.annotations))

-- What the request's own approval adds to what the annotations gave.
unfoldable pub add_rollback : Bool → Option Approval × Bool → Option Approval × Bool
add_rollback stale (some approval, changed) = (some approval, false)
add_rollback stale (none, changed) = (none, stale || changed)

unfoldable pub or_rollback :
    Bool → Option Approval × Bool → Option Approval × Bool → Option Approval × Bool
unfolding add_rollback
or_rollback is_automatic (some approval, stale) rollback = (some approval, stale)
or_rollback is_automatic (none, stale) rollback =
    if is_automatic then (none, stale) else add_rollback stale rollback

-- The events that it emits are left out.
unfoldable pub rollout_approval :
    Sum → Rfc3339 → Application → Revision → RollbackRequest → RolloutState → Option Approval × Bool
unfolding or_rollback
rollout_approval sum time application revision request rollout =
    or_rollback application.sync.automatic
      (if not (is_active request) || approved_since_request time application
        then manual_approval time application revision rollout
        else (none, false))
      (rollback_approval sum time application request revision rollout)
