-- ===== src/Conflicts/Marked.antt =====
-- internal/controller/application_controller.go: when a marked plan fails on a conflict.
use kuvryn_sync.Prelude.{
  String, ◌≡◌, refl, ◌↔◌, inl, inr, Option, none, some, List, [], ◌∷◌, map, arith, ◌==◌, eq_iff,
  Bool-cases, All,
}
use kuvryn_sync.Resource.{ObjectId}
use kuvryn_sync.Api.{ConflictPolicy}
use kuvryn_sync.Conflicts.{
  Conflict, Change, legacy_field_manager, mark_conflict, mark_change, mark_conflict_policy, is_fail,
  first_failing, or_first, conflict_failure,
}

-- Nobody but the legacy manager holds a field that the change would take.
abbrev pub IsLegacyOnly : Change → Type 0
IsLegacyOnly change = All (λ c. c.manager ≡ legacy_field_manager) change.conflicts

first_failing-fail :
    (conflicts : List Conflict)
    → (first_failing (map (mark_conflict ConflictPolicy.fail) conflicts) ≡ none)
      ↔ All (λ c. c.manager ≡ legacy_field_manager) conflicts
unfolding first_failing mark_conflict is_fail
first_failing-fail [] = (λ h. tt, λ h. refl)
first_failing-fail (c ∷ conflicts) = elim (Bool-cases (c.manager == legacy_field_manager)) [
  | inl e ↦ rw e (
    λ h. ((eq_iff c.manager legacy_field_manager).0 e, (first_failing-fail conflicts).0 h),
    λ h. (first_failing-fail conflicts).1 h.1,
  )
  | inr e ↦ rw e (λ h. cc, λ h. ground (arith, e, h.0, eq_iff c.manager legacy_field_manager))
]

first_failing-adopt :
    (conflicts : List Conflict)
    → first_failing (map (mark_conflict ConflictPolicy.adopt) conflicts) ≡ none
unfolding first_failing mark_conflict is_fail
first_failing-adopt [] = refl
first_failing-adopt (c ∷ conflicts) = elim (Bool-cases (c.manager == legacy_field_manager)) [
  | inl e ↦ rw e (first_failing-adopt conflicts)
  | inr e ↦ rw e (first_failing-adopt conflicts)
]

or_first_iff :
    (id : ObjectId) (here : Option String) (rest : Option (ObjectId × String))
    → (or_first id here rest ≡ none) ↔ ((here ≡ none) × (rest ≡ none))
unfolding or_first
or_first_iff id none rest = (λ h. (refl, h), λ h. h.1)
or_first_iff id (some manager) rest = (λ h. cc, λ h. cc)

-- A plan that is marked with the policy `adopt` fails on no conflict, and one that is marked with
-- the policy `fail` fails on none exactly when every conflicting field is only the legacy manager's.
pub conflict_failure-mark_conflict_policy :
    (changes : List Change)
    → (conflict_failure (mark_conflict_policy ConflictPolicy.adopt changes) ≡ none)
      × ((conflict_failure (mark_conflict_policy ConflictPolicy.fail changes) ≡ none)
          ↔ All IsLegacyOnly changes)
unfolding conflict_failure mark_conflict_policy mark_change
conflict_failure-mark_conflict_policy [] = (refl, (λ h. tt, λ h. refl))
conflict_failure-mark_conflict_policy (c ∷ changes) =
    let (adopts, fails) = conflict_failure-mark_conflict_policy changes in
    (
      (or_first_iff c.id _ _).1 (first_failing-adopt c.conflicts, adopts),
      (
        λ h.
            let (here, rest) = (or_first_iff c.id _ _).0 h in
            ((first_failing-fail c.conflicts).0 here, fails.0 rest),
        λ h. (or_first_iff c.id _ _).1 ((first_failing-fail c.conflicts).1 h.0, fails.1 h.1),
      ),
    )
