-- ===== src/History/Target.antt =====
-- internal/rollback/rollback.go: the Revision that a rollback goes back to.
use kuvryn_sync.Prelude.{
  ◌<◌, ◌≡◌, ◌≢◌, ◌⊎◌, inl, inr, true, false, none, some, List, [], ◌∷◌, arith, eq_iff, Bool-cases,
  select, All, sort_by, IsSorted, All-sort_by, sort_by-IsSorted, All-select, All-of_select,
  All-of_sort_by, All-map_of,
}
use kuvryn_sync.Api.{Phase, Revision}
use mathlib.Core.Path.{subst}
use kuvryn_sync.History.{newer, is_healthy, is_candidate, first, target}
use kuvryn_sync.History.Newest.{newer-IsOrder}

-- A Revision that a rollback from `current` may go back to.
abbrev pub IsEarlier : Revision → Revision → Type 0
IsEarlier current rev =
    (rev.name ≢ current.name)
    × (rev.application ≡ current.application)
    × (rev.status.phase ≡ Phase.healthy)
    × ((current.created ≡ 0) ⊎ (rev.created < current.created))

module _ (current rev : Revision) where
  healthy_phase : is_healthy rev.status.phase ≡ true → rev.status.phase ≡ Phase.healthy
  unfolding is_healthy
  healthy_phase h = ground arith

  phase_healthy : rev.status.phase ≡ Phase.healthy → is_healthy rev.status.phase ≡ true
  unfolding is_healthy
  phase_healthy h = ground arith

  IsEarlier-of_candidate : is_candidate current rev ≡ true → IsEarlier current rev
  unfolding is_candidate
  IsEarlier-of_candidate h = ground (
    arith,
    eq_iff rev.name current.name,
    eq_iff rev.application current.application,
    healthy_phase,
  )

  candidate_of_IsEarlier : IsEarlier current rev → is_candidate current rev ≡ true
  unfolding is_candidate
  candidate_of_IsEarlier h = ground (
    arith,
    eq_iff rev.name current.name,
    eq_iff rev.application current.application,
    phase_healthy,
  )

newer_irrefl : (r : Revision) → newer r r ≡ false
newer_irrefl r = elim (Bool-cases (newer r r)) [ inl e ↦ newer-IsOrder.asym r r e | inr e ↦ e ]

first_is_newest :
    (xs : List Revision) {r : Revision}
    → IsSorted newer xs
    → first xs ≡ some r
    → All (λ c. newer c r ≡ false) xs
unfolding first
first_is_newest [] h e = tt
first_is_newest (x ∷ xs) {r} h e =
    let same : x ≡ r = ground arith in
    subst (λ z. All (λ c. newer c z ≡ false) (x ∷ xs)) same (newer_irrefl x, h.0)

All-first :
    (P : Revision → Type 0) (xs : List Revision) {r : Revision} → All P xs → first xs ≡ some r → P r
unfolding first
All-first P [] h e = cc
All-first P (x ∷ xs) {r} h e = let same : x ≡ r = ground arith in rw (← same) h.0

All-no_first : (P : Revision → Type 0) (xs : List Revision) → first xs ≡ none → All P xs
unfolding first
All-no_first P [] e = tt
All-no_first P (x ∷ xs) e = cc

-- The target of a rollback is an earlier healthy Revision of the same Application, and no Revision
-- in the history that a rollback may go back to is newer.
pub target-newest :
    (current : Revision) (history : List Revision) {r : Revision}
    → target current history ≡ some r
    → IsEarlier current r × All (λ c. IsEarlier current c → newer c r ≡ false) history
unfolding target
target-newest current history {r} e = (
  IsEarlier-of_candidate current r (
      All-first (λ c. is_candidate current c ≡ true) ordered
        (All-sort_by newer _ candidates (All-select (is_candidate current) history)) e),
  All-map_of _ _ (λ c p q. p (candidate_of_IsEarlier current c q)) history
      (All-of_select (λ c. newer c r ≡ false) (is_candidate current) history
        (All-of_sort_by newer _ candidates
          (first_is_newest ordered (sort_by-IsSorted newer newer-IsOrder candidates) e))),
)
  where
    candidates : List Revision
    candidates = select (is_candidate current) history

    ordered : List Revision
    ordered = sort_by newer candidates

-- There is no target only if the history has no Revision to go back to.
pub target_none :
    (current : Revision) (history : List Revision)
    → target current history ≡ none
    → All (λ c. ¬ IsEarlier current c) history
unfolding target
target_none current history e =
    All-map_of _ _ (λ c p q. p (candidate_of_IsEarlier current c q)) history
      (All-of_select (λ c. ⊥) (is_candidate current) history
        (All-of_sort_by newer (λ c. ⊥) _ (All-no_first (λ c. ⊥) _ e)))
