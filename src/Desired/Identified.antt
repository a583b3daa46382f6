-- ===== src/Desired/Identified.antt =====
-- When the loop of internal/validate/desired.go goes through: each object is identified, and no two
-- have one identity.
use kuvryn_sync.Prelude.{
  String, ◌≡◌, refl, sym, ap, ◌∙◌, ◌≢◌, ◌↔◌, inl, inr, true, false, Option, none, some, List, [],
  ◌∷◌, arith, eq_iff, eq_refl, if◌then◌else◌, Bool-cases, All, Each, All-map_of, All-and,
}
use mathlib.Core.Path.{subst}
use mathlib.Core.Bool.{false≢true}
use mathlib.Core.Option.{some-injective}
use kuvryn_sync.Resource.{Object}
use kuvryn_sync.Desired.{ResourceId, resource_eq, identify, seen_before, desired_from}

pub resource_eq_iff : (a b : ResourceId) → (resource_eq a b ≡ true) ↔ (a ≡ b)
resource_eq_iff a b = ground (
  arith,
  eq_iff a.api_version b.api_version,
  eq_iff a.kind b.kind,
  eq_iff a.namespace b.namespace,
  eq_iff a.name b.name,
)

seen_itself : (id : ResourceId) (seen : List ResourceId) → seen_before id (id ∷ seen) ≡ true
seen_itself id seen =
    ground (arith, eq_refl id.api_version, eq_refl id.kind, eq_refl id.namespace, eq_refl id.name)

seen_later :
    (id other : ResourceId) (seen : List ResourceId)
    → id ≢ other
    → seen_before other seen ≡ false
    → seen_before other (id ∷ seen) ≡ false
seen_later id other seen n h = elim (Bool-cases (resource_eq id other)) [
  | inl e ↦ absurd (n ((resource_eq_iff id other).0 e))
  | inr e ↦ rw (e, h) refl
]

seen_earlier :
    (id other : ResourceId) (seen : List ResourceId)
    → seen_before other (id ∷ seen) ≡ false
    → seen_before other seen ≡ false
seen_earlier id other seen h = ground (arith, h)

module _ (destination : String) where
  abbrev pub IsIdentified : Object → Type 0
  IsIdentified o = identify destination o ≢ none

  abbrev pub AreApart : Object → Object → Type 0
  AreApart a b = identify destination a ≢ identify destination b

  abbrev IsFresh : List ResourceId → Object → Type 0
  IsFresh seen o =
      (id : ResourceId) → identify destination o ≡ some id → seen_before id seen ≡ false

  step :
      (seen : List ResourceId) (o : Object) (os : List Object) (v : Option ResourceId)
      → identify destination o ≡ v
      → ((seen' : List ResourceId)
          → (desired_from destination seen' os ≡ true)
            ↔ (All IsIdentified os × Each AreApart os × All (IsFresh seen') os))
      → ((elim v [
        | none ↦ false
        | some id ↦ if seen_before id seen then false else desired_from destination (id ∷ seen) os
      ])
          ≡ true)
        ↔ (All IsIdentified (o ∷ os) × Each AreApart (o ∷ os) × All (IsFresh seen) (o ∷ os))
  step seen o os none e rest = (λ h. absurd (false≢true h), λ (named, _, _). absurd (named.0 e))
  step seen o os (some id) e rest = (
    λ h.
        let (unseen, later) = split h in
        let (named, differ, fresh) = (rest (id ∷ seen)).0 later in
        (
          ((λ n. ground (arith, e, n)), named),
          (
            All-map_of (IsFresh (id ∷ seen)) (AreApart o)
                (λ x f same. absurd (false≢true (sym (f id (sym same ∙ e)) ∙ seen_itself id seen)))
                os fresh,
            differ,
          ),
          (
            λ other k.
                subst (λ x. seen_before x seen ≡ false) (some-injective id other (sym e ∙ k))
                  unseen,
            All-map_of (IsFresh (id ∷ seen)) (IsFresh seen)
                (λ x f other k. seen_earlier id other seen (f other k)) os fresh,
          ),
        ),
    λ (named, differ, fresh). rw (fresh.0 id e) (
        (rest (id ∷ seen)).1 (
          named.1,
          differ.1,
          All-and (AreApart o) (IsFresh seen) (IsFresh (id ∷ seen))
              (λ x d f other k.
                seen_later id other seen (λ same. d (e ∙ (ap (λ y. some y) same ∙ sym k)))
                  (f other k))
              os differ.0 fresh.1,
        )),
  )
    where
      split :
          (if seen_before id seen then false else desired_from destination (id ∷ seen) os) ≡ true
          → (seen_before id seen ≡ false) × (desired_from destination (id ∷ seen) os ≡ true)
      split h = ground (arith, h)

  pub desired_from_iff :
      (objects : List Object) (seen : List ResourceId)
      → (desired_from destination seen objects ≡ true)
        ↔ (All IsIdentified objects × Each AreApart objects × All (IsFresh seen) objects)
  unfolding desired_from
  desired_from_iff [] seen = (λ _. (tt, tt, tt), λ _. refl)
  desired_from_iff (o ∷ os) seen =
      step seen o os (identify destination o) refl (desired_from_iff os)
