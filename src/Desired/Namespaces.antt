-- ===== src/Desired/Namespaces.antt =====
-- Where the rendered objects may stand: internal/validate/desired.go, behind
-- `defaultDestinationNamespace` of internal/controller/application_controller.go.
use kuvryn_sync.Prelude.{
  String, ◌≡◌, refl, sym, ap, ◌∙◌, ◌≢◌, ◌⊎◌, inl, inr, Bool, true, false, not, Option, none, some,
  List, [], ◌∷◌, arith, ◌==◌, eq_iff, if◌then◌else◌, Bool-cases, All, trim, All-and,
}
use mathlib.Core.Path.{subst}
use mathlib.Core.Bool.{false≢true}
use mathlib.Core.Option.{some-injective}
use kuvryn_sync.Resource.{Object, GroupVersions}
use kuvryn_sync.Desired.{
  Mapping, mapped, no_match, other_error, scope_by, scope_of, group_kind, Scopes, is_namespaced,
  placed, cons_object, place_all, default_destination_namespace, ResourceId, identify, seen_before,
  desired_from, desired,
}

not_blank : (s : String) → s == "" ≡ false → s ≢ ""
not_blank s e h = ground (arith, e, h, eq_iff s "")

module _ (gv : GroupVersions) (scopes : Scopes) (namespace : String) where
  -- The cluster says that the kind has no namespace, or it does not know the kind and a rendered
  -- definition says so.
  abbrev pub IsClusterScoped : Object → Type 0
  IsClusterScoped o =
      (scopes.mapper o ≡ mapped false)
      ⊎ ((scopes.mapper o ≡ no_match) × (scope_of (group_kind gv o) scopes.rendered ≡ some false))

  -- An object without a namespace is of a kind that has none.
  abbrev IsScoped : Object → Type 0
  IsScoped o = o.namespace ≡ "" → IsClusterScoped o

  -- An object with a namespace is in the destination, spaces apart.
  abbrev IsInside : Object → Type 0
  IsInside o = (trim o.namespace ≡ "") ⊎ (trim o.namespace ≡ namespace)

  -- What is promised of the namespace of an object.
  abbrev pub IsPlaced : Object → Type 0
  IsPlaced o =
      ((o.namespace ≡ "") × IsClusterScoped o)
      ⊎ ((o.namespace ≢ "") × (trim o.namespace ≡ ""))
      ⊎ (trim o.namespace ≡ namespace)

  scope_by-IsClusterScoped :
      (o : Object) (m : Mapping)
      → scopes.mapper o ≡ m
      → scope_by (scope_of (group_kind gv o) scopes.rendered) m ≡ some false
      → IsClusterScoped o
  unfolding scope_by
  scope_by-IsClusterScoped o (mapped namespaced) e h =
      inl (e ∙ ap (λ b. mapped b) (some-injective namespaced false h))
  scope_by-IsClusterScoped o no_match e h = inr (e, h)
  scope_by-IsClusterScoped o other_error e h = absurd (ground (arith, h))

  is_namespaced-IsClusterScoped :
      (o : Object) → is_namespaced gv scopes o ≡ some false → IsClusterScoped o
  unfolding is_namespaced
  is_namespaced-IsClusterScoped o h = scope_by-IsClusterScoped o (scopes.mapper o) refl h

  placed-IsScoped :
      (answer : Option Bool) (o q : Object)
      → namespace == "" ≡ false
      → is_namespaced gv scopes o ≡ answer
      → placed namespace answer o ≡ some q
      → IsScoped q
  unfolding placed
  placed-IsScoped none o q n a e k = ground (arith, e)
  placed-IsScoped (some true) o q n a e k =
      absurd (not_blank namespace n (ap (λ x. x.namespace) (some-injective _ q e) ∙ k))
  placed-IsScoped (some false) o q n a e k =
      is_namespaced-IsClusterScoped q
        (ap (is_namespaced gv scopes) (sym (some-injective o q e)) ∙ a)

  cons-IsScoped :
      (o : Option Object) (rest : Option (List Object)) (objects : List Object)
      → ((q : Object) → o ≡ some q → IsScoped q)
      → ((qs : List Object) → rest ≡ some qs → All IsScoped qs)
      → cons_object o rest ≡ some objects
      → All IsScoped objects
  unfolding cons_object
  cons-IsScoped none rest objects h k e = absurd (ground (arith, e))
  cons-IsScoped (some q) none objects h k e = absurd (ground (arith, e))
  cons-IsScoped (some q) (some qs) objects h k e =
      subst (All IsScoped) (some-injective (q ∷ qs) objects e) (h q refl, k qs refl)

  place_all-IsScoped :
      (objects qs : List Object)
      → namespace == "" ≡ false
      → place_all gv scopes namespace objects ≡ some qs
      → All IsScoped qs
  unfolding place_all
  place_all-IsScoped [] qs n e = subst (All IsScoped) (some-injective [] qs e) tt
  place_all-IsScoped (o ∷ os) qs n e =
      cons-IsScoped _ _ qs (first o) (λ rest k. place_all-IsScoped os rest n k) e
    where
      first :
          (o q : Object)
          → (if not (o.namespace == "")
              then some o
              else placed namespace (is_namespaced gv scopes o) o)
            ≡ some q
          → IsScoped q
      first o q e = elim (Bool-cases (o.namespace == "")) [
        | inl empty ↦ placed-IsScoped (is_namespaced gv scopes o) o q n refl (rw empty at e)
        | inr there ↦ λ k. absurd (
            not_blank o.namespace there
              (ap (λ x. x.namespace) (some-injective o q (rw there at e)) ∙ k))
      ]

  identify-IsInside :
      (o : Object) → namespace == "" ≡ false → identify namespace o ≢ none → IsInside o
  unfolding identify
  identify-IsInside o n h =
      ground (arith, n, h, eq_iff (trim o.namespace) "", eq_iff (trim o.namespace) namespace)

  both-IsPlaced : (o : Object) → IsScoped o → IsInside o → IsPlaced o
  both-IsPlaced o scoped inside = elim (Bool-cases (o.namespace == "")) [
    | inl empty ↦ let blank = (eq_iff o.namespace "").0 empty in inl (blank, scoped blank)
    | inr there ↦ elim inside [
      | inl blank ↦ inr (inl (not_blank o.namespace there, blank))
      | inr same ↦ inr (inr same)
    ]
  ]

  desired-IsInside :
      (objects : List Object) (seen : List ResourceId)
      → namespace == "" ≡ false
      → desired_from namespace seen objects ≡ true
      → All IsInside objects
  unfolding desired_from
  desired-IsInside [] seen n e = tt
  desired-IsInside (o ∷ os) seen n e =
      by_identity (identify namespace o) refl (λ seen' k. desired-IsInside os seen' n k) e
    where
      by_identity :
          (v : Option ResourceId)
          → identify namespace o ≡ v
          → ((seen' : List ResourceId) → desired_from namespace seen' os ≡ true → All IsInside os)
          → (elim v [
            | none ↦ false
            | some id ↦ if seen_before id seen then false else desired_from namespace (id ∷ seen) os
          ])
            ≡ true
          → All IsInside (o ∷ os)
      by_identity none q rest k = absurd (false≢true k)
      by_identity (some id) q rest k =
          (identify-IsInside o n (λ z. ground (arith, q, z)), rest (id ∷ seen) (ground (arith, k)))

-- Once a destination namespace is filled in and the objects are valid, each object is of one of three
-- kinds: it has no namespace, and the cluster says that its kind has none, or does not know the kind
-- and a rendered definition says so; its namespace, without the spaces around it, is the
-- destination; or its namespace is of nothing but spaces, which the validation does not look at.
pub default_destination_namespace-desired :
    (gv : GroupVersions) (scopes : Scopes) (namespace : String) (objects qs : List Object)
    → namespace == "" ≡ false
    → default_destination_namespace gv scopes namespace objects ≡ some qs
    → desired namespace qs ≡ true
    → All (IsPlaced gv scopes namespace) qs
unfolding default_destination_namespace desired
default_destination_namespace-desired gv scopes namespace objects qs n e d =
    All-and (IsScoped gv scopes namespace) (IsInside gv scopes namespace)
      (IsPlaced gv scopes namespace) (both-IsPlaced gv scopes namespace) qs
      (place_all-IsScoped gv scopes namespace objects qs n (rw n at e))
      (desired-IsInside gv scopes namespace qs [] n d)
