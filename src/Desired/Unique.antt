-- ===== src/Desired/Unique.antt =====
-- When internal/validate/desired.go takes the rendered objects for valid.
use kuvryn_sync.Prelude.{
  String, ◌≡◌, refl, sym, ap, ◌∙◌, ◌≢◌, ◌↔◌, ◌⊎◌, true, some, List, [], ◌∷◌, arith, ◌==◌, eq_iff,
  if◌then◌else◌, All, Each, trim, All-map_of, All-and, All-of_forall,
}
use mathlib.Core.Option.{some-injective}
use kuvryn_sync.Resource.{Object}
use kuvryn_sync.Desired.{ResourceId, identify, desired}
use kuvryn_sync.Desired.Identified.{resource_eq_iff, IsIdentified, AreApart, desired_from_iff}

module _ (destination : String) where
  -- An object that says its version, its kind and its name, spaces apart, and no namespace but the
  -- destination's, where there is a destination.
  abbrev pub IsNamed : Object → Type 0
  IsNamed o =
      (trim o.api_version ≢ "")
      × (trim o.kind ≢ "")
      × (trim o.name ≢ "")
      × ((destination ≡ "") ⊎ (trim o.namespace ≡ "") ⊎ (trim o.namespace ≡ destination))

  -- The namespace that an object is meant for.
  abbrev pub namespace_of : Object → String
  namespace_of o = if trim o.namespace == "" then destination else trim o.namespace

  -- Two objects that do not agree in version, kind, namespace and name.
  abbrev pub Differ : Object → Object → Type 0
  Differ a b = ¬ (
      (trim a.api_version ≡ trim b.api_version)
      × (trim a.kind ≡ trim b.kind)
      × (namespace_of a ≡ namespace_of b)
      × (trim a.name ≡ trim b.name))

  abbrev id_of : Object → ResourceId
  id_of o = record {
    api_version = trim o.api_version;
    kind = trim o.kind;
    namespace = namespace_of o;
    name = trim o.name;
  }

  identify-IsNamed : (o : Object) → IsNamed o → identify destination o ≡ some (id_of o)
  unfolding identify
  identify-IsNamed o h = ground (
    arith,
    eq_iff (trim o.api_version) "",
    eq_iff (trim o.kind) "",
    eq_iff (trim o.name) "",
    eq_iff destination "",
    eq_iff (trim o.namespace) "",
    eq_iff (trim o.namespace) destination,
  )

  identified-IsNamed : (o : Object) → IsIdentified destination o → IsNamed o
  unfolding identify
  identified-IsNamed o h = ground (
    arith,
    eq_iff (trim o.api_version) "",
    eq_iff (trim o.kind) "",
    eq_iff (trim o.name) "",
    eq_iff destination "",
    eq_iff (trim o.namespace) "",
    eq_iff (trim o.namespace) destination,
  )

  apart_iff : (a b : Object) → IsNamed a → IsNamed b → AreApart destination a b ↔ Differ a b
  apart_iff a b h k =
      let same_id = identify-IsNamed a h in
      let other_id = identify-IsNamed b k in
      (
        λ apart (version, kind, namespace, name). apart (
            same_id
            ∙ ap (λ x. some x)
                ((resource_eq_iff (id_of a) (id_of b)).0 (
                  ground (
                    arith,
                    version,
                    kind,
                    namespace,
                    name,
                    eq_iff (trim a.api_version) (trim b.api_version),
                    eq_iff (trim a.kind) (trim b.kind),
                    eq_iff (namespace_of a) (namespace_of b),
                    eq_iff (trim a.name) (trim b.name),
                  )))
            ∙ sym other_id),
        λ differ same.
            let id = some-injective (id_of a) (id_of b) (sym same_id ∙ (same ∙ other_id)) in
            differ (
              ap (λ x. x.api_version) id,
              ap (λ x. x.kind) id,
              ap (λ x. x.namespace) id,
              ap (λ x. x.name) id,
            ),
      )

  pairwise_iff :
      (objects : List Object)
      → All IsNamed objects
      → Each (AreApart destination) objects ↔ Each Differ objects
  pairwise_iff [] h = (λ k. tt, λ k. tt)
  pairwise_iff (o ∷ os) (named, rest) = (
    λ (first, later). (
      All-and IsNamed (AreApart destination o) (Differ o)
          (λ x n apart. (apart_iff o x named n).0 apart) os rest first,
      (pairwise_iff os rest).0 later,
    ),
    λ (first, later). (
      All-and IsNamed (Differ o) (AreApart destination o)
          (λ x n apart. (apart_iff o x named n).1 apart) os rest first,
      (pairwise_iff os rest).1 later,
    ),
  )

-- The rendered objects are valid exactly where each of them has a version, a kind and a name that
-- are not blank, and no namespace but the destination's where there is one; and no two of them agree
-- in version, kind, name and the namespace that they are meant for.
pub desired_iff :
    (destination : String) (objects : List Object)
    → (desired destination objects ≡ true)
      ↔ (All (IsNamed destination) objects × Each (Differ destination) objects)
unfolding desired
desired_iff destination objects =
    let (to, back) = desired_from_iff destination objects [] in
    (
      λ h.
          let (identified, apart, _) = to h in
          let named =
            All-map_of (IsIdentified destination) (IsNamed destination)
              (identified-IsNamed destination) objects identified in
          (named, (pairwise_iff destination objects named).0 apart),
      λ (named, differ). back (
        All-map_of (IsNamed destination) (IsIdentified destination)
            (λ o n e. ground (arith, e, identify-IsNamed destination o n)) objects named,
        (pairwise_iff destination objects named).1 differ,
        All-of_forall _ (λ o id k. refl) objects,
      ),
    )
