-- ===== src/Desired.antt =====
-- internal/validate/desired.go, internal/resource/scope.go, and `defaultDestinationNamespace` of
-- internal/controller/application_controller.go: in which namespace the rendered objects are, and
-- when they are valid.
pub mod Namespaces
mod Identified
pub mod Unique
pub mod Tests
use kuvryn_sync.Prelude.{
  ℕ, zero, suc, ◌+◌, ◌-◌, ◌*◌, ◌^◌, ◌≤◌, ◌<◌, min, String, str_append, ◌≡◌, refl, sym, ap, ◌∙◌, ◌≢◌,
  ◌↔◌, ◌⊎◌, inl, inr, Bool, true, false, not, ◌&&◌, ◌||◌, Option, none, some, List, [], ◌∷◌, ◌++◌,
  map, Perm, arith, ◌==◌, eq_iff, eq_refl, ltb, leb, eqb, if◌then◌else◌, is_none, ltb→lt, lt→ltb,
  leb→le, eqb→eq, tests, Bool-cases, Option-cases, length, take, drop, select, any, all,
  length-append, take-append-drop, length-take, length-drop, All, Any, Each, text_lt, text_lt-asym,
  text_lt_trans, text_lt-antisym, IsOrder, sort_by, IsSorted, sort_by-perm, All-sort_by,
  sort_by-IsSorted, or_empty, lookup, insert, delete, lookup-insert, lookup-delete, ℤ, pos, negsuc,
  pos_part, neg_part, ◌<ℤ◌, ◌≤ℤ◌, ltb_ℤ, eqb_ℤ, eqb_ℤ→eq, ltb_ℤ-antisym, atoi, codes, codes_eq,
  trim_space, trim, to_lower, split, gather, All-select, All-of_select, All-of_sort_by, All-left,
  All-right, All-reverse, Each-reverse, gather-append, All-append, All-map_of, All-and,
  All-of_forall, Each-append, Each-and, gather-sort_by-perm, Each-sort_by, length-sort_by,
}
use kuvryn_sync.Resource.{Object, GroupVersions}

-- What the cluster's RESTMapper answers for the kind of an object.
pub data Mapping : Type 0 where
  mapped : Bool → Mapping
  no_match other_error : Mapping

-- The parts of a CustomResourceDefinition that count: `spec.group`, `spec.names.kind` and
-- `spec.scope`, empty where they are not there.
pub record Definition : Type 0 where
  pub group : String
  pub kind : String
  pub scope : String

-- `schema.GroupKind`, by which a map of the scopes is kept.
pub record GroupKind : Type 0 where
  pub group : String
  pub kind : String

abbrev kind_eq : GroupKind → GroupKind → Bool
kind_eq a b = a.group == b.group && a.kind == b.kind

pub record Scopes : Type 0 where
  pub mapper : Object → Mapping
  pub rendered : List (GroupKind × Bool)

-- `scopes.rendered[key] = namespaced`
put_scope : GroupKind → Bool → List (GroupKind × Bool) → List (GroupKind × Bool)
put_scope key namespaced [] = (key, namespaced) ∷ []
put_scope key namespaced ((other, scope) ∷ scopes) =
    let rest = put_scope key namespaced scopes in
    if kind_eq other key then (key, namespaced) ∷ scopes else (other, scope) ∷ rest

unfoldable pub scope_of : GroupKind → List (GroupKind × Bool) → Option Bool
scope_of key [] = none
scope_of key ((other, namespaced) ∷ scopes) =
    let rest = scope_of key scopes in if kind_eq other key then some namespaced else rest

scopes_from :
    (Object → Definition) → List (GroupKind × Bool) → List Object → List (GroupKind × Bool)
unfolding put_scope
scopes_from definition scopes [] = scopes
scopes_from definition scopes (obj ∷ objects) =
    let d = definition obj in
    let without = scopes_from definition scopes objects in
    let with =
      scopes_from definition
        (put_scope (record { group = d.group; kind = d.kind }) (not (d.scope == "Cluster")) scopes)
        objects in
    if obj.kind == "CustomResourceDefinition" && not (d.kind == "") then with else without

-- `NewScopes`
unfoldable pub new_scopes : (Object → Mapping) → (Object → Definition) → List Object → Scopes
unfolding scopes_from
new_scopes mapper definition rendered = record {
  mapper = mapper;
  rendered = scopes_from definition [] rendered;
}

-- An object's `GroupVersionKind().GroupKind()`, which is empty where the version does not parse.
unfoldable pub group_kind : GroupVersions → Object → GroupKind
group_kind gv obj = elim (gv.parse obj.api_version) [
  | none ↦ record { group = ""; kind = "" }
  | some (group, version) ↦ record { group = group; kind = obj.kind }
]

unfoldable pub scope_by : Option Bool → Mapping → Option Bool
scope_by rendered (mapped namespaced) = some namespaced
scope_by rendered no_match = rendered
scope_by rendered other_error = none

-- `Namespaced`; `none` is an error.
unfoldable pub is_namespaced : GroupVersions → Scopes → Object → Option Bool
unfolding scope_by scope_of group_kind
is_namespaced gv scopes obj =
    scope_by (scope_of (group_kind gv obj) scopes.rendered) (scopes.mapper obj)

-- An object in the namespace, if its kind is namespaced.
unfoldable pub placed : String → Option Bool → Object → Option Object
placed namespace none obj = none
placed namespace (some true) obj = some (record obj { namespace = namespace })
placed namespace (some false) obj = some obj

unfoldable pub cons_object : Option Object → Option (List Object) → Option (List Object)
cons_object none rest = none
cons_object (some obj) none = none
cons_object (some obj) (some objects) = some (obj ∷ objects)

-- The loop of `defaultDestinationNamespace`.
unfoldable pub place_all : GroupVersions → Scopes → String → List Object → Option (List Object)
unfolding placed cons_object
place_all gv scopes namespace [] = some []
place_all gv scopes namespace (obj ∷ objects) =
    cons_object
      (if not (obj.namespace == "")
        then some obj
        else placed namespace (is_namespaced gv scopes obj) obj)
      (place_all gv scopes namespace objects)

-- `defaultDestinationNamespace`; `none` is an error.
unfoldable pub default_destination_namespace :
    GroupVersions → Scopes → String → List Object → Option (List Object)
unfolding place_all
default_destination_namespace gv scopes namespace objects =
    if namespace == "" then some objects else place_all gv scopes namespace objects

pub record ResourceId : Type 0 where
  pub api_version : String
  pub kind : String
  pub namespace : String
  pub name : String

abbrev pub resource_eq : ResourceId → ResourceId → Bool
resource_eq a b =
    a.api_version == b.api_version
    && a.kind == b.kind
    && a.namespace == b.namespace
    && a.name == b.name

-- `identify`, with the destination namespace; `none` is an error.
unfoldable pub identify : String → Object → Option ResourceId
identify destination obj =
    let namespace = trim obj.namespace in
    if trim obj.api_version == "" || trim obj.kind == "" || trim obj.name == ""
    then none
    else if not (destination == "") && not (namespace == "") && not (namespace == destination)
    then none
    else some (record {
      api_version = trim obj.api_version;
      kind = trim obj.kind;
      namespace = if namespace == "" then destination else namespace;
      name = trim obj.name;
    })

abbrev pub seen_before : ResourceId → List ResourceId → Bool
seen_before id [] = false
seen_before id (other ∷ seen) = resource_eq other id || seen_before id seen

-- The loop of `Desired`, with the identities seen: whether the error is nil.
unfoldable pub desired_from : String → List ResourceId → List Object → Bool
desired_from destination seen [] = true
desired_from destination seen (obj ∷ objects) = elim (identify destination obj) [
  | none ↦ false
  | some id ↦ if seen_before id seen then false else desired_from destination (id ∷ seen) objects
]

-- `Desired`: whether the error is nil.
unfoldable pub desired : String → List Object → Bool
unfolding desired_from
desired destination objects = desired_from destination [] objects
