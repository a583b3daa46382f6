-- ===== src/Inventory.antt =====
-- internal/applier/inventory.go: the objects that an Application manages, and `reconcileDelete` of
-- internal/controller/application_controller.go, which deletes them with the Application.
pub mod Released
pub mod Tests
use kuvryn_sync.Prelude.{
  ℕ, zero, suc, ◌+◌, ◌-◌, ◌*◌, ◌^◌, ◌≤◌, ◌<◌, min, String, str_append, ◌≡◌, refl, sym, ap, ◌∙◌, ◌≢◌,
  ◌↔◌, ◌⊎◌, inl, inr, Bool, true, false, not, ◌&&◌, ◌||◌, Option, none, some, List, [], ◌∷◌, ◌++◌,
  map, Perm, arith, ◌==◌, eq_iff, eq_refl, ltb, leb, eqb, if◌then◌else◌, is_none, ltb→lt, lt→ltb,
  leb→le, eqb→eq, tests, Bool-cases, Option-cases, length, take, drop, select, any, all,
  length-append, take-append-drop, length-take, length-drop, All, Any, Each, text_lt, text_lt-asym,
  text_lt_trans, text_lt-antisym, IsOrder, sort_by, IsSorted, sort_by-perm, All-sort_by,
  sort_by-IsSorted, or_empty, lookup, insert, delete, lookup-insert, lookup-delete, ℤ, pos, negsuc,
  pos_part, neg_part, ◌<ℤ◌, ltb_ℤ, eqb_ℤ, eqb_ℤ→eq, ltb_ℤ-antisym, atoi, codes, codes_eq,
  trim_space, trim, to_lower, split, gather, All-select, All-of_select, All-of_sort_by, All-left,
  All-right, All-reverse, Each-reverse, gather-append, All-append, All-map_of, All-and,
  All-of_forall, Each-append, Each-and, gather-sort_by-perm, Each-sort_by,
}
use kuvryn_sync.Resource.{Object, GroupVersions}
use kuvryn_sync.Ordering.{prune_order}
use kuvryn_sync.Prune
use kuvryn_sync.Prune.{Policy, prune_plan}

-- `schema.GroupVersionKind`
pub record Kind : Type 0 where
  pub group : String
  pub version : String
  pub kind : String

abbrev pub same_kind : Kind → Kind → Bool
same_kind a b = a.group == b.group && a.version == b.version && a.kind == b.kind

-- What a list of the objects of a kind answers: those in the destination namespace with the
-- Application's label.
pub data Listing : Type 0 where
  items : List Object → Listing
  unknown_kind forbidden_list failed_list : Listing

-- `seen[gvk] = struct{}{}`
add_kind : Kind → List Kind → List Kind
add_kind k [] = k ∷ []
add_kind k (other ∷ kinds) =
    let rest = add_kind k kinds in if same_kind other k then other ∷ kinds else other ∷ rest

-- `UnionKinds`. `text` is the `String` of a kind, by k8s.io/apimachinery.
unfoldable pub union_kinds : (Kind → String) → List Kind → List Kind
unfolding add_kind
union_kinds text kinds = sort_by (λ a b. text_lt (text a) (text b)) (seen_kinds [] kinds)
  where
    seen_kinds : List Kind → List Kind → List Kind
    seen_kinds seen [] = seen
    seen_kinds seen (k ∷ kinds) = seen_kinds (add_kind k seen) kinds

-- The recorded kinds whose version parses.
recorded_kinds : GroupVersions → List (String × String) → List Kind
recorded_kinds gv [] = []
recorded_kinds gv ((version, kind) ∷ recorded) =
    let rest = recorded_kinds gv recorded in
    elim (gv.parse version) [
      | none ↦ rest
      | some (group, v) ↦ record { group = group; version = v; kind = kind } ∷ rest
    ]

-- `InventoryKinds`, of the recorded kinds of the Application's status.
unfoldable pub inventory_kinds :
    GroupVersions → (Kind → String) → List (String × String) → List Kind
unfolding recorded_kinds
inventory_kinds gv text recorded = union_kinds text (recorded_kinds gv recorded)

abbrev pub default_kinds : List Kind
default_kinds =
    record { group = ""; version = "v1"; kind = "ConfigMap" }
    ∷ record { group = ""; version = "v1"; kind = "Secret" }
    ∷ record { group = ""; version = "v1"; kind = "Service" }
    ∷ record { group = "apps"; version = "v1"; kind = "Deployment" }
    ∷ record { group = "apps"; version = "v1"; kind = "StatefulSet" }
    ∷ record { group = "apps"; version = "v1"; kind = "DaemonSet" }
    ∷ []

-- The namespace of the Application that owns an object, by its label.
abbrev pub owner_namespace : Object → String
owner_namespace obj = or_empty (lookup "sync.kuvryn.io/application-namespace" obj.labels)

abbrev pub is_own : String → Object → Bool
is_own namespace obj = owner_namespace obj == "" || owner_namespace obj == namespace

-- The objects that were listed, and the kinds that may not be.
pub record Managed : Type 0 where
  pub objects : List Object
  pub skipped : List String

module _ (list : Kind → Listing) (exclude : Kind → Bool) (namespace : String) where
  -- The loop of `ListManaged`; `none` is an error.
  unfoldable pub list_kinds : Managed → List Kind → Option Managed
  list_kinds m [] = some m
  list_kinds m (k ∷ kinds) =
      let skipping = list_kinds m kinds in
      let refused = list_kinds (record m { skipped = m.skipped ++ k.kind ∷ [] }) kinds in
      if exclude k then skipping else elim (list k) [
        | items objects ↦
            list_kinds (record m { objects = m.objects ++ select (is_own namespace) objects }) kinds
        | unknown_kind ↦ skipping
        | forbidden_list ↦ refused
        | failed_list ↦ none
      ]

  -- `ListManaged`, of the kinds that the status records and that are desired.
  unfoldable pub list_managed :
      GroupVersions → (Kind → String) → List (String × String) → List Kind → Option Managed
  unfolding list_kinds
  list_managed gv text recorded desired_kinds =
      let known = union_kinds text (inventory_kinds gv text recorded ++ desired_kinds) in
      list_kinds (record { objects = []; skipped = [] })
        (elim recorded [ [] ↦ union_kinds text (known ++ default_kinds) | _ ∷ _ ↦ known ])

-- What the deletion of an Application did: the objects whose delete was asked for, and whether the
-- finalizer was removed. An error leaves it in place.
pub record Deletion : Type 0 where
  pub deletes : List Object
  pub is_released : Bool

-- `refuses` says which deletes fail, other than because the object is gone.
unfoldable pub delete_objects : (Object → Bool) → List Object → Deletion
delete_objects refuses [] = record { deletes = []; is_released = true }
delete_objects refuses (obj ∷ objects) =
    let rest = delete_objects refuses objects in
    if refuses obj
    then record { deletes = obj ∷ []; is_released = false }
    else record rest { deletes = obj ∷ rest.deletes }

delete_listed : (Object → Bool) → String → Option Managed → Deletion
unfolding delete_objects
delete_listed refuses application none = record { deletes = []; is_released = false }
delete_listed refuses application (some m) = delete_objects refuses (
    prune_order
      (prune_plan m.objects
        (record { application = application; allow_high_risk = true })).eligible)

-- `reconcileDelete` of an Application with the finalizer: whether it deletes what it manages, whether
-- its service account can be used, and what it manages.
unfoldable pub reconcile_delete : (Object → Bool) → String → Bool → Bool → Option Managed → Deletion
unfolding delete_listed
reconcile_delete refuses application deletes_managed has_tenant managed =
    if deletes_managed && has_tenant
    then delete_listed refuses application managed
    else record { deletes = []; is_released = true }
