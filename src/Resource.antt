-- ===== src/Resource.antt =====
-- internal/resource/identity.go, and the view of a Kubernetes object that the other parts share.
-- An `unstructured.Unstructured` is what its accessors return; its remaining content enters where
-- a part reads it.
use kuvryn_sync.Prelude.{
  String, str_append, ◌≡◌, ◌↔◌, Bool, true, ◌&&◌, ◌||◌, Option, none, some, List, arith, ◌==◌,
  eq_iff, if◌then◌else◌,
}

pub record Object : Type 0 where
  pub api_version : String
  pub kind : String
  pub namespace : String
  pub name : String
  pub labels : List (String × String)
  pub annotations : List (String × String)

pub record ObjectId : Type 0 where
  pub group : String
  pub version : String
  pub kind : String
  pub namespace : String
  pub name : String

-- Go's `==` on two identities, as map keys compare them.
abbrev pub id_eq : ObjectId → ObjectId → Bool
id_eq a b =
    a.group == b.group
    && a.version == b.version
    && a.kind == b.kind
    && a.namespace == b.namespace
    && a.name == b.name

-- `schema.ParseGroupVersion` and `schema.GroupVersion.String`, of k8s.io/apimachinery.
pub record GroupVersions : Type 0 where
  pub parse : String → Option (String × String)
  pub format : String → String → String

module _ (gv : GroupVersions) where
  identity_of : Object → Option (String × String) → Option ObjectId
  identity_of obj none = none
  identity_of obj (some (group, version)) =
      if obj.kind == "" || obj.name == ""
      then none
      else some (record {
        group = group;
        version = version;
        kind = obj.kind;
        namespace = obj.namespace;
        name = obj.name;
      })

  -- `none` is an error: the apiVersion does not parse, or the kind or the name is missing.
  unfoldable pub from_object : Object → Option ObjectId
  unfolding identity_of
  from_object obj = identity_of obj (gv.parse obj.api_version)

  unfoldable pub api_version : ObjectId → String
  api_version id = gv.format id.group id.version

  unfoldable pub id_string : ObjectId → String
  unfolding api_version
  id_string id =
      let head = str_append (api_version id) (str_append "/" (str_append id.kind "/")) in
      if id.namespace == ""
      then str_append head id.name
      else str_append head (str_append id.namespace (str_append "/" id.name))

unfoldable pub qualified_name : ObjectId → String
qualified_name id =
    if id.namespace == "" then id.name else str_append id.namespace (str_append "/" id.name)

pub id_eq_iff : (a b : ObjectId) → (id_eq a b ≡ true) ↔ (a ≡ b)
id_eq_iff a b = ground (
  arith,
  eq_iff a.group b.group,
  eq_iff a.version b.version,
  eq_iff a.kind b.kind,
  eq_iff a.namespace b.namespace,
  eq_iff a.name b.name,
)
