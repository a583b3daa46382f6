-- ===== src/Desired/Tests.antt =====
-- Runs and examples for the namespaces and the validity of rendered objects.
use kuvryn_sync.Prelude.{
  ◌≡◌, refl, ◌↔◌, true, false, not, some, List, [], ◌∷◌, ◌==◌, if◌then◌else◌, All, Each, trim,
}
use kuvryn_sync.Samples.{group_versions, web, config}
use kuvryn_sync.Resource.{Object}
use kuvryn_sync.Desired.{
  Mapping, mapped, no_match, Scopes, new_scopes, is_namespaced, default_destination_namespace,
  identify, desired,
}
use kuvryn_sync.Desired.Namespaces.{IsPlaced, default_destination_namespace-desired}
use kuvryn_sync.Desired.Unique.{IsNamed, Differ, desired_iff}

-- A definition of a kind without a namespace, an object of that kind, and one that has no namespace
-- yet.
abbrev crd : Object
crd = record config {
  api_version = "apps/v1";
  kind = "CustomResourceDefinition";
  name = "rooms";
  namespace = "";
}

abbrev room : Object
room = record config { api_version = "apps/v1"; kind = "Room"; name = "blue"; namespace = "" }

abbrev loose : Object
loose = record config { name = "loose"; namespace = "" }

abbrev rendered : List Object
rendered = crd ∷ room ∷ loose ∷ web ∷ []

abbrev mapper : Object → Mapping
mapper o =
    if o.kind == "Room" then no_match else mapped (not (o.kind == "CustomResourceDefinition"))

abbrev scopes : Scopes
scopes =
    new_scopes mapper (λ o. record { group = "apps"; kind = "Room"; scope = "Cluster" }) rendered

abbrev filled_in : List Object
filled_in = crd ∷ room ∷ record loose { namespace = "shop" } ∷ web ∷ []

fills_in : default_destination_namespace group_versions scopes "shop" rendered ≡ some filled_in
unfolding default_destination_namespace is_namespaced new_scopes
fills_in = refl

valid : desired "shop" filled_in ≡ true
unfolding desired identify trim
valid = refl

invalid_twice : desired "shop" (config ∷ web ∷ record config { namespace = " " } ∷ []) ≡ false
unfolding desired identify trim
invalid_twice = refl

default_destination_namespace-desired_example :
    All (IsPlaced group_versions scopes "shop") filled_in
default_destination_namespace-desired_example =
    default_destination_namespace-desired group_versions scopes "shop" rendered filled_in refl
      fills_in valid

desired_iff_example :
    (desired "shop" filled_in ≡ true)
    ↔ (All (IsNamed "shop") filled_in × Each (Differ "shop") filled_in)
desired_iff_example = desired_iff "shop" filled_in
