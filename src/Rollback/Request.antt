-- ===== src/Rollback/Request.antt =====
-- internal/controller/application_rollback.go: a request that is cleared is gone.
use kuvryn_sync.Prelude.{
  String, ◌≡◌, refl, ap, ◌∙◌, Bool, false, not, ◌||◌, Option, none, List, [], ◌∷◌, arith, ◌==◌,
  if◌then◌else◌, any, or_empty, lookup, delete, lookup-delete, trim,
}
use kuvryn_sync.Api.{Application}
use kuvryn_sync.Annotations.{rollback_revision}
use kuvryn_sync.Rollback.{
  rollback_request_of, is_active, request_keys, delete_all, clear_rollback_request,
}

abbrev pub removed : Bool → Option String → Option String
removed here o = if here then none else o

removed_twice : (a b : Bool) (o : Option String) → removed a (removed b o) ≡ removed (b || a) o
removed_twice a b o = ground arith

lookup-delete_all :
    (keys : List String) (m : List (String × String)) (j : String)
    → lookup j (delete_all keys m) ≡ removed (any (λ k. k == j) keys) (lookup j m)
unfolding delete_all
lookup-delete_all [] m j = refl
lookup-delete_all (key ∷ keys) m j =
    lookup-delete_all keys (delete key m) j
    ∙ ap (removed (any (λ k. k == j) keys)) (lookup-delete key j m)
    ∙ removed_twice (any (λ k. k == j) keys) (key == j) (lookup j m)

pub cleared :
    (application : Application) (j : String)
    → lookup j (clear_rollback_request application).annotations
      ≡ removed (any (λ k. k == j) request_keys) (lookup j application.annotations)
unfolding clear_rollback_request
cleared application j = lookup-delete_all request_keys application.annotations j

pub cleared-inactive :
    (application : Application)
    → is_active (rollback_request_of (clear_rollback_request application)) ≡ false
unfolding is_active rollback_request_of trim
cleared-inactive application =
    ap (λ o. not (trim (or_empty o) == "")) (cleared application rollback_revision)
