-- ===== src/Dependencies/Unseen.antt =====
-- The names that the search for a cycle has seen, and how many are left; both are of
-- `dependencyCycle` in internal/controller/application_controller.go.
use kuvryn_sync.Prelude.{
  ℕ, suc, ◌≤◌, ◌<◌, String, ◌≡◌, true, false, some, List, [], ◌∷◌, arith, eq_iff, if◌then◌else◌,
  lookup,
}
use kuvryn_sync.Api.{Application}
use kuvryn_sync.Dependencies.{member}

abbrev pub keys : List (String × Application) → List String
keys [] = []
keys ((name, app) ∷ entries) = name ∷ keys entries

-- How many names of a list are not seen.
abbrev pub unseen : List String → List String → ℕ
unseen seen [] = 0
unseen seen (k ∷ ks) = if member k seen then unseen seen ks else suc (unseen seen ks)

abbrev pub Kept : List String → List String → Type 0
Kept seen more = (name : String) → member name seen ≡ true → member name more ≡ true

pub unseen-le : (seen more ks : List String) → Kept seen more → unseen more ks ≤ unseen seen ks
unseen-le seen more [] h = omega arith
unseen-le seen more (k ∷ ks) h = ground (arith, unseen-le seen more ks h, h k)

pub unseen-cons :
    (name : String) (seen ks : List String)
    → member name ks ≡ true
    → member name seen ≡ false
    → unseen (name ∷ seen) ks < unseen seen ks
unseen-cons name seen [] h k = ground arith
unseen-cons name seen (key ∷ ks) h k = ground (
  arith,
  unseen-cons name seen ks,
  unseen-le seen (name ∷ seen) ks,
  eq_iff key name,
  eq_iff name key,
  kept,
)
  where
    kept : Kept seen (name ∷ seen)
    kept other m = ground (arith, m)

pub member-keys :
    (name : String) (entries : List (String × Application)) (app : Application)
    → lookup name entries ≡ some app
    → member name (keys entries) ≡ true
unfolding lookup
member-keys name [] app h = ground arith
member-keys name ((key, item) ∷ entries) app h = ground (arith, member-keys name entries app)
