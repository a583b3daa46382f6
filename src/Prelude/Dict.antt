-- ===== src/Prelude/Dict.antt =====
-- Go's maps with string keys, as association lists: a read takes the first entry of its key, and
-- `none` is a missing key.
use Prim.Native.String.{String}
use text.Mathlib.Text.{◌==◌}
use text.Mathlib.TextEquality.{eq_iff}
use mathlib.Core.Path.{refl, ◌≡◌}
use mathlib.Core.Option.{Option, none, some}
use mathlib.Core.List.{List, [], ◌∷◌}
use native.Mathlib.Omega.{arith}
use kuvryn_sync.Prelude.Tests.{if◌then◌else◌}

-- `m[key]` for a map of strings: the empty string where there is no entry.
abbrev pub or_empty : Option String → String
or_empty none = ""
or_empty (some s) = s

module _ {ℓ} {Value : Type ℓ} where
  unfoldable pub lookup : String → List (String × Value) → Option Value
  lookup key [] = none
  lookup key ((name, item) ∷ rest) =
      let found = lookup key rest in if name == key then some item else found

  -- `m[key] = value`
  unfoldable pub insert : String → Value → List (String × Value) → List (String × Value)
  insert key value [] = (key, value) ∷ []
  insert key value ((name, item) ∷ rest) =
      let changed = insert key value rest in
      if name == key then (key, value) ∷ rest else (name, item) ∷ changed

  -- `delete(m, key)`
  unfoldable pub delete : String → List (String × Value) → List (String × Value)
  delete key [] = []
  delete key ((name, item) ∷ rest) =
      let others = delete key rest in if name == key then others else (name, item) ∷ others

  -- A read after a write has what was written, and else what it had.
  pub lookup-insert :
      (key asked : String) (value : Value) (entries : List (String × Value))
      → lookup asked (insert key value entries)
        ≡ (if key == asked then some value else lookup asked entries)
  unfolding insert lookup
  lookup-insert key asked value [] = refl
  lookup-insert key asked value ((name, item) ∷ rest) = ground (
    arith,
    lookup-insert key asked value rest,
    eq_iff name asked,
    eq_iff name key,
    eq_iff key asked,
  )

  -- A read after a removal.
  pub lookup-delete :
      (key asked : String) (entries : List (String × Value))
      → lookup asked (delete key entries) ≡ (if key == asked then none else lookup asked entries)
  unfolding delete lookup
  lookup-delete key asked [] = ground arith
  lookup-delete key asked ((name, item) ∷ rest) =
      ground
        (arith, lookup-delete key asked rest, eq_iff name asked, eq_iff name key, eq_iff key asked)
