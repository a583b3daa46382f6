-- ===== src/Prelude/Codes.antt =====
-- Where the program looks inside a string, the string is walked as the list of its code points:
-- Go's `strings.TrimSpace`, `strings.ToLower` and `strings.Split`.
use Prim.Native.Nat.{ℕ, ◌+◌}
use Prim.Native.Char.{Char, code}
use Prim.Native.String.{String}
use mathlib.Core.Bool.{Bool, true, false, ◌&&◌, ◌||◌}
use mathlib.Core.List.{List, [], ◌∷◌, ◌++◌, map, reverse}
use kuvryn_sync.Prelude.Tests.{leb, eqb, if◌then◌else◌}
use kuvryn_sync.Prelude.Lists.{any}

abbrev pub codes : (text : String) → List ℕ
codes String.[] = []
codes (String.◌∷◌ letter text) = code letter ∷ codes text

-- Equality of two lists of code points.
unfoldable pub codes_eq : List ℕ → List ℕ → Bool
codes_eq [] [] = true
codes_eq [] (d ∷ t) = false
codes_eq (c ∷ s) [] = false
codes_eq (c ∷ s) (d ∷ t) = eqb c d && codes_eq s t

-- `unicode.IsSpace`.
is_space : ℕ → Bool
is_space c =
    leb 9 c && leb c 13
    || eqb c 32
    || leb 0x2000 c && leb c 0x200a
    || any (eqb c) (0x85 ∷ 0xa0 ∷ 0x1680 ∷ 0x2028 ∷ 0x2029 ∷ 0x202f ∷ 0x205f ∷ 0x3000 ∷ [])

trim_left : List ℕ → List ℕ
trim_left [] = []
trim_left (c ∷ s) = if is_space c then trim_left s else c ∷ s

-- `strings.TrimSpace`.
unfoldable pub trim_space : List ℕ → List ℕ
unfolding is_space trim_left
trim_space s = reverse (trim_left (reverse (trim_left s)))

trim_start : String → String
trim_start String.[] = String.[]
trim_start (String.◌∷◌ c s) = if is_space (code c) then trim_start s else String.◌∷◌ c s

-- A space is left out where nothing stays behind it.
trim_cons : Char → String → String
trim_cons c String.[] = if is_space (code c) then String.[] else String.◌∷◌ c String.[]
trim_cons c (String.◌∷◌ d s) = String.◌∷◌ c (String.◌∷◌ d s)

trim_end : String → String
trim_end String.[] = String.[]
trim_end (String.◌∷◌ c s) = trim_cons c (trim_end s)

-- `strings.TrimSpace`, to a string.
unfoldable pub trim : String → String
unfolding is_space trim_start trim_cons trim_end
trim s = trim_end (trim_start s)

-- `unicode.ToLower`, as far as its result is ASCII: besides the capital letters the two capitals
-- outside ASCII, U+0130 and U+212A, fall on ASCII letters. Any other character falls on none, and
-- stays as it is here: the program compares what it lowers with ASCII words only.
lower_code : ℕ → ℕ
lower_code c =
    if leb b'A' c && leb c b'Z'
    then c + 32
    else if eqb c 0x130
    then b'i'
    else if eqb c 0x212a
    then b'k'
    else c

unfoldable pub to_lower : List ℕ → List ℕ
unfolding lower_code
to_lower = map lower_code

split_from : ℕ → List ℕ → List ℕ → List (List ℕ)
split_from sep part [] = part ∷ []
split_from sep part (c ∷ s) =
    let split = part ∷ split_from sep [] s in
    let longer = split_from sep (part ++ c ∷ []) s in if eqb c sep then split else longer

-- `strings.Split` at a separator of one character.
unfoldable pub split : ℕ → List ℕ → List (List ℕ)
unfolding split_from
split sep s = split_from sep [] s
