-- ===== src/Prelude/Text.antt =====
-- The order of Go strings, which are native `String`s here.
use Prim.Native.Nat.{compare as compare_ℕ, Ordering}
use Prim.Native.Char.{Char, code}
use Prim.Native.String.{String, compare, then as then_ordering}
use Prim.Native.String.compare
use text.Mathlib.Text.{is_lt}
use text.Mathlib.TextEquality.{Char-path}
use mathlib.Core.Path.{◌≡◌, refl, ◌∙◌, ap}
use mathlib.Core.Bool.{Bool, true, false}
use native.Mathlib.Omega.{arith}

-- Go's `s < t`: the order of the code points, which for UTF-8 is the order of the bytes.
abbrev pub text_lt : String → String → Bool
text_lt s t = is_lt (compare s t)

-- Two comparisons, of code points and then of the rest, as `compare` makes them.
abbrev after : Ordering → Ordering → Ordering
after Ordering.lt o = Ordering.lt
after Ordering.eq o = o
after Ordering.gt o = Ordering.gt

compare_cons :
    (c d : Char) (s t : String)
    → compare (String.◌∷◌ c s) (String.◌∷◌ d t) ≡ after (compare_ℕ (code c) (code d)) (compare s t)
compare_cons c d s t = compare.cons-cons c d s t ∙ after-then (compare_ℕ (code c) (code d))
  where
    after-then : (o : Ordering) → then_ordering o (compare s t) ≡ after o (compare s t)
    after-then Ordering.lt = refl
    after-then Ordering.eq = refl
    after-then Ordering.gt = refl

module _ (c d : Char) (s t : String) where
  text_lt-cons :
      text_lt (String.◌∷◌ c s) (String.◌∷◌ d t)
      ≡ is_lt (after (compare_ℕ (code c) (code d)) (compare s t))
  text_lt-cons = ap is_lt (compare_cons c d s t)

text_lt-nil : (s : String) → text_lt s String.[] ≡ false
text_lt-nil String.[] = ap is_lt compare.nil-nil
text_lt-nil (String.◌∷◌ c s) = ap is_lt (compare.cons-nil c s)

text_lt-nil-cons : (d : Char) (t : String) → text_lt String.[] (String.◌∷◌ d t) ≡ true
text_lt-nil-cons d t = ap is_lt (compare.nil-cons d t)

-- No text is below one that is below it.
pub text_lt-asym : (s t : String) → text_lt s t ≡ true → text_lt t s ≡ false
text_lt-asym String.[] t h = text_lt-nil t
text_lt-asym (String.◌∷◌ c s) String.[] h = cc (text_lt-nil (String.◌∷◌ c s))
text_lt-asym (String.◌∷◌ c s) (String.◌∷◌ d t) h =
    ground (arith, text_lt-cons c d s t, text_lt-cons d c t s, text_lt-asym s t)

-- "Not below" is transitive.
pub text_lt_trans :
    (s t u : String) → text_lt t s ≡ false → text_lt u t ≡ false → text_lt u s ≡ false
text_lt_trans String.[] t u h k = text_lt-nil u
text_lt_trans (String.◌∷◌ c s) String.[] u h k = cc (text_lt-nil-cons c s)
text_lt_trans (String.◌∷◌ c s) (String.◌∷◌ d t) String.[] h k = cc (text_lt-nil-cons d t)
text_lt_trans (String.◌∷◌ c s) (String.◌∷◌ d t) (String.◌∷◌ e u) h k =
    ground
      (arith, text_lt-cons d c t s, text_lt-cons e d u t, text_lt-cons e c u s, text_lt_trans s t u)

-- Texts of which neither is below the other are equal.
pub text_lt-antisym : (s t : String) → text_lt s t ≡ false → text_lt t s ≡ false → s ≡ t
text_lt-antisym String.[] String.[] h k = refl
text_lt-antisym String.[] (String.◌∷◌ d t) h k = cc (text_lt-nil-cons d t)
text_lt-antisym (String.◌∷◌ c s) String.[] h k = cc (text_lt-nil-cons c s)
text_lt-antisym (String.◌∷◌ c s) (String.◌∷◌ d t) h k =
    λ i. String.◌∷◌ (Char-path c d same.0 i) (text_lt-antisym s t same.1 same.2 i)
  where
    same : (code c ≡ code d) × (text_lt s t ≡ false) × (text_lt t s ≡ false)
    same = ground (arith, text_lt-cons c d s t, text_lt-cons d c t s)
