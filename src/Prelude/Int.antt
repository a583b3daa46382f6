-- ===== src/Prelude/Int.antt =====
-- Signed integers over the native numbers, and Go's `strconv.Atoi`.
use Prim.Native.Nat.{ℕ, suc, ◌+◌, ◌-◌, ◌*◌, ◌^◌, ◌≤◌, ◌<◌}
use mathlib.Core.Path.{◌≡◌}
use mathlib.Core.Bool.{Bool, true, false, ◌&&◌}
use mathlib.Core.Option.{Option, none, some}
use mathlib.Core.List.{List, [], ◌∷◌}
use native.Mathlib.Omega.{arith}
use kuvryn_sync.Prelude.Tests.{ltb, leb, eqb, if◌then◌else◌}

-- `negsuc n` is -(n + 1).
pub data ℤ : Type 0 where
  pos : ℕ → ℤ
  negsuc : ℕ → ℤ

abbrev pub pos_part : ℤ → ℕ
pos_part (pos n) = n
pos_part (negsuc n) = 0

abbrev pub neg_part : ℤ → ℕ
neg_part (pos n) = 0
neg_part (negsuc n) = suc n

infix 50 ◌<ℤ◌
abbrev pub ◌<ℤ◌ : ℤ → ℤ → Type 0
a <ℤ b = pos_part a + neg_part b < pos_part b + neg_part a

infix 50 ◌≤ℤ◌
abbrev pub ◌≤ℤ◌ : ℤ → ℤ → Type 0
a ≤ℤ b = pos_part a + neg_part b ≤ pos_part b + neg_part a

abbrev pub ltb_ℤ : ℤ → ℤ → Bool
ltb_ℤ a b = ltb (pos_part a + neg_part b) (pos_part b + neg_part a)

abbrev pub eqb_ℤ : ℤ → ℤ → Bool
eqb_ℤ (pos a) (pos b) = eqb a b
eqb_ℤ (negsuc a) (negsuc b) = eqb a b
eqb_ℤ _ _ = false

pub eqb_ℤ→eq : (a b : ℤ) → eqb_ℤ a b ≡ true → a ≡ b
eqb_ℤ→eq (pos a) (pos b) h = ground arith
eqb_ℤ→eq (pos a) (negsuc b) h = cc
eqb_ℤ→eq (negsuc a) (pos b) h = cc
eqb_ℤ→eq (negsuc a) (negsuc b) h = ground arith

-- Integers of which neither is below the other are equal.
pub ltb_ℤ-antisym : (a b : ℤ) → ltb_ℤ a b ≡ false → ltb_ℤ b a ≡ false → a ≡ b
ltb_ℤ-antisym a b h k = ground arith

digits_from : ℕ → List ℕ → Option ℕ
digits_from n [] = some n
digits_from n (c ∷ s) =
    let rest = digits_from (n * 10 + (c - b'0')) s in
    if leb b'0' c && leb c b'9' then rest else none

digits : List ℕ → Option ℕ
digits [] = none
digits (c ∷ s) = digits_from 0 (c ∷ s)

-- The magnitude has to fit an `int` of 64 bits.
up_to : ℕ → Option ℕ → Option ℕ
up_to limit none = none
up_to limit (some n) = if leb n limit then some n else none

as_pos : Option ℕ → Option ℤ
as_pos none = none
as_pos (some n) = some (pos n)

as_neg : Option ℕ → Option ℤ
as_neg none = none
as_neg (some n) = some (if eqb n 0 then pos 0 else negsuc (n - 1))

-- `strconv.Atoi`: an optional sign and at least one decimal digit.
unfoldable pub atoi : List ℕ → Option ℤ
unfolding digits_from digits up_to as_pos as_neg
atoi [] = none
atoi (c ∷ s) =
    if eqb c b'-'
    then as_neg (up_to (2 ^ 63) (digits s))
    else if eqb c b'+'
    then as_pos (up_to (2 ^ 63 - 1) (digits s))
    else as_pos (up_to (2 ^ 63 - 1) (digits (c ∷ s)))
