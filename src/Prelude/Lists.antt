-- ===== src/Prelude/Lists.antt =====
-- Lists measured by native numbers, and predicates on their members by recursion.
use Prim.Native.Nat.{ℕ, zero, suc, ◌+◌, ◌-◌, min}
use mathlib.Core.Path.{◌≡◌, refl, sym, ap, ◌∙◌}
use mathlib.Core.Logic.{◌⊎◌, inl, inr}
use mathlib.Core.Bool.{Bool, true, false, ◌&&◌, ◌||◌, false≢true}
use mathlib.Core.List.{List, [], ◌∷◌, ◌++◌, append_assoc, reverse, reverse-cons}
use native.Mathlib.Omega.{arith}
use kuvryn_sync.Prelude.Tests.{if◌then◌else◌, Bool-cases}

module _ {ℓ} {A : Type ℓ} where
  abbrev pub length : List A → ℕ
  length [] = 0
  length (x ∷ xs) = suc (length xs)

  abbrev pub take : ℕ → List A → List A
  take zero xs = []
  take (suc n) [] = []
  take (suc n) (x ∷ xs) = x ∷ take n xs

  abbrev pub drop : ℕ → List A → List A
  drop zero xs = xs
  drop (suc n) [] = []
  drop (suc n) (x ∷ xs) = drop n xs

  -- The members that pass a test, in order.
  abbrev pub select : (A → Bool) → List A → List A
  select p [] = []
  select p (x ∷ xs) = if p x then x ∷ select p xs else select p xs

  abbrev pub any : (A → Bool) → List A → Bool
  any p [] = false
  any p (x ∷ xs) = p x || any p xs

  abbrev pub all : (A → Bool) → List A → Bool
  all p [] = true
  all p (x ∷ xs) = p x && all p xs

  pub length-append : (xs ys : List A) → length (xs ++ ys) ≡ length xs + length ys
  length-append [] ys = omega arith
  length-append (x ∷ xs) ys = omega (arith, length-append xs ys)

  pub take-append-drop : (n : ℕ) (xs : List A) → take n xs ++ drop n xs ≡ xs
  take-append-drop zero xs = refl
  take-append-drop (suc n) [] = refl
  take-append-drop (suc n) (x ∷ xs) = rw (take-append-drop n xs)

  pub length-take : (n : ℕ) (xs : List A) → length (take n xs) ≡ min n (length xs)
  length-take zero xs = omega arith
  length-take (suc n) [] = omega arith
  length-take (suc n) (x ∷ xs) = omega (arith, length-take n xs)

  pub length-drop : (n : ℕ) (xs : List A) → length (drop n xs) ≡ length xs - n
  length-drop zero xs = omega arith
  length-drop (suc n) [] = omega arith
  length-drop (suc n) (x ∷ xs) = omega (arith, length-drop n xs)

-- `All` computes to nested pairs, `Any` to nested sums.
abbrev pub All {ℓ κ} : {A : Type ℓ} (P : A → Type κ) (members : List A) → Type κ
All P [] = Unit
All P (first ∷ rest) = P first × All P rest

abbrev pub Any {ℓ} : {A : Type ℓ} → (A → Type 0) → List A → Type 0
Any P [] = ⊥
Any P (x ∷ xs) = P x ⊎ Any P xs

-- Every member is related to each member behind it.
abbrev pub Each {ℓ κ} : {A : Type ℓ} → (A → A → Type κ) → List A → Type κ
Each R [] = Unit
Each R (x ∷ xs) = All (R x) xs × Each R xs

-- The lists that a function gives for the members, one behind the other.
abbrev pub gather {ℓ κ} : {A : Type ℓ} {B : Type κ} → (A → List B) → List A → List B
gather f [] = []
gather f (x ∷ xs) = f x ++ gather f xs

module _ {ℓ κ} {A : Type ℓ} {B : Type κ} where
  pub gather-append :
      (f : A → List B) (xs ys : List A) → gather f (xs ++ ys) ≡ gather f xs ++ gather f ys
  gather-append f [] ys = refl
  gather-append f (x ∷ xs) ys =
      ap (λ zs. f x ++ zs) (gather-append f xs ys)
      ∙ sym (append_assoc (f x) (gather f xs) (gather f ys))

module _ {ℓ κ} {A : Type ℓ} where
  pub All-append :
      (P : A → Type κ) (front back : List A) → All P front → All P back → All P (front ++ back)
  All-append P [] back f b = b
  All-append P (first ∷ front) back f b = (f.0, All-append P front back f.1 b)

  pub All-map_of : (P Q : A → Type κ) (f : (x : A) → P x → Q x) (xs : List A) → All P xs → All Q xs
  All-map_of P Q f [] h = tt
  All-map_of P Q f (x ∷ xs) h = (f x h.0, All-map_of P Q f xs h.1)

  pub All-and :
      (P Q R : A → Type κ) (f : (x : A) → P x → Q x → R x) (xs : List A)
      → All P xs
      → All Q xs
      → All R xs
  All-and P Q R f [] h k = tt
  All-and P Q R f (x ∷ xs) h k = (f x h.0 k.0, All-and P Q R f xs h.1 k.1)

  pub All-of_forall : (P : A → Type κ) (f : (x : A) → P x) (xs : List A) → All P xs
  All-of_forall P f [] = tt
  All-of_forall P f (x ∷ xs) = (f x, All-of_forall P f xs)

  pub Each-append :
      (R : A → A → Type κ) (xs ys : List A)
      → Each R xs
      → Each R ys
      → All (λ x. All (R x) ys) xs
      → Each R (xs ++ ys)
  Each-append R [] ys h k c = k
  Each-append R (x ∷ xs) ys h k c = (All-append (R x) xs ys h.0 c.0, Each-append R xs ys h.1 k c.1)

  pub Each-and :
      (R S T : A → A → Type κ) (f : (x y : A) → R x y → S x y → T x y) (xs : List A)
      → Each R xs
      → Each S xs
      → Each T xs
  Each-and R S T f [] h k = tt
  Each-and R S T f (x ∷ xs) h k =
      (All-and (R x) (S x) (T x) (f x) xs h.0 k.0, Each-and R S T f xs h.1 k.1)

module _ {ℓ κ} {A : Type ℓ} where
  pub All-reverse : (P : A → Type κ) (xs : List A) → All P xs → All P (reverse xs)
  All-reverse P [] h = tt
  All-reverse P (x ∷ xs) h =
      rw reverse-cons (All-append P (reverse xs) (x ∷ []) (All-reverse P xs h.1) (h.0, tt))

  pub Each-reverse :
      (R : A → A → Type κ) (xs : List A) → Each R xs → Each (λ x y. R y x) (reverse xs)
  Each-reverse R [] h = tt
  Each-reverse R (x ∷ xs) h = rw reverse-cons (
      Each-append (λ a b. R b a) (reverse xs) (x ∷ []) (Each-reverse R xs h.1) (tt, tt)
        (All-map_of (R x) (λ a. All (λ b. R b a) (x ∷ [])) (λ a p. (p, tt)) (reverse xs)
          (All-reverse (R x) xs h.0)))

  pub All-left : (P : A → Type κ) (xs ys : List A) → All P (xs ++ ys) → All P xs
  All-left P [] ys h = tt
  All-left P (x ∷ xs) ys h = (h.0, All-left P xs ys h.1)

  pub All-right : (P : A → Type κ) (xs ys : List A) → All P (xs ++ ys) → All P ys
  All-right P [] ys h = h
  All-right P (x ∷ xs) ys h = All-right P xs ys h.1

  pub All-of_select :
      (P : A → Type κ) (p : A → Bool) (xs : List A)
      → All P (select p xs)
      → All (λ x. p x ≡ true → P x) xs
  All-of_select P p [] h = tt
  All-of_select P p (x ∷ xs) h = elim (Bool-cases (p x)) [
    | inl e ↦ (λ q. (rw e at h).0, All-of_select P p xs (rw e at h).1)
    | inr e ↦ (λ q. absurd (false≢true (sym e ∙ q)), All-of_select P p xs (rw e at h))
  ]

module _ {ℓ} {A : Type ℓ} where
  -- What holds of the selected members, and what it says of all.
  pub All-select : (p : A → Bool) (xs : List A) → All (λ x. p x ≡ true) (select p xs)
  All-select p [] = tt
  All-select p (x ∷ xs) = elim (Bool-cases (p x)) [
    | inl e ↦ rw e (e, All-select p xs)
    | inr e ↦ rw e (All-select p xs)
  ]
