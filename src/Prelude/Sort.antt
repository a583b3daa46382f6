-- ===== src/Prelude/Sort.antt =====
-- Go's stable sort by a `less` function. `sort.SliceStable` and `slices.SortStableFunc` promise the
-- stable order, and the unstable sorts of the program compare keys that are distinct.
use mathlib.Core.List.Perm
use mathlib.Core.List.{List, [], ◌∷◌, ◌++◌, Perm, append_assoc, perm_append_comm}
use Prim.Native.Nat.{suc}
use mathlib.Core.Path.{◌≡◌, refl, ap, ◌∙◌}
use mathlib.Core.Bool.{Bool, true, false}
use mathlib.Core.Logic.{inl, inr}
use kuvryn_sync.Prelude.Tests.{if◌then◌else◌, Bool-cases}
use kuvryn_sync.Prelude.Lists.{length, All, Each, gather}

-- What `less` has to satisfy: no element is below one that is below it, and "not below" is
-- transitive.
pub record IsOrder {ℓ} {A : Type ℓ} (less : A → A → Bool) : Type ℓ where
  pub asym : (a b : A) → less a b ≡ true → less b a ≡ false
  pub trans : (a b c : A) → less b a ≡ false → less c b ≡ false → less c a ≡ false

module _ {ℓ} {A : Type ℓ} (less : A → A → Bool) where
  insert_by : A → List A → List A
  insert_by x [] = x ∷ []
  insert_by x (y ∷ ys) = let rest = insert_by x ys in if less y x then y ∷ rest else x ∷ y ∷ ys

  unfoldable pub sort_by : List A → List A
  unfolding insert_by
  sort_by [] = []
  sort_by (x ∷ xs) = insert_by x (sort_by xs)

  abbrev pub IsSorted : List A → Type 0
  IsSorted xs = Each (λ x y. less y x ≡ false) xs

module _ {ℓ} {A : Type ℓ} (less : A → A → Bool) where
  insert_by-perm : (x : A) (ys : List A) → Perm (insert_by less x ys) (x ∷ ys)
  unfolding insert_by
  insert_by-perm x [] = Perm.refl _
  insert_by-perm x (y ∷ ys) = elim (Bool-cases (less y x)) [
    | inl e ↦ rw e (Perm.trans (Perm.cons y (insert_by-perm x ys)) (Perm.swap x y ys))
    | inr e ↦ rw e (Perm.refl _)
  ]

  -- Sorting only rearranges.
  pub sort_by-perm : (xs : List A) → Perm (sort_by less xs) xs
  unfolding sort_by
  sort_by-perm [] = Perm.refl _
  sort_by-perm (x ∷ xs) =
      Perm.trans (insert_by-perm x (sort_by less xs)) (Perm.cons x (sort_by-perm xs))

  length-insert_by : (x : A) (ys : List A) → length (insert_by less x ys) ≡ suc (length ys)
  unfolding insert_by
  length-insert_by x [] = refl
  length-insert_by x (y ∷ ys) = elim (Bool-cases (less y x)) [
    | inl e ↦ rw e (ap (λ n. suc n) (length-insert_by x ys))
    | inr e ↦ rw e refl
  ]

  pub length-sort_by : (xs : List A) → length (sort_by less xs) ≡ length xs
  unfolding sort_by
  length-sort_by [] = refl
  length-sort_by (x ∷ xs) =
      length-insert_by x (sort_by less xs) ∙ ap (λ n. suc n) (length-sort_by xs)

All-insert_by {ℓ κ} :
    {A : Type ℓ} (less : A → A → Bool) (P : A → Type κ) (x : A) (ys : List A)
    → P x
    → All P ys
    → All P (insert_by less x ys)
unfolding insert_by
All-insert_by less P x [] p h = (p, h)
All-insert_by less P x (y ∷ ys) p h = elim (Bool-cases (less y x)) [
  | inl e ↦ rw e (h.0, All-insert_by less P x ys p h.1)
  | inr e ↦ rw e (p, h)
]

-- A predicate that holds of each member holds of each member of the sorted list.
pub All-sort_by {ℓ κ} :
    {A : Type ℓ} (less : A → A → Bool) (P : A → Type κ) (xs : List A)
    → All P xs
    → All P (sort_by less xs)
unfolding sort_by
All-sort_by less P [] h = h
All-sort_by less P (x ∷ xs) h =
    All-insert_by less P x (sort_by less xs) h.0 (All-sort_by less P xs h.1)

module _ {ℓ} {A : Type ℓ} (less : A → A → Bool) (o : IsOrder less) where
  lower :
      (x y : A) (ys : List A)
      → less y x ≡ false
      → All (λ z. less z y ≡ false) ys
      → All (λ z. less z x ≡ false) ys
  lower x y [] e h = h
  lower x y (z ∷ zs) e h = (o.trans x y z e h.0, lower x y zs e h.1)

  insert_by-IsSorted :
      (x : A) (ys : List A) → IsSorted less ys → IsSorted less (insert_by less x ys)
  unfolding insert_by
  insert_by-IsSorted x [] h = (tt, tt)
  insert_by-IsSorted x (y ∷ ys) h = elim (Bool-cases (less y x)) [
    | inl e ↦ rw e (
      All-insert_by less (λ z. less z y ≡ false) x ys (o.asym y x e) h.0,
      insert_by-IsSorted x ys h.1,
    )
    | inr e ↦ rw e ((e, lower x y ys e h.0), h)
  ]

  -- The sorted list is sorted.
  pub sort_by-IsSorted : (xs : List A) → IsSorted less (sort_by less xs)
  unfolding sort_by
  sort_by-IsSorted [] = tt
  sort_by-IsSorted (x ∷ xs) = insert_by-IsSorted x (sort_by less xs) (sort_by-IsSorted xs)

perm_swap_left {ℓ} : {A : Type ℓ} (xs ys zs : List A) → Perm (xs ++ (ys ++ zs)) (ys ++ (xs ++ zs))
perm_swap_left xs ys zs =
    rw (← append_assoc xs ys zs, ← append_assoc ys xs zs)
      (Perm.append_right zs (perm_append_comm xs ys))

-- What the members are made of is rearranged with them.
module _ {ℓ κ} {A : Type ℓ} {B : Type κ} (less : A → A → Bool) (f : A → List B) where
  gather-insert_by-perm :
      (x : A) (ys : List A) → Perm (gather f (insert_by less x ys)) (f x ++ gather f ys)
  unfolding insert_by
  gather-insert_by-perm x [] = Perm.refl _
  gather-insert_by-perm x (y ∷ ys) = elim (Bool-cases (less y x)) [
    | inl e ↦ rw e (
        Perm.trans (Perm.append_left (f y) (gather-insert_by-perm x ys))
          (perm_swap_left (f y) (f x) (gather f ys)))
    | inr e ↦ rw e (Perm.refl _)
  ]

  pub gather-sort_by-perm : (xs : List A) → Perm (gather f (sort_by less xs)) (gather f xs)
  unfolding sort_by
  gather-sort_by-perm [] = Perm.refl _
  gather-sort_by-perm (x ∷ xs) =
      Perm.trans (gather-insert_by-perm x (sort_by less xs))
        (Perm.append_left (f x) (gather-sort_by-perm xs))

-- A symmetric relation between the members does not depend on their order.
module _ {ℓ κ} {A : Type ℓ} (less : A → A → Bool) (R : A → A → Type κ)
    (symmetric : (x y : A) → R x y → R y x) where
  Each-insert_by : (x : A) (ys : List A) → All (R x) ys → Each R ys → Each R (insert_by less x ys)
  unfolding insert_by
  Each-insert_by x [] h k = (tt, tt)
  Each-insert_by x (y ∷ ys) h k = elim (Bool-cases (less y x)) [
    | inl e ↦
        rw e (All-insert_by less (R y) x ys (symmetric x y h.0) k.0, Each-insert_by x ys h.1 k.1)
    | inr e ↦ rw e (h, k)
  ]

  pub Each-sort_by : (xs : List A) → Each R xs → Each R (sort_by less xs)
  unfolding sort_by
  Each-sort_by [] h = tt
  Each-sort_by (x ∷ xs) h =
      Each-insert_by x (sort_by less xs) (All-sort_by less (R x) xs h.0) (Each-sort_by xs h.1)

-- And back: what holds of each member of the sorted list holds of each member.
module _ {ℓ κ} {A : Type ℓ} (less : A → A → Bool) (P : A → Type κ) where
  All-of_insert_by : (x : A) (ys : List A) → All P (insert_by less x ys) → P x × All P ys
  unfolding insert_by
  All-of_insert_by x [] h = (h.0, tt)
  All-of_insert_by x (y ∷ ys) h = elim (Bool-cases (less y x)) [
    | inl e ↦
        let k : All P (y ∷ insert_by less x ys) = rw e at h in
        ((All-of_insert_by x ys k.1).0, (k.0, (All-of_insert_by x ys k.1).1))
    | inr e ↦ let k : All P (x ∷ y ∷ ys) = rw e at h in (k.0, k.1)
  ]

  pub All-of_sort_by : (xs : List A) → All P (sort_by less xs) → All P xs
  unfolding sort_by
  All-of_sort_by [] h = tt
  All-of_sort_by (x ∷ xs) h =
      let (p, q) = All-of_insert_by x (sort_by less xs) h in (p, All-of_sort_by xs q)
