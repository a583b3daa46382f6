-- ===== src/History/Newest.antt =====
-- internal/history/history.go: what history retention keeps.
use kuvryn_sync.Prelude.{
  ℕ, zero, suc, min, ◌≡◌, refl, ap, ◌∙◌, inl, inr, false, ◌||◌, List, [], ◌∷◌, ◌++◌, Perm, arith,
  leb, eqb, Bool-cases, length, take, drop, take-append-drop, length-take, All, text_lt-asym,
  text_lt_trans, IsOrder, sort_by, IsSorted, sort_by-perm, sort_by-IsSorted, ℤ, pos, negsuc,
  All-of_forall, length-sort_by,
}
use mathlib.Core.List.{append-nil}
use mathlib.Core.List.Perm
use kuvryn_sync.Api.{Revision}
use kuvryn_sync.History.{newer, Retention, retain, apply_retention}

pub newer-IsOrder : IsOrder newer
unfolding newer
newer-IsOrder = record {
  asym = λ a b h. ground (arith, text_lt-asym b.name a.name);
  trans = λ a b c h k. ground (arith, text_lt_trans c.name b.name a.name);
}

-- In a sorted list no member of the rest is before one of the beginning.
sorted_take-drop :
    (n : ℕ) (xs : List Revision)
    → IsSorted newer xs
    → All (λ k. All (λ d. newer d k ≡ false) (drop n xs)) (take n xs)
sorted_take-drop zero xs h = tt
sorted_take-drop (suc n) [] h = tt
sorted_take-drop (suc n) (x ∷ xs) h = (All-drop n x xs h.0, sorted_take-drop n xs h.1)
  where
    All-drop :
        (m : ℕ) (y : Revision) (ys : List Revision)
        → All (λ d. newer d y ≡ false) ys
        → All (λ d. newer d y ≡ false) (drop m ys)
    All-drop zero y ys k = k
    All-drop (suc m) y [] k = tt
    All-drop (suc m) y (z ∷ zs) k = All-drop m y zs k.1

abbrev pub NoneNewer : Retention → Type 0
NoneNewer r = All (λ k. All (λ d. newer d k ≡ false) r.delete) r.keep

All-none : (xs : List Revision) → All (λ k. All (λ d. newer d k ≡ false) []) xs
All-none xs = All-of_forall _ (λ x. tt) xs

-- How many of a history are kept: the whole of it where the limit is not positive.
abbrev pub kept : ℤ → ℕ → ℕ
kept (pos (suc n)) size = min (suc n) size
kept _ size = size

-- Retention keeps or deletes each Revision, as often as it was listed, and deletes none that is
-- newer than one it keeps. With a positive limit it keeps that many, or all where there are fewer;
-- with another limit it keeps all.
pub apply_retention-splits :
    (revisions : List Revision) (limit : ℤ)
    → let r = apply_retention revisions limit in
      Perm (r.keep ++ r.delete) revisions
      × NoneNewer r
      × (length r.keep ≡ kept limit (length revisions))
unfolding apply_retention
apply_retention-splits revisions limit = (
  Perm.trans (retain-all limit ordered) (sort_by-perm newer revisions),
  retain-NoneNewer limit ordered (sort_by-IsSorted newer newer-IsOrder revisions),
  length-retain limit ordered ∙ ap (kept limit) (length-sort_by newer revisions),
)
  where
    ordered : List Revision
    ordered = sort_by newer revisions

    retain-all : (z : ℤ) (xs : List Revision) → Perm ((retain z xs).keep ++ (retain z xs).delete) xs
    retain-all (negsuc n) xs = rw append-nil (Perm.refl _)
    retain-all (pos n) xs = elim (Bool-cases (eqb n 0 || leb (length xs) n)) [
      | inl e ↦ rw (e, append-nil) (Perm.refl _)
      | inr e ↦ rw (e, take-append-drop) (Perm.refl _)
    ]

    length-retain : (z : ℤ) (xs : List Revision) → length (retain z xs).keep ≡ kept z (length xs)
    length-retain (negsuc n) xs = refl
    length-retain (pos zero) xs = refl
    length-retain (pos (suc n)) xs = elim (Bool-cases (eqb (suc n) 0 || leb (length xs) (suc n))) [
      | inl e ↦ rw e (ground (arith, e))
      | inr e ↦ rw e (length-take (suc n) xs)
    ]

    retain-NoneNewer : (z : ℤ) (xs : List Revision) → IsSorted newer xs → NoneNewer (retain z xs)
    retain-NoneNewer (negsuc n) xs h = All-none xs
    retain-NoneNewer (pos n) xs h = elim (Bool-cases (eqb n 0 || leb (length xs) n)) [
      | inl e ↦ rw e (All-none xs)
      | inr e ↦ rw e (sorted_take-drop n xs h)
    ]
