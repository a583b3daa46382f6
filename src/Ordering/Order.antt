-- ===== src/Ordering/Order.antt =====
-- internal/ordering/ordering.go: `Apply` and `Prune`.
use kuvryn_sync.Prelude.{
  ◌≤◌, ◌≡◌, false, List, [], ◌∷◌, Perm, arith, All, Each, text_lt-asym, text_lt_trans, IsOrder,
  IsSorted, sort_by-perm, sort_by-IsSorted,
}
use kuvryn_sync.Resource.{Object}
use kuvryn_sync.Ordering.{layer, identity, apply_less, apply_order}

-- Layer and identity, compared in this order, make an order.
pub apply_less-IsOrder : IsOrder apply_less
unfolding apply_less
apply_less-IsOrder = record {
  asym = λ a b h. ground (arith, text_lt-asym (identity a) (identity b));
  trans = λ a b c h k. ground (arith, text_lt_trans (identity a) (identity b) (identity c));
}

-- The apply order has exactly the given objects, as often as they were given, and no object stands
-- behind one that `less` puts after it.
pub apply_order-sorts :
    (objects : List Object)
    → Perm (apply_order objects) objects × IsSorted apply_less (apply_order objects)
unfolding apply_order
apply_order-sorts objects =
    (sort_by-perm apply_less objects, sort_by-IsSorted apply_less apply_less-IsOrder objects)

layer_of_less : (a b : Object) → apply_less b a ≡ false → layer a ≤ layer b
unfolding apply_less
layer_of_less a b h = ground arith

All-layers :
    (a : Object) (bs : List Object)
    → All (λ b. apply_less b a ≡ false) bs
    → All (λ b. layer a ≤ layer b) bs
All-layers a [] h = tt
All-layers a (b ∷ bs) h = (layer_of_less a b h.0, All-layers a bs h.1)

Each-layers : (xs : List Object) → IsSorted apply_less xs → Each (λ a b. layer a ≤ layer b) xs
Each-layers [] h = tt
Each-layers (a ∷ bs) h = (All-layers a bs h.0, Each-layers bs h.1)

-- In the apply order the layers never fall, so what others depend on comes first.
pub apply_order-layers :
    (objects : List Object) → Each (λ a b. layer a ≤ layer b) (apply_order objects)
apply_order-layers objects = Each-layers _ (apply_order-sorts objects).1
