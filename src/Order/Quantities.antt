-- ===== src/Order/Quantities.antt =====
-- The requested quantities by product, and the order in which the products are locked: the map
-- `quantities` of `CreateOrder` and `Checkout`, and `sort.Slice` on its keys.
use fincart.Prelude.{List, [], ◌∷◌, Option, none, some, ◌||◌}
use fincart.Prelude.Tests.{if◌then◌else◌}
use fincart.Prelude.Int.{ℤ, pos, eqb_ℤ, leb_ℤ, add64, is_nonpositive}

-- A map[int64]int, in the order in which the keys came in.
abbrev pub Quantities : Type 0
Quantities = List (ℤ × ℤ)

-- `quantities[k]`: 0 for a missing key.
unfoldable pub quantity_of : ℤ → Quantities → ℤ
quantity_of k [] = pos 0
quantity_of k ((j, q) ∷ m) = if eqb_ℤ j k then q else quantity_of k m

-- `quantities[k] = q`
unfoldable pub set_quantity : ℤ → ℤ → Quantities → Quantities
set_quantity k q [] = (k, q) ∷ []
set_quantity k q ((j, r) ∷ m) =
    let rest = set_quantity k q m in if eqb_ℤ j k then (j, q) ∷ m else (j, r) ∷ rest

-- The keys of the map.
unfoldable pub keys : Quantities → List ℤ
keys [] = []
keys ((k, q) ∷ m) = k ∷ keys m

unfoldable pub insert_id : ℤ → List ℤ → List ℤ
insert_id a [] = a ∷ []
insert_id a (b ∷ bs) = let rest = insert_id a bs in if leb_ℤ a b then a ∷ b ∷ bs else b ∷ rest

-- `sort.Slice(ids, <)`. Equal ids cannot be told apart, so any sort gives this list.
unfoldable pub sort_ids : List ℤ → List ℤ
unfolding insert_id
sort_ids [] = []
sort_ids (a ∷ as_) = insert_id a (sort_ids as_)

-- `order.CreateOrderItem`
pub record CreateOrderItem : Type 0 where
  pub product_id : ℤ
  pub quantity : ℤ

-- The loop over `request.Items`: `none` is its early return of ErrInvalidOrder.
unfoldable pub collect : List CreateOrderItem → Quantities → Option Quantities
unfolding quantity_of set_quantity add64 is_nonpositive
collect [] m = some m
collect (item ∷ items) m =
    let rest =
      collect items
        (set_quantity item.product_id (add64 (quantity_of item.product_id m) item.quantity) m) in
    if is_nonpositive item.product_id || is_nonpositive item.quantity then none else rest
