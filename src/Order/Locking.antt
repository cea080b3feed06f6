-- ===== src/Order/Locking.antt =====
-- Which products `CreateOrder` locks, and in which order.
use fincart.Prelude.{List, Bool}
use fincart.Prelude.Int.{ℤ, eqb_ℤ}
use fincart.Store.Rows.{any_where}
use fincart.Store.Rows.Keys.{Unlike}
use fincart.Order.Quantities.{Quantities, CreateOrderItem}

abbrev pub has : ℤ → List ℤ → Bool
has id ids = any_where (λ k. eqb_ℤ k id) ids

-- No id stands twice.
abbrev pub EachOnce : List ℤ → Type 0
EachOnce ids = Unlike (λ x y. eqb_ℤ y x) ids

-- A line of the request names the product.
abbrev pub named : ℤ → List CreateOrderItem → Bool
named id items = any_where (λ i. eqb_ℤ i.product_id id) items
