-- ===== src/Goods.antt =====
-- Where the goods are: the units of a product on stock and in orders that hold them. This is the
-- abstract view of the tables that the services keep, and no definition of the source.
pub mod Laws
pub mod Statements
pub mod Statuses
pub mod Transactions
use fincart.Prelude.{ℕ, suc, Bool, true, false, Option, none, some, List, [], ◌∷◌, ◌≡◌, ◌&&◌}
use fincart.Prelude.Tests.{if◌then◌else◌}
use fincart.Prelude.Lists.{All}
use fincart.Prelude.Int.{ℤ, pos, ◌+ℤ◌, ◌≤ℤ◌, eqb_ℤ}
use fincart.Order.Status.{OrderStatus, draft, cancelled}
use fincart.Store.Schema.{Product, Order, OrderItem, Db}
use fincart.Store.Rows.{find_where, any_where}

-- An order in this status has taken its items from the stock.
unfoldable pub takes_stock : OrderStatus → Bool
takes_stock draft = false
takes_stock cancelled = false
takes_stock (OrderStatus.unknown s) = false
takes_stock _ = true

-- The order with this id is there and has taken its items from the stock.
unfoldable pub is_taken : List Order → ℤ → Bool
is_taken orders id = elim (find_where (λ o. eqb_ℤ o.id id) orders) [
  | none ↦ false
  | some o ↦ takes_stock o.status
]

-- The units of a product on stock.
unfoldable pub stock_of : ℤ → List Product → ℤ
stock_of id products = elim (find_where (λ p. eqb_ℤ p.id id) products) [
  | none ↦ pos 0
  | some p ↦ p.stock
]

-- The units of a product in one item, if its order passes the test.
unfoldable pub item_units : ℤ → (ℤ → Bool) → OrderItem → ℤ
item_units id taken i = if eqb_ℤ i.product_id id && taken i.order_id then i.quantity else pos 0

-- The units of a product in the items of the orders that pass the test.
unfoldable pub held : ℤ → (ℤ → Bool) → List OrderItem → ℤ
held id taken [] = pos 0
held id taken (i ∷ items) = item_units id taken i +ℤ held id taken items

-- All units of a product that the shop knows of.
unfoldable pub units : ℤ → Db → ℤ
units id db = stock_of id db.products +ℤ held id (is_taken db.orders) db.items

-- What the keys of the schema give: ids come from the sequences, and an item's order and product
-- are there.
pub record IsSound (db : Db) : Type 0 where
  pub orders_numbered : All (λ o. o.id ≤ℤ pos db.order_seq) db.orders
  pub items_numbered : All (λ i. i.order_id ≤ℤ pos db.order_seq) db.items
  pub items_stocked :
      All (λ i. any_where (λ p. eqb_ℤ p.id i.product_id) db.products ≡ true) db.items

-- The rows are sound, and the shop knows of n units of the product.
abbrev pub HasUnits : ℤ → ℤ → Db → Type 0
HasUnits id n db = IsSound db × (units id db ≡ n)
