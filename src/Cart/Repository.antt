-- ===== src/Cart/Repository.antt =====
-- `cart.PostgresRepository` (internal/cart/postgres_repository.go).
use fincart.Prelude.{String, Bool, List, [], ◌∷◌, Option, none, some, not, ◌&&◌}
use fincart.Prelude.Tests.{if◌then◌else◌}
use fincart.Prelude.Int.{ℤ, pos, eqb_ℤ, leb_ℤ, ltb_ℤ, in_int4}
use fincart.Order.Status.{draft, pending, status_eq}
use fincart.Store.Schema.{Product, Order, OrderItem, Db}
use fincart.Store.Rows.{find_where, select_where, update_where, delete_where, any_where}
use fincart.Store.Insert.{insert_order, insert_item, fits_currency}
use fincart.Store.Monad.{
  Result, ok, err, CartError, cart_error, no_rows, violation, check, out_of_range, Env, M,
  statement,
}
use fincart.Cart.Model.{Cart, Item, zero_cart, of_row, joined}

-- The rows of the WHERE clauses.
abbrev pub is_draft_of : ℤ → Order → Bool
is_draft_of user_id o = eqb_ℤ o.user_id user_id && status_eq o.status draft

abbrev pub is_draft : ℤ → Order → Bool
is_draft id o = eqb_ℤ o.id id && status_eq o.status draft

abbrev pub is_item : ℤ → ℤ → OrderItem → Bool
is_item order_id product_id i = eqb_ℤ i.order_id order_id && eqb_ℤ i.product_id product_id

-- No row is an empty cart here, and no error.
unfoldable pub draft_or_zero : Option Order → Result Cart
draft_or_zero none = ok zero_cart
draft_or_zero (some o) = ok (of_row o)

unfoldable pub get_draft : Env → ℤ → M Cart
unfolding draft_or_zero
get_draft env user_id =
    statement env (λ db. (draft_or_zero (find_where (is_draft_of user_id) db.orders), db))

unfoldable pub returned_draft : Result Order × Db → Result Cart × Db
returned_draft (ok o, db) = (ok (of_row o), db)
returned_draft (err e, db) = (err e, db)

unfoldable pub new_draft : Env → ℤ → Order
new_draft env user_id = record {
  id = pos 0;
  user_id = user_id;
  status = draft;
  total_amount = pos 0;
  currency = "";
  created_at = env.now;
}

unfoldable pub create_draft : Env → ℤ → M Cart
unfolding new_draft returned_draft
create_draft env user_id =
    statement env (λ db. returned_draft (insert_order (new_draft env user_id) db))

-- The join: an item without a product gives no row.
unfoldable pub join : List Product → List OrderItem → List Item
unfolding joined
join products [] = []
join products (i ∷ items) =
    let rest = join products items in
    elim (find_where (λ p. eqb_ℤ p.id i.product_id) products) [
      | none ↦ rest
      | some p ↦ joined i p ∷ rest
    ]

unfoldable pub first_row : List Item → Result Item
first_row [] = err no_rows
first_row (i ∷ items) = ok i

unfoldable pub get_item : Env → ℤ → ℤ → M Item
unfolding first_row join
get_item env order_id product_id =
    statement env (λ db.
      (first_row (join db.products (select_where (is_item order_id product_id) db.items)), db))

unfoldable pub added_row : ℤ → ℤ → ℤ → ℤ → OrderItem
added_row order_id product_id quantity unit_price = record {
  id = pos 0;
  order_id = order_id;
  product_id = product_id;
  quantity = quantity;
  unit_price = unit_price;
}

-- The columns that RETURNING names; the rest of the `Item` stays zero.
unfoldable pub returned_item : Result OrderItem × Db → Result Item × Db
returned_item (ok i, db) = (
  ok (record {
    id = i.id;
    product_id = i.product_id;
    quantity = i.quantity;
    unit_price = i.unit_price;
    name = "";
    description = "";
    currency = "";
    stock = pos 0;
  }),
  db,
)
returned_item (err e, db) = (err e, db)

unfoldable pub add_item : Env → ℤ → ℤ → ℤ → ℤ → M Item
unfolding added_row returned_item
add_item env order_id product_id quantity unit_price =
    statement env
      (λ db. returned_item (insert_item (added_row order_id product_id quantity unit_price) db))

-- SET quantity = ...: no row that matches is ErrNoRows.
unfoldable pub set_item_quantity : ℤ → ℤ → ℤ → Db → Result (Unit {0}) × Db
set_item_quantity order_id product_id quantity db =
    if not (in_int4 quantity)
    then (err (violation out_of_range), db)
    else if not (any_where (is_item order_id product_id) db.items)
    then (err no_rows, db)
    else if leb_ℤ quantity (pos 0)
    then (err (violation check), db)
    else (
      ok tt,
      record db {
        items =
            update_where (is_item order_id product_id) (λ i. record i { quantity = quantity })
              db.items;
      },
    )

unfoldable pub update_item : Env → ℤ → ℤ → ℤ → M (Unit {0})
unfolding set_item_quantity
update_item env order_id product_id quantity =
    statement env (set_item_quantity order_id product_id quantity)

unfoldable pub remove_item : ℤ → ℤ → Db → Result (Unit {0}) × Db
remove_item order_id product_id db =
    if any_where (is_item order_id product_id) db.items
    then (ok tt, record db { items = delete_where (is_item order_id product_id) db.items })
    else (err no_rows, db)

unfoldable pub delete_item : Env → ℤ → ℤ → M (Unit {0})
unfolding remove_item
delete_item env order_id product_id = statement env (remove_item order_id product_id)

unfoldable pub get_items : Env → ℤ → M (List Item)
unfolding join
get_items env order_id =
    statement env
      (λ db. (ok (join db.products (select_where (λ i. eqb_ℤ i.order_id order_id) db.items)), db))

unfoldable pub set_total : ℤ → ℤ → String → Db → Result (Unit {0}) × Db
set_total order_id total_amount currency db =
    if any_where (is_draft order_id) db.orders && not (fits_currency currency)
    then (err (violation out_of_range), db)
    else (
      ok tt,
      record db {
        orders =
            update_where (is_draft order_id)
              (λ o. record o { total_amount = total_amount; currency = currency }) db.orders;
      },
    )

unfoldable pub update_total : Env → ℤ → ℤ → String → M (Unit {0})
unfolding set_total
update_total env order_id total_amount currency =
    statement env (set_total order_id total_amount currency)

unfoldable pub set_pending : ℤ → Db → Result (Unit {0}) × Db
set_pending order_id db =
    if any_where (is_draft order_id) db.orders
    then (
      ok tt,
      record db {
        orders = update_where (is_draft order_id) (λ o. record o { status = pending }) db.orders;
      },
    )
    else (err no_rows, db)

unfoldable pub checkout : Env → ℤ → M (Unit {0})
unfolding set_pending
checkout env order_id = statement env (set_pending order_id)

unfoldable pub found_draft : Option Order → Result Cart
found_draft none = err (cart_error CartError.cart_not_found)
found_draft (some o) = ok (of_row o)

unfoldable pub get_draft_by_id : Env → ℤ → M Cart
unfolding found_draft
get_draft_by_id env order_id =
    statement env (λ db. (found_draft (find_where (is_draft order_id) db.orders), db))

unfoldable pub set_item_price : ℤ → ℤ → ℤ → Db → Result (Unit {0}) × Db
set_item_price order_id product_id unit_price db =
    if any_where (is_item order_id product_id) db.items && ltb_ℤ unit_price (pos 0)
    then (err (violation check), db)
    else (
      ok tt,
      record db {
        items =
            update_where (is_item order_id product_id) (λ i. record i { unit_price = unit_price })
              db.items;
      },
    )

unfoldable pub update_item_price : Env → ℤ → ℤ → ℤ → M (Unit {0})
unfolding set_item_price
update_item_price env order_id product_id unit_price =
    statement env (set_item_price order_id product_id unit_price)
