-- ===== src/Order/Repository.antt =====
-- `order.PostgresRepository` (internal/order/postgres_repository.go).
use mathlib.Core.List.{reverse}
use fincart.Prelude.{Bool, List, Option, none, some, ◌&&◌, not}
use fincart.Prelude.Tests.{if◌then◌else◌}
use fincart.Prelude.Int.{ℤ, eqb_ℤ}
use fincart.Order.Status.{OrderStatus, draft, status_eq}
use fincart.Store.Schema.{Order, OrderItem, Db}
use fincart.Store.Rows.{find_where, select_where, update_where, any_where}
use fincart.Store.Insert.{insert_order, insert_item}
use fincart.Store.Monad.{
  Result, ok, err, order_error, order_not_found, violation, unique, Env, M, statement,
}

abbrev pub has_id : ℤ → Order → Bool
has_id id o = eqb_ℤ o.id id

-- The answer of a query for one order.
unfoldable pub found : Option Order → Result Order
found none = err (order_error order_not_found)
found (some o) = ok o

-- The row gets its id and `created_at` from the server.
unfoldable pub create : Env → Order → M Order
unfolding statement insert_order
create env order = statement env (insert_order (record order { created_at = env.now }))

unfoldable pub create_item : Env → OrderItem → M OrderItem
unfolding statement insert_item
create_item env item = statement env (insert_item item)

unfoldable pub get_by_id_for_update : Env → ℤ → M Order
unfolding statement found
get_by_id_for_update env id = statement env (λ db. (found (find_where (has_id id) db.orders), db))

unfoldable pub get_by_id : Env → ℤ → M Order
unfolding statement found
get_by_id env id = statement env (λ db. (found (find_where (has_id id) db.orders), db))

abbrev pub in_order : ℤ → OrderItem → Bool
in_order order_id i = eqb_ℤ i.order_id order_id

unfoldable pub get_items : Env → ℤ → M (List OrderItem)
unfolding statement
get_items env order_id = statement env (λ db. (ok (select_where (in_order order_id) db.items), db))

-- Another draft of the same user, which a second draft would meet in the unique index.
unfoldable pub second_draft : ℤ → List Order → Bool
second_draft id orders =
    any_where
      (λ o.
        has_id id o
        && any_where
            (λ other.
              not (eqb_ℤ other.id id)
              && eqb_ℤ other.user_id o.user_id
              && status_eq other.status draft)
            orders)
      orders

unfoldable pub set_status : ℤ → OrderStatus → Db → Result (Unit {0}) × Db
set_status id status db =
    if status_eq status draft && second_draft id db.orders then (err (violation unique), db) else (
      ok tt,
      record db { orders = update_where (has_id id) (λ o. record o { status = status }) db.orders },
    )

unfoldable pub update_status : Env → ℤ → OrderStatus → M (Unit {0})
unfolding statement set_status
update_status env order_id status = statement env (set_status order_id status)

-- ORDER BY id DESC
unfoldable pub list : Env → M (List Order)
unfolding statement
list env = statement env (λ db. (ok (reverse db.orders), db))
