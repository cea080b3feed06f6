-- ===== src/Server/Kept.antt =====
-- The statements that change rows, as the services use them: what holds of each of them is what any
-- sequence of requests does to the database.
use fincart.Prelude.{ℕ, String, Bool, ◌≡◌, ◌⊎◌, ◌&&◌, true, some}
use fincart.Prelude.Int.{ℤ, eqb_ℤ}
use fincart.Order.Status.{OrderStatus, pending, status_eq, can_transition}
use fincart.Store.Schema.{Product, Order, OrderItem, Db}
use fincart.Store.Rows.{find_where, any_where, select_where}
use fincart.Store.Monad.{err, no_rows}
use fincart.Store.Insert.{insert_order, insert_item}
use fincart.Order.Repository.{set_status}
use fincart.Product.Repository.{set_stock, insert_product, update_product, delete_product}
use fincart.Cart.Repository.{
  is_item, first_row, join, set_item_quantity, remove_item, set_total, set_pending, set_item_price,
}
use fincart.User.Model.{role_user}
use fincart.User.Repository.{insert_user}
use fincart.Auth.Repository.{insert_token, revoke_token}
use fincart.Server.Steps.{IsStep}

abbrev pub is_pending : ℤ → Order → Bool
is_pending id o = eqb_ℤ o.id id && status_eq o.status pending

-- Where the services add an item: to an order that waits for its payment, or in a cart in which they
-- have not found it.
abbrev pub Addable : OrderItem → Db → Type 0
Addable row d =
    (any_where (is_pending row.order_id) d.orders ≡ true)
    ⊎ (first_row (join d.products (select_where (is_item row.order_id row.product_id) d.items))
        ≡ err no_rows)

-- Each statement makes a step. The status is only ever set along the life cycle, from that of the
-- row that was read, and the role of an account only ever to `user`.
pub record Kept (R : Db → Db → Type 0) : Type 0 where
  pub step : IsStep R
  pub order_inserted : (row : Order) (d : Db) → R d (insert_order row d).1
  pub item_inserted : (row : OrderItem) (d : Db) → Addable row d → R d (insert_item row d).1
  pub status_set :
      (id : ℤ) (status : OrderStatus) (o : Order) (d : Db)
      → find_where (λ o. eqb_ℤ o.id id) d.orders ≡ some o
      → can_transition o.status status ≡ true
      → R d (set_status id status d).1
  pub stock_set :
      (id quantity : ℤ) (change : ℤ → ℤ) (d : Db) → R d (set_stock id quantity change d).1
  pub product_inserted : (row : Product) (d : Db) → R d (insert_product row d).1
  pub product_updated : (row : Product) (d : Db) → R d (update_product row d).1
  pub product_deleted : (id : ℤ) (d : Db) → R d (delete_product id d).1
  pub quantity_set :
      (order_id product_id quantity : ℤ) (d : Db)
      → R d (set_item_quantity order_id product_id quantity d).1
  pub item_removed : (order_id product_id : ℤ) (d : Db) → R d (remove_item order_id product_id d).1
  pub total_set :
      (order_id total_amount : ℤ) (currency : String) (d : Db)
      → R d (set_total order_id total_amount currency d).1
  pub pending_set : (order_id : ℤ) (d : Db) → R d (set_pending order_id d).1
  pub price_set :
      (order_id product_id unit_price : ℤ) (d : Db)
      → R d (set_item_price order_id product_id unit_price d).1
  pub user_inserted :
      (now : ℕ) (email password_hash : String) (d : Db)
      → R d (insert_user now email password_hash role_user d).1
  pub token_inserted :
      (now : ℕ) (user_id : ℤ) (token_hash : String) (expires_at : ℕ) (d : Db)
      → R d (insert_token now user_id token_hash expires_at d).1
  pub token_revoked : (now : ℕ) (id : ℤ) (d : Db) → R d (revoke_token now id d).1
