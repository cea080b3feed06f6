-- ===== src/Store/Schema.antt =====
-- The rows of the tables that migrations/*.sql create, as the models of the packages read them,
-- and the state of the database. A table is the list of its rows in the order of their ids.
use fincart.Prelude.{ℕ, String, Option, List}
use fincart.Prelude.Int.{ℤ}
use fincart.Order.Status.{OrderStatus}

-- `product.Product` (the table's `created_at` is never read)
pub record Product : Type 0 where
  pub id : ℤ
  pub name : String
  pub description : String
  pub price : ℤ
  pub currency : String
  pub stock : ℤ

-- `user.User`; `password_hash` may be NULL
pub record User : Type 0 where
  pub id : ℤ
  pub email : String
  pub password_hash : Option String
  pub role : String
  pub created_at : ℕ

-- `order.Order`
pub record Order : Type 0 where
  pub id : ℤ
  pub user_id : ℤ
  pub status : OrderStatus
  pub total_amount : ℤ
  pub currency : String
  pub created_at : ℕ

-- `order.OrderItem`
pub record OrderItem : Type 0 where
  pub id : ℤ
  pub order_id : ℤ
  pub product_id : ℤ
  pub quantity : ℤ
  pub unit_price : ℤ

-- `auth.RefreshToken`; `revoked_at` may be NULL
pub record RefreshToken : Type 0 where
  pub id : ℤ
  pub user_id : ℤ
  pub token_hash : String
  pub expires_at : ℕ
  pub created_at : ℕ
  pub revoked_at : Option ℕ

-- The tables, and the last value that each BIGSERIAL sequence gave out.
pub record Db : Type 0 where
  pub products : List Product
  pub orders : List Order
  pub items : List OrderItem
  pub users : List User
  pub tokens : List RefreshToken
  pub product_seq : ℕ
  pub order_seq : ℕ
  pub item_seq : ℕ
  pub user_seq : ℕ
  pub token_seq : ℕ
