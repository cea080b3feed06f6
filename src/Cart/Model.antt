-- ===== src/Cart/Model.antt =====
-- The models of internal/cart/model.go.
use fincart.Prelude.{ℕ, String, List, []}
use fincart.Prelude.Int.{ℤ, pos}
use fincart.Order.Status.{OrderStatus}
use fincart.Store.Schema.{Product, Order, OrderItem}

-- `cart.Item`: an order item with the columns of its product.
pub record Item : Type 0 where
  pub id : ℤ
  pub product_id : ℤ
  pub quantity : ℤ
  pub unit_price : ℤ
  pub name : String
  pub description : String
  pub currency : String
  pub stock : ℤ

-- `cart.Cart`
pub record Cart : Type 0 where
  pub id : ℤ
  pub user_id : ℤ
  pub status : OrderStatus
  pub total_amount : ℤ
  pub currency : String
  pub created_at : ℕ
  pub items : List Item

-- `Cart{}`
unfoldable pub zero_cart : Cart
zero_cart = record {
  id = pos 0;
  user_id = pos 0;
  status = OrderStatus.unknown "";
  total_amount = pos 0;
  currency = "";
  created_at = 0;
  items = [];
}

-- The columns of a draft, scanned into a cart; the items are not read here.
unfoldable pub of_row : Order → Cart
of_row o = record {
  id = o.id;
  user_id = o.user_id;
  status = o.status;
  total_amount = o.total_amount;
  currency = o.currency;
  created_at = o.created_at;
  items = [];
}

-- One row of the join of order items with products.
unfoldable pub joined : OrderItem → Product → Item
joined i p = record {
  id = i.id;
  product_id = i.product_id;
  quantity = i.quantity;
  unit_price = i.unit_price;
  name = p.name;
  description = p.description;
  currency = p.currency;
  stock = p.stock;
}
