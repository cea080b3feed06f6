-- ===== src/Server/Integrity/Requests.antt =====
-- The keys of the schema over time.
use fincart.Prelude.{List}
use fincart.Store.Monad.{Session}
use fincart.Http.Message.{World, Request}
use fincart.Server.Kept.{Kept}
use fincart.Server.Requests.{serve_all, serve_all-step}
use fincart.Server.Integrity.{IsConsistent, Upholds, Upholds-step}
use fincart.Server.Integrity.Orders.{
  insert_order-Upholds, set_status-Upholds, set_total-Upholds, set_pending-Upholds,
}
use fincart.Server.Integrity.Items.{
  insert_item-Upholds, set_item_quantity-Upholds, set_item_price-Upholds, remove_item-Upholds,
}
use fincart.Server.Integrity.Products.{
  set_stock-Upholds, insert_product-Upholds, update_product-Upholds, delete_product-Upholds,
}
use fincart.Server.Integrity.Accounts.{
  insert_user-Upholds, insert_token-Upholds, revoke_token-Upholds,
}

pub upholds : Kept Upholds
upholds = record {
  step = Upholds-step;
  order_inserted = insert_order-Upholds;
  item_inserted = λ row d free. insert_item-Upholds row d;
  status_set = set_status-Upholds;
  stock_set = set_stock-Upholds;
  product_inserted = insert_product-Upholds;
  product_updated = update_product-Upholds;
  product_deleted = delete_product-Upholds;
  quantity_set = set_item_quantity-Upholds;
  item_removed = remove_item-Upholds;
  total_set = set_total-Upholds;
  pending_set = set_pending-Upholds;
  price_set = set_item_price-Upholds;
  user_inserted = insert_user-Upholds;
  token_inserted = insert_token-Upholds;
  token_revoked = revoke_token-Upholds;
}

-- Whatever requests the server gets, in any order and with any database calls failing, the rows stay
-- consistent: products, orders and accounts have ids of their own, emails and token hashes are
-- unique, no user has two carts, and the user of an order or a token and the order and the product
-- of an item are there.
pub serve_all-IsConsistent :
    (requests : List (World × Request)) (s : Session)
    → IsConsistent s.db
    → IsConsistent (serve_all requests s).db
serve_all-IsConsistent requests s = (serve_all-step upholds requests s).consistent
