-- ===== src/Server/Routes.antt =====
-- The router makes a step, whatever the request is.
use fincart.Prelude.{[], String, Bool, true, false, List}
use fincart.Store.Schema.{Db}
use fincart.Store.Monad.{Session}
use fincart.Http.Message.{World, Request, Handler}
use fincart.Http.Middleware.{middleware}
use fincart.Http.Mux.{split_path, select}
use fincart.Http.Router.{for_admins, new_router, serve}
use fincart.Http.Selecting.{done, ◌▹◌, serve_each}
use fincart.Server.Kept.{Kept}
use fincart.Server.Handlers.{
  Leaves, Handles, middleware-Handles, for_admins-Handles, get_products-Handles,
  get_product_by_id-Handles, create_product-Handles, update_product-Handles, delete_product-Handles,
  create_order-Handles, cancel_order-Handles, get_order-Handles, pay_order-Handles,
  list_orders-Handles, update_order_status-Handles, get_cart-Handles, add_item-Handles,
  update_item-Handles, delete_item-Handles, checkout-Handles, register-Handles, login-Handles,
  refresh-Handles, logout-Handles,
}

-- Nothing matched.
unmatched :
    {R : Db → Db → Type 0} (k : Kept R) (parts : List String) (known : Bool) (r : Request)
    (s : Session)
    → Leaves R s (select [] parts known r s)
unfolding select
unmatched k parts true r s = k.step.same s.db
unmatched k parts false r s = k.step.same s.db

pub serve-step :
    {R : Db → Db → Type 0} (k : Kept R) (w : World) (r : Request) (s : Session)
    → R s.db (serve w r s).1.db
unfolding new_router
serve-step {R} k w r s =
    let user : (next : Handler) → Handles R next → Handles R (middleware w next) =
      middleware-Handles k w in
    let admin : (next : Handler) → Handles R next → Handles R (for_admins w next) =
      for_admins-Handles k w in
    serve_each (Leaves R s) w r s (λ options. k.step.same s.db) (k.step.same s.db)
      (λ status. unmatched k (split_path r.path) status r s)
      ((λ v e m. get_products-Handles k w _ s)
        ▹ (λ v e m. get_product_by_id-Handles k w _ s)
        ▹ (λ v e m. register-Handles k w _ s)
        ▹ (λ v e m. login-Handles k w _ s)
        ▹ (λ v e m. refresh-Handles k w _ s)
        ▹ (λ v e m. logout-Handles k w _ s)
        ▹ (λ v e m. admin _ (create_product-Handles k w) _ s)
        ▹ (λ v e m. admin _ (update_product-Handles k w) _ s)
        ▹ (λ v e m. admin _ (delete_product-Handles k w) _ s)
        ▹ (λ v e m. user _ (create_order-Handles k w) _ s)
        ▹ (λ v e m. user _ (get_order-Handles k w) _ s)
        ▹ (λ v e m. user _ (cancel_order-Handles k w) _ s)
        ▹ (λ v e m. user _ (pay_order-Handles k w) _ s)
        ▹ (λ v e m. admin _ (list_orders-Handles k w) _ s)
        ▹ (λ v e m. admin _ (update_order_status-Handles k w) _ s)
        ▹ (λ v e m. user _ (get_cart-Handles k w) _ s)
        ▹ (λ v e m. user _ (add_item-Handles k w) _ s)
        ▹ (λ v e m. user _ (update_item-Handles k w) _ s)
        ▹ (λ v e m. user _ (delete_item-Handles k w) _ s)
        ▹ (λ v e m. user _ (checkout-Handles k w) _ s)
        ▹ done)
