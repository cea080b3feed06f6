-- ===== src/Http/Router.antt =====
-- `Routes` and `NewRouter` (internal/httpserver/router.go), and the handler of the server in
-- cmd/api/main.go.
use fincart.Prelude.{String, List, [], ◌∷◌}
use fincart.Http.Message.{World, Handler}
use fincart.Http.Middleware.{middleware, require_role, cors}
use fincart.Http.Mux.{Entry, split_path, segments, serve_mux}
use fincart.Http.Orders
use fincart.Http.Carts
use fincart.Http.Products
use fincart.Http.Users

pub record Route : Type 0 where
  pub method : String
  pub path : String

abbrev pub route : String → String → Route
route method path = record { method = method; path = path }

unfoldable pub routes : List Route
routes =
    route "GET" "/api/v1/products"
    ∷ route "GET" "/api/v1/products/{id}"
    ∷ route "POST" "/api/v1/auth/register"
    ∷ route "POST" "/api/v1/auth/login"
    ∷ route "POST" "/api/v1/auth/refresh"
    ∷ route "POST" "/api/v1/auth/logout"
    ∷ route "POST" "/api/v1/admin/products"
    ∷ route "PATCH" "/api/v1/admin/products/{id}"
    ∷ route "DELETE" "/api/v1/admin/products/{id}"
    ∷ route "POST" "/api/v1/orders"
    ∷ route "GET" "/api/v1/orders/{id}"
    ∷ route "POST" "/api/v1/orders/{id}/cancel"
    ∷ route "POST" "/api/v1/orders/{id}/pay"
    ∷ route "GET" "/api/v1/admin/orders"
    ∷ route "PATCH" "/api/v1/admin/orders/{id}/status"
    ∷ route "GET" "/api/v1/cart"
    ∷ route "POST" "/api/v1/cart/items"
    ∷ route "PATCH" "/api/v1/cart/items/{product_id}"
    ∷ route "DELETE" "/api/v1/cart/items/{product_id}"
    ∷ route "POST" "/api/v1/cart/checkout"
    ∷ []

-- `mux.Handle` with a method and a path
unfoldable pub entry : String → String → Handler → Entry
unfolding segments split_path
entry method path handler = record {
  method = method;
  pattern = segments (split_path path);
  handler = handler;
}

-- `authMiddleware(adminMiddleware(...))`
unfoldable pub for_admins : World → Handler → Handler
for_admins w handler = middleware w (require_role "admin" handler)

unfoldable pub new_router : World → List Entry
unfolding entry for_admins
new_router w =
    entry "GET" "/api/v1/products" (Products.get_products w)
    ∷ entry "GET" "/api/v1/products/{id}" (Products.get_product_by_id w)
    ∷ entry "POST" "/api/v1/auth/register" (Users.register w)
    ∷ entry "POST" "/api/v1/auth/login" (Users.login w)
    ∷ entry "POST" "/api/v1/auth/refresh" (Users.refresh w)
    ∷ entry "POST" "/api/v1/auth/logout" (Users.logout w)
    ∷ entry "POST" "/api/v1/admin/products" (for_admins w (Products.create_product w))
    ∷ entry "PATCH" "/api/v1/admin/products/{id}" (for_admins w (Products.update_product w))
    ∷ entry "DELETE" "/api/v1/admin/products/{id}" (for_admins w (Products.delete_product w))
    ∷ entry "POST" "/api/v1/orders" (middleware w (Orders.create_order w))
    ∷ entry "GET" "/api/v1/orders/{id}" (middleware w (Orders.get_order w))
    ∷ entry "POST" "/api/v1/orders/{id}/cancel" (middleware w (Orders.cancel_order w))
    ∷ entry "POST" "/api/v1/orders/{id}/pay" (middleware w (Orders.pay_order w))
    ∷ entry "GET" "/api/v1/admin/orders" (for_admins w (Orders.list_orders w))
    ∷ entry "PATCH" "/api/v1/admin/orders/{id}/status" (for_admins w (Orders.update_order_status w))
    ∷ entry "GET" "/api/v1/cart" (middleware w (Carts.get_cart w))
    ∷ entry "POST" "/api/v1/cart/items" (middleware w (Carts.add_item w))
    ∷ entry "PATCH" "/api/v1/cart/items/{product_id}" (middleware w (Carts.update_item w))
    ∷ entry "DELETE" "/api/v1/cart/items/{product_id}" (middleware w (Carts.delete_item w))
    ∷ entry "POST" "/api/v1/cart/checkout" (middleware w (Carts.checkout w))
    ∷ []

-- The handler that the server runs: CORS around the router.
unfoldable pub serve : World → Handler
serve w = cors (serve_mux (new_router w))
