-- ===== src/Http/Carts.antt =====
-- `cart.Handler` (internal/cart/handler.go).
use fincart.Prelude.{Option, none, some}
use fincart.Prelude.Tests.{if◌then◌else◌}
use fincart.Prelude.Int.{ℤ, is_nonpositive}
use fincart.Store.Monad.{Error, cart_error, CartError}
use fincart.Auth.Tokens.{Claims}
use fincart.Cart.Service as Service
use fincart.Cart.Checkout
use fincart.Http.Message.{
  World, Response, Handler, problem, order, cart, reply, respond, require, cause, parse_id,
  path_value,
}
use fincart.Http.Orders.{unauthorized, invalid_body, internal_error}

abbrev pub invalid_product_id : Response
invalid_product_id = reply 400 (problem "invalid_product_id")

-- `writeServiceError`
unfoldable pub service_problem : Error → Response
service_problem (cart_error CartError.invalid_cart) = reply 400 (problem "invalid_cart")
service_problem (cart_error CartError.invalid_quantity) = reply 400 (problem "invalid_cart")
service_problem (cart_error CartError.product_not_found) = reply 404 (problem "product_not_found")
service_problem (cart_error CartError.cart_not_found) = reply 404 (problem "cart_not_found")
service_problem (cart_error CartError.cart_item_not_found) =
    reply 404 (problem "cart_item_not_found")
service_problem (cart_error CartError.insufficient_stock) = reply 409 (problem "insufficient_stock")
service_problem (cart_error CartError.different_currency) =
    reply 400 (problem "different_currencies")
service_problem (cart_error CartError.empty_cart) = reply 409 (problem "empty_cart")
service_problem _ = internal_error

-- `userIDFromRequest`
unfoldable pub user_id_of : Option Claims → Option ℤ
user_id_of none = none
user_id_of (some claims) = if is_nonpositive claims.user_id then none else some claims.user_id

unfoldable pub get_cart : World → Handler
unfolding user_id_of
get_cart w r = require (user_id_of r.claims) unauthorized (λ user_id.
    respond (Service.get_cart w.env user_id) (λ c. reply 200 (cart c))
      (λ e. service_problem (cause e)))

unfoldable pub add_item : World → Handler
unfolding user_id_of
add_item w r = require (user_id_of r.claims) unauthorized (λ user_id.
    require (w.decode.add_item r.body) invalid_body (λ request.
      respond (Service.add_item w.env user_id request.0 request.1) (λ c. reply 200 (cart c))
        (λ e. service_problem (cause e))))

unfoldable pub update_item : World → Handler
unfolding user_id_of
update_item w r = require (user_id_of r.claims) unauthorized (λ user_id.
    require (parse_id (path_value r "product_id")) invalid_product_id (λ product_id.
      require (w.decode.update_item r.body) invalid_body (λ quantity.
        respond (Service.update_item w.env user_id product_id quantity) (λ c. reply 200 (cart c))
          (λ e. service_problem (cause e)))))

unfoldable pub delete_item : World → Handler
unfolding user_id_of
delete_item w r = require (user_id_of r.claims) unauthorized (λ user_id.
    require (parse_id (path_value r "product_id")) invalid_product_id (λ product_id.
      respond (Service.delete_item w.env user_id product_id) (λ c. reply 200 (cart c))
        (λ e. service_problem (cause e))))

unfoldable pub checkout : World → Handler
unfolding user_id_of
checkout w r = require (user_id_of r.claims) unauthorized (λ user_id.
    respond (Checkout.checkout w.env user_id) (λ o. reply 201 (order o))
      (λ e. service_problem (cause e)))
