-- ===== src/Http/Orders.antt =====
-- `order.Handler` (internal/order/handler.go).
use Prim.Native.Char.{code}
use Prim.Native.String.{[], ◌∷◌}
use fincart.Prelude.{String, str_eq}
use fincart.Prelude.Tests.{◌==◌, if◌then◌else◌}
use fincart.Prelude.Texts.{is_nil}
use fincart.Store.Monad.{Error, order_error, OrderError}
use fincart.Order.Service as Service
use fincart.Http.Message.{
  World, Request, Response, Handler, nothing, problem, order, order_with_items, orders, reply,
  respond, require, cause, parse_id, path_value,
}

abbrev pub unauthorized : Response
unauthorized = reply 401 (problem "unauthorized")

abbrev pub invalid_body : Response
invalid_body = reply 400 (problem "invalid_request_body")

abbrev pub invalid_id : Response
invalid_id = reply 400 (problem "invalid_order_id")

abbrev pub internal_error : Response
internal_error = reply 500 (problem "internal_server_error")

-- The switch of each handler on the service's error.
unfoldable pub create_order_problem : Error → Response
create_order_problem (order_error OrderError.invalid_order) = reply 400 (problem "invalid_order")
create_order_problem (order_error OrderError.insufficient_stock) =
    reply 409 (problem "insufficient_stock")
create_order_problem (order_error OrderError.product_not_found) =
    reply 404 (problem "product_not_found")
create_order_problem (order_error OrderError.different_currencies) =
    reply 400 (problem "different_currencies")
create_order_problem _ = internal_error

unfoldable pub cancel_order_problem : Error → Response
cancel_order_problem (order_error OrderError.invalid_order) = reply 400 (problem "invalid_order")
cancel_order_problem (order_error OrderError.order_not_found) =
    reply 404 (problem "order_not_found")
cancel_order_problem (order_error OrderError.invalid_order_state) =
    reply 409 (problem "invalid_order_state")
cancel_order_problem (order_error OrderError.order_forbidden) =
    reply 403 (problem "order_forbidden")
cancel_order_problem _ = internal_error

unfoldable pub get_order_problem : Error → Response
get_order_problem (order_error OrderError.invalid_order) = invalid_id
get_order_problem (order_error OrderError.order_not_found) = reply 404 (problem "order_not_found")
get_order_problem (order_error OrderError.order_forbidden) = reply 403 (problem "order_forbidden")
get_order_problem _ = internal_error

unfoldable pub pay_order_problem : Error → Response
pay_order_problem (order_error OrderError.invalid_order) = invalid_id
pay_order_problem (order_error OrderError.order_not_found) = reply 404 (problem "order_not_found")
pay_order_problem (order_error OrderError.order_forbidden) = reply 403 (problem "order_forbidden")
pay_order_problem (order_error OrderError.invalid_order_state) =
    reply 409 (problem "invalid_order_state")
pay_order_problem (order_error OrderError.payment_failed) = reply 402 (problem "payment_failed")
pay_order_problem (order_error OrderError.payment_timeout) = reply 504 (problem "payment_timeout")
pay_order_problem _ = internal_error

unfoldable pub update_status_problem : Error → Response
update_status_problem (order_error OrderError.invalid_order) = invalid_id
update_status_problem (order_error OrderError.order_not_found) =
    reply 404 (problem "order_not_found")
update_status_problem (order_error OrderError.invalid_order_state) =
    reply 409 (problem "invalid_order_state")
update_status_problem _ = internal_error

unfoldable pub create_order : World → Handler
create_order w r = require r.claims unauthorized (λ claims.
    require (w.decode.create_order r.body) invalid_body (λ items.
      respond (Service.create_order w.env claims.user_id items) (λ o. reply 201 (order o))
        (λ e. create_order_problem (cause e))))

-- `strings.TrimPrefix` and `strings.TrimSuffix`
unfoldable pub trim_prefix : String → String → String → String
trim_prefix whole [] s = s
trim_prefix whole (p ∷ prefix) [] = whole
trim_prefix whole (p ∷ prefix) (c ∷ s) =
    let rest = trim_prefix whole prefix s in if code p == code c then rest else whole

unfoldable pub trim_suffix : String → String → String
trim_suffix suffix [] = []
trim_suffix suffix (c ∷ s) =
    let rest = trim_suffix suffix s in if str_eq (c ∷ s) suffix then [] else c ∷ rest

-- The order's id, or what the path has in its place.
unfoldable pub order_id_string : Request → String
unfolding trim_prefix trim_suffix
order_id_string r =
    let id = path_value r "id" in
    if is_nil id then trim_suffix "/cancel" (trim_prefix r.path "/api/v1/orders/" r.path) else id

unfoldable pub cancel_order : World → Handler
unfolding order_id_string
cancel_order w r = require (parse_id (order_id_string r)) invalid_id (λ order_id.
    require r.claims unauthorized (λ claims.
      respond (Service.cancel_order w.env claims.user_id order_id) (λ _. reply 204 nothing)
        (λ e. cancel_order_problem (cause e))))

unfoldable pub get_order : World → Handler
get_order w r = require r.claims unauthorized (λ claims.
    require (parse_id (path_value r "id")) invalid_id (λ id.
      respond (Service.get_order w.env claims.user_id id)
        (λ found. reply 200 (order_with_items found.0 found.1)) (λ e. get_order_problem (cause e))))

unfoldable pub pay_order : World → Handler
pay_order w r = require (parse_id (path_value r "id")) invalid_id (λ order_id.
    require r.claims unauthorized (λ claims.
      respond (Service.pay_order w.env w.payment claims.user_id order_id) (λ _. reply 204 nothing)
        (λ e. pay_order_problem (cause e))))

unfoldable pub list_orders : World → Handler
list_orders w r =
    respond (Service.list_orders w.env) (λ found. reply 200 (orders found)) (λ e. internal_error)

unfoldable pub update_order_status : World → Handler
update_order_status w r = require (parse_id (path_value r "id")) invalid_id (λ order_id.
    require (w.decode.update_order_status r.body) invalid_body (λ status.
      respond (Service.update_order_status w.env order_id status) (λ _. reply 204 nothing)
        (λ e. update_status_problem (cause e))))
