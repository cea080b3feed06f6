-- ===== src/Http/Products.antt =====
-- `product.Handler` (internal/product/handler.go).
use fincart.Store.Monad.{Error, product_error, ProductError}
use fincart.Product.Service as Service
use fincart.Http.Message.{
  World, Response, Handler, nothing, text, product, products, reply, respond, require, cause,
  parse_id, path_value,
}

abbrev pub invalid_id : Response
invalid_id = reply 400 (text "invalid product id")

abbrev pub invalid_body : Response
invalid_body = reply 400 (text "invalid request body")

abbrev pub internal_error : Response
internal_error = reply 500 (text "internal server error")

-- The tests of each handler on the service's error.
unfoldable pub get_product_problem : Error → Response
get_product_problem (product_error ProductError.product_not_found) =
    reply 404 (text "product not found")
get_product_problem (product_error ProductError.invalid_product) = invalid_id
get_product_problem _ = internal_error

unfoldable pub create_product_problem : Error → Response
create_product_problem (product_error ProductError.invalid_product) =
    reply 400 (text "invalid product")
create_product_problem _ = internal_error

unfoldable pub update_product_problem : Error → Response
update_product_problem (product_error ProductError.invalid_product) =
    reply 400 (text "invalid product")
update_product_problem (product_error ProductError.product_not_found) =
    reply 404 (text "product not found")
update_product_problem _ = internal_error

unfoldable pub delete_product_problem : Error → Response
delete_product_problem (product_error ProductError.invalid_product) = invalid_id
delete_product_problem (product_error ProductError.product_not_found) =
    reply 404 (text "product not found")
delete_product_problem _ = internal_error

unfoldable pub get_products : World → Handler
get_products w r =
    respond (Service.get_products w.env) (λ ps. reply 200 (products ps)) (λ e. internal_error)

unfoldable pub get_product_by_id : World → Handler
get_product_by_id w r = require (parse_id (path_value r "id")) invalid_id (λ id.
    respond (Service.get_product_by_id w.env id) (λ p. reply 200 (product p))
      (λ e. get_product_problem (cause e)))

unfoldable pub create_product : World → Handler
create_product w r = require (w.decode.product r.body) invalid_body (λ request.
    respond (Service.create_product w.env w.letters request) (λ p. reply 201 (product p))
      (λ e. create_product_problem (cause e)))

unfoldable pub update_product : World → Handler
update_product w r = require (parse_id (path_value r "id")) invalid_id (λ id.
    require (w.decode.product r.body) invalid_body (λ request.
      respond (Service.update_product w.env w.letters id request) (λ p. reply 200 (product p))
        (λ e. update_product_problem (cause e))))

unfoldable pub delete_product : World → Handler
delete_product w r = require (parse_id (path_value r "id")) invalid_id (λ id.
    respond (Service.delete_product w.env id) (λ _. reply 204 nothing)
      (λ e. delete_product_problem (cause e)))
