-- ===== src/Cart/Checkout.antt =====
-- `cart.Service.Checkout` (internal/cart/service.go): the draft becomes a pending order.
use fincart.Prelude.{String, List, [], ◌∷◌, not, str_eq}
use fincart.Prelude.Tests.{if◌then◌else◌}
use fincart.Prelude.Lists.{is_empty}
use fincart.Prelude.Int.{ℤ, pos, ltb_ℤ, add64, mul64, is_nonpositive}
use fincart.Order.Status.{pending}
use fincart.Order.Quantities.{Quantities, quantity_of, set_quantity, sort_ids}
use fincart.Store.Schema.{Order}
use fincart.Store.Monad.{
  cart_error, CartError, Env, M, pure, fail, ◌>>=◌, ◌>>◌, return_if, map_error,
}
use fincart.Database.{within_transaction}
use fincart.Product.Repository as Products
use fincart.Cart.Model.{Cart, Item}
use fincart.Cart.Repository
use fincart.Cart.Service.{own_product_error, on_no_rows, require_draft}

-- `productIDs`, one for each item.
unfoldable pub product_ids : List Item → List ℤ
product_ids [] = []
product_ids (item ∷ items) = item.product_id ∷ product_ids items

-- `quantities[item.ProductID] = item.Quantity`
unfoldable pub assign_quantities : List Item → Quantities → Quantities
unfolding set_quantity
assign_quantities [] m = m
assign_quantities (item ∷ items) m =
    assign_quantities items (set_quantity item.product_id item.quantity m)

-- The first loop: lock each product, test its stock and currency, add up the amount.
unfoldable pub price_cart : Env → Quantities → List ℤ → ℤ → String → M (ℤ × String)
price_cart env quantities [] total currency = pure (total, currency)
price_cart env quantities (id ∷ ids) total currency = do
  product ← map_error own_product_error (Products.get_by_id_for_update env id)
  let quantity = quantity_of id quantities
  return_if (ltb_ℤ product.stock quantity) (cart_error CartError.insufficient_stock)
  let agreed = if str_eq currency "" then product.currency else currency
  return_if (not (str_eq product.currency agreed)) (cart_error CartError.different_currency)
  price_cart env quantities ids (add64 total (mul64 product.price quantity)) agreed

-- The second loop: the price of each item becomes that of its product now.
unfoldable pub fix_prices : Env → ℤ → List Item → M (Unit {0})
fix_prices env order_id [] = pure tt
fix_prices env order_id (item ∷ items) = do
  product ← Products.get_by_id_for_update env item.product_id
  Repository.update_item_price env order_id item.product_id product.price
  fix_prices env order_id items

-- The third loop.
unfoldable pub decrease_all : Env → Quantities → List ℤ → M (Unit {0})
decrease_all env quantities [] = pure tt
decrease_all env quantities (id ∷ ids) = do
  Products.decrease_stock env id (quantity_of id quantities)
  decrease_all env quantities ids

-- The order that is returned.
unfoldable pub checked_out : Cart → ℤ → ℤ → String → Order
checked_out cart user_id total_amount currency = record {
  id = cart.id;
  user_id = user_id;
  status = pending;
  total_amount = total_amount;
  currency = currency;
  created_at = cart.created_at;
}

unfoldable pub checkout_body : Env → ℤ → M Order
checkout_body env user_id = do
  cart ← require_draft env user_id
  items ← Repository.get_items env cart.id
  return_if (is_empty items) (cart_error CartError.empty_cart)
  let ids = sort_ids (product_ids items)
  let quantities = assign_quantities items []
  (total, currency) ← price_cart env quantities ids (pos 0) ""
  fix_prices env cart.id items
  Repository.update_total env cart.id total currency
  decrease_all env quantities ids
  map_error (on_no_rows (cart_error CartError.cart_not_found)) (Repository.checkout env cart.id)
  pure (checked_out cart user_id total currency)

unfoldable pub checkout : Env → ℤ → M Order
checkout env user_id =
    if is_nonpositive user_id
    then fail (cart_error CartError.invalid_cart)
    else within_transaction env (checkout_body env user_id)
