-- ===== src/Order/Service.antt =====
-- `order.Service` (internal/order/service.go), over the repositories of orders and products.
use fincart.Prelude.{String, List, [], ◌∷◌, ◌++◌, Option, none, some, not, ◌||◌, str_eq}
use fincart.Prelude.Tests.{if◌then◌else◌}
use fincart.Prelude.Int.{ℤ, pos, eqb_ℤ, ltb_ℤ, add64, mul64, is_nonpositive}
use fincart.Prelude.Lists.{is_empty}
use fincart.Payment.{PaymentResult, success, failed, timeout}
use fincart.Order.Status.{
  OrderStatus, pending, paid, cancelled, of_string, is_valid, status_eq, can_transition,
}
use fincart.Order.Quantities.{Quantities, CreateOrderItem, collect, keys, sort_ids, quantity_of}
use fincart.Order.Repository
use fincart.Product.Repository as Products
use fincart.Store.Schema.{Product, Order, OrderItem}
use fincart.Store.Monad.{
  Error, ok, err, order_error, product_error, ProductError, OrderError, PaymentService, Env, M,
  pure, fail, ◌>>=◌, ◌>>◌, return_if, map_error,
}
use fincart.Database.{within_transaction}

-- `errors.Is(err, product.ErrProductNotFound)` becomes the order package's own error.
abbrev pub own_product_error : Error → Error
own_product_error (product_error ProductError.product_not_found) =
    order_error OrderError.product_not_found
own_product_error e = e

-- The variables of the pricing loop.
pub record Priced : Type 0 where
  pub products : List Product
  pub total_amount : ℤ
  pub currency : String

-- The loop over `productIDs`: lock each product, test its stock and currency, add up the amount.
unfoldable pub price_products : Env → Quantities → List ℤ → Priced → M Priced
price_products env quantities [] acc = pure acc
price_products env quantities (id ∷ ids) acc = do
  product ← map_error own_product_error (Products.get_by_id_for_update env id)
  let quantity = quantity_of id quantities
  return_if (ltb_ℤ product.stock quantity) (order_error OrderError.insufficient_stock)
  let currency = if str_eq acc.currency "" then product.currency else acc.currency
  return_if (not (str_eq product.currency currency)) (order_error OrderError.different_currencies)
  price_products env quantities ids (record {
    products = acc.products ++ product ∷ [];
    total_amount = add64 acc.total_amount (mul64 product.price quantity);
    currency = currency;
  })

-- The row for one product of the order; its id comes from the server.
unfoldable pub order_item : ℤ → ℤ → Product → OrderItem
order_item order_id quantity product = record {
  id = pos 0;
  order_id = order_id;
  product_id = product.id;
  quantity = quantity;
  unit_price = product.price;
}

-- The loop over `products`: write the item, take the stock.
unfoldable pub write_items : Env → Quantities → ℤ → List Product → M (Unit {0})
write_items env quantities order_id [] = pure tt
write_items env quantities order_id (product ∷ products) = do
  let quantity = quantity_of product.id quantities
  Repository.create_item env (order_item order_id quantity product)
  Products.decrease_stock env product.id quantity
  write_items env quantities order_id products

abbrev pub nothing_priced : Priced
nothing_priced = record { products = []; total_amount = pos 0; currency = "" }

-- The order that is handed to `Repository.Create`.
unfoldable pub new_order : ℤ → Priced → Order
new_order user_id priced = record {
  id = pos 0;
  user_id = user_id;
  status = pending;
  total_amount = priced.total_amount;
  currency = priced.currency;
  created_at = 0;
}

-- The function that `CreateOrder` runs in the transaction.
unfoldable pub place_order : Env → ℤ → Quantities → M Order
place_order env user_id quantities = do
  priced ← price_products env quantities (sort_ids (keys quantities)) nothing_priced
  created ← Repository.create env (new_order user_id priced)
  write_items env quantities created.id priced.products
  pure created

-- The order is placed if the loop over the requested items went through.
unfoldable pub place_collected : Env → ℤ → Option Quantities → M Order
place_collected env user_id none = fail (order_error OrderError.invalid_order)
place_collected env user_id (some quantities) =
    within_transaction env (place_order env user_id quantities)

unfoldable pub create_order : Env → ℤ → List CreateOrderItem → M Order
create_order env user_id items =
    if is_nonpositive user_id || is_empty items
    then fail (order_error OrderError.invalid_order)
    else place_collected env user_id (collect items [])

-- The loop over an order's items that gives the stock back.
unfoldable pub return_stock : Env → List OrderItem → M (Unit {0})
return_stock env [] = pure tt
return_stock env (item ∷ items) = do
  Products.increase_stock env item.product_id item.quantity
  return_stock env items

-- The order, locked and found to be the user's own and pending.
unfoldable pub own_pending : Env → ℤ → ℤ → M Order
own_pending env user_id order_id = do
  current ← Repository.get_by_id_for_update env order_id
  return_if (not (eqb_ℤ current.user_id user_id)) (order_error OrderError.order_forbidden)
  return_if (not (status_eq current.status pending)) (order_error OrderError.invalid_order_state)
  pure current

unfoldable pub cancel_body : Env → ℤ → ℤ → M (Unit {0})
cancel_body env user_id order_id = do
  current ← own_pending env user_id order_id
  items ← Repository.get_items env order_id
  return_stock env items
  Repository.update_status env order_id cancelled

unfoldable pub cancel_order : Env → ℤ → ℤ → M (Unit {0})
cancel_order env user_id order_id =
    if is_nonpositive user_id || is_nonpositive order_id
    then fail (order_error OrderError.invalid_order)
    else within_transaction env (cancel_body env user_id order_id)

unfoldable pub get_order_body : Env → ℤ → ℤ → M (Order × List OrderItem)
get_order_body env user_id order_id = do
  order ← Repository.get_by_id env order_id
  return_if (not (eqb_ℤ order.user_id user_id)) (order_error OrderError.order_forbidden)
  items ← Repository.get_items env order_id
  pure (order, items)

unfoldable pub get_order : Env → ℤ → ℤ → M (Order × List OrderItem)
get_order env user_id order_id =
    if is_nonpositive user_id || is_nonpositive order_id
    then fail (order_error OrderError.invalid_order)
    else within_transaction env (get_order_body env user_id order_id)

unfoldable pub list_orders : Env → M (List Order)
list_orders env = within_transaction env (Repository.list env)

unfoldable pub update_status_body : Env → ℤ → OrderStatus → M (Unit {0})
update_status_body env order_id status = do
  current ← Repository.get_by_id_for_update env order_id
  return_if (not (can_transition current.status status))
      (order_error OrderError.invalid_order_state)
  Repository.update_status env order_id status

unfoldable pub update_order_status : Env → ℤ → String → M (Unit {0})
update_order_status env order_id status =
    if is_nonpositive order_id
    then fail (order_error OrderError.invalid_order)
    else if not (is_valid (of_string status))
    then fail (order_error OrderError.invalid_order_state)
    else within_transaction env (update_status_body env order_id (of_string status))

-- A call of the payment service; what it answers goes on record.
unfoldable pub pay : PaymentService → Order → M PaymentResult
pay service order s = elim (service.pay order.id order.total_amount order.currency) [
  | err e ↦ (err e, s)
  | ok result ↦ (
    ok result,
    record s {
      charges =
          record {
            order_id = order.id;
            amount = order.total_amount;
            currency = order.currency;
            result = result;
          }
          ∷ s.charges;
    },
  )
]

-- The `switch` on the payment's outcome.
unfoldable pub settle : Env → ℤ → PaymentResult → M (Unit {0})
settle env order_id success = Repository.update_status env order_id paid
settle env order_id failed = fail (order_error OrderError.payment_failed)
settle env order_id timeout = fail (order_error OrderError.payment_timeout)
settle env order_id (PaymentResult.unknown s) = fail (order_error OrderError.payment_failed)

unfoldable pub pay_body : Env → PaymentService → ℤ → ℤ → M (Unit {0})
pay_body env service user_id order_id = do
  current ← own_pending env user_id order_id
  result ← pay service current
  settle env order_id result

unfoldable pub pay_order : Env → PaymentService → ℤ → ℤ → M (Unit {0})
pay_order env service user_id order_id =
    if is_nonpositive user_id || is_nonpositive order_id
    then fail (order_error OrderError.invalid_order)
    else within_transaction env (pay_body env service user_id order_id)
