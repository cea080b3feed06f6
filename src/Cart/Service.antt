-- ===== src/Cart/Service.antt =====
-- `cart.Service` (internal/cart/service.go).
use fincart.Prelude.{String, List, [], ◌∷◌, Option, none, some, not, ◌||◌, str_eq}
use fincart.Prelude.Tests.{if◌then◌else◌}
use fincart.Prelude.Lists.{is_empty}
use fincart.Prelude.Int.{ℤ, pos, eqb_ℤ, ltb_ℤ, add64, mul64, is_nonpositive}
use fincart.Order.Status.{draft}
use fincart.Store.Monad.{
  Error, Result, ok, err, cart_error, product_error, no_rows, ProductError, CartError, Env, M, pure,
  fail, ◌>>=◌, ◌>>◌, return_if, map_error,
}
use fincart.Database.{within_transaction}
use fincart.Product.Repository as Products
use fincart.Cart.Model.{Cart, Item, zero_cart}
use fincart.Cart.Repository

-- `errors.Is(err, product.ErrProductNotFound)` becomes the cart package's own error.
abbrev pub own_product_error : Error → Error
own_product_error (product_error ProductError.product_not_found) =
    cart_error CartError.product_not_found
own_product_error e = e

-- `errors.Is(err, sql.ErrNoRows)` becomes `e`.
abbrev pub on_no_rows : Error → Error → Error
on_no_rows e no_rows = e
on_no_rows e other = other

-- A cart that is not there: `ErrCartNotFound` where `cart.ID == 0`.
unfoldable pub require_draft : Env → ℤ → M Cart
require_draft env user_id = do
  cart ← Repository.get_draft env user_id
  return_if (eqb_ℤ cart.id (pos 0)) (cart_error CartError.cart_not_found)
  pure cart

unfoldable pub with_items : Env → Cart → M Cart
with_items env cart = do
  items ← Repository.get_items env cart.id
  pure (record cart { items = items })

unfoldable pub get_cart_body : Env → ℤ → M Cart
get_cart_body env user_id = do
  cart ← Repository.get_draft env user_id
  if eqb_ℤ cart.id (pos 0)
      then pure (record zero_cart { user_id = user_id; status = draft })
      else with_items env cart

unfoldable pub get_cart : Env → ℤ → M Cart
get_cart env user_id =
    if is_nonpositive user_id
    then fail (cart_error CartError.invalid_cart)
    else within_transaction env (get_cart_body env user_id)

-- `getOrCreateDraft`
unfoldable pub get_or_create_draft : Env → ℤ → M Cart
get_or_create_draft env user_id = do
  cart ← Repository.get_draft env user_id
  if eqb_ℤ cart.id (pos 0) then Repository.create_draft env user_id else pure cart

-- `loadCart`
unfoldable pub load_cart : Env → ℤ → M Cart
load_cart env order_id = do
  cart ← Repository.get_draft_by_id env order_id
  items ← Repository.get_items env order_id
  pure (record cart { items = items })

-- The loop of `recalculate` over the items: their amount and currency.
unfoldable pub add_up : List Item → ℤ → String → Result (ℤ × String)
add_up [] total currency = ok (total, currency)
add_up (item ∷ items) total currency =
    let agreed = if str_eq currency "" then item.currency else currency in
    let rest = add_up items (add64 total (mul64 item.unit_price item.quantity)) agreed in
    if not (str_eq item.currency agreed)
    then err (cart_error CartError.different_currency)
    else rest

-- A computed result, in a function that talks to the database.
unfoldable pub lift : {A : Type 0} → Result A → M A
lift r s = (r, s)

-- `recalculate`. (Of no items the loop gives 0 and "", which is the early return.)
unfoldable pub recalculate : Env → ℤ → M (Unit {0})
recalculate env order_id = do
  items ← Repository.get_items env order_id
  if is_empty items then Repository.update_total env order_id (pos 0) "" else do
    (total, currency) ← lift (add_up items (pos 0) "")
    Repository.update_total env order_id total currency

-- `existing, err := s.repository.GetItem(...)`: no row is no error.
unfoldable pub existing_item : Env → ℤ → ℤ → M (Option Item)
existing_item env order_id product_id s =
    let (r, s') = Repository.get_item env order_id product_id s in
    elim r [ ok i ↦ (ok (some i), s') | err no_rows ↦ (ok none, s') | err e ↦ (err e, s') ]

-- `newQuantity`
unfoldable pub new_quantity : ℤ → Option Item → ℤ
new_quantity quantity none = quantity
new_quantity quantity (some item) = add64 quantity item.quantity

-- The item is updated if it was there, and added at the product's price if not.
unfoldable pub write_item : Env → ℤ → ℤ → ℤ → ℤ → Option Item → M (Unit {0})
write_item env order_id product_id price quantity none =
    Repository.add_item env order_id product_id quantity price >> pure tt
write_item env order_id product_id price quantity (some item) =
    Repository.update_item env order_id product_id (new_quantity quantity (some item))

-- `recalculate`, then `loadCart`: how the three changes of a cart end.
unfoldable pub refreshed : Env → ℤ → M Cart
refreshed env order_id = recalculate env order_id >> load_cart env order_id

unfoldable pub add_item_body : Env → ℤ → ℤ → ℤ → M Cart
add_item_body env user_id product_id quantity = do
  cart ← get_or_create_draft env user_id
  product ← map_error own_product_error (Products.get_by_id_for_update env product_id)
  existing ← existing_item env cart.id product_id
  return_if (ltb_ℤ product.stock (new_quantity quantity existing))
      (cart_error CartError.insufficient_stock)
  write_item env cart.id product_id product.price quantity existing
  refreshed env cart.id

unfoldable pub add_item : Env → ℤ → ℤ → ℤ → M Cart
add_item env user_id product_id quantity =
    if is_nonpositive user_id || is_nonpositive product_id
    then fail (cart_error CartError.invalid_cart)
    else if is_nonpositive quantity
    then fail (cart_error CartError.invalid_quantity)
    else within_transaction env (add_item_body env user_id product_id quantity)

unfoldable pub update_item_body : Env → ℤ → ℤ → ℤ → M Cart
update_item_body env user_id product_id quantity = do
  cart ← require_draft env user_id
  product ← map_error own_product_error (Products.get_by_id_for_update env product_id)
  return_if (ltb_ℤ product.stock quantity) (cart_error CartError.insufficient_stock)
  map_error (on_no_rows (cart_error CartError.cart_item_not_found))
      (Repository.update_item env cart.id product_id quantity)
  refreshed env cart.id

unfoldable pub update_item : Env → ℤ → ℤ → ℤ → M Cart
update_item env user_id product_id quantity =
    if is_nonpositive user_id || is_nonpositive product_id
    then fail (cart_error CartError.invalid_cart)
    else if is_nonpositive quantity
    then fail (cart_error CartError.invalid_quantity)
    else within_transaction env (update_item_body env user_id product_id quantity)

unfoldable pub delete_item_body : Env → ℤ → ℤ → M Cart
delete_item_body env user_id product_id = do
  cart ← require_draft env user_id
  map_error (on_no_rows (cart_error CartError.cart_item_not_found))
      (Repository.delete_item env cart.id product_id)
  refreshed env cart.id

unfoldable pub delete_item : Env → ℤ → ℤ → M Cart
delete_item env user_id product_id =
    if is_nonpositive user_id || is_nonpositive product_id
    then fail (cart_error CartError.invalid_cart)
    else within_transaction env (delete_item_body env user_id product_id)
