-- ===== src/Tests/Carts.antt =====
-- The theorems about carts, at the small shop.
use fincart.Prelude.{[], ◌∷◌, ◌≡◌, refl, sym, ap, false, some}
use fincart.Prelude.Int.{
  pos, ◌+ℤ◌, ◌-ℤ◌, ◌*ℤ◌, wrap64, eqb_ℤ, leb_ℤ, ltb_ℤ, is_nonpositive, in_int4, add64, mul64,
}
use fincart.Order.Status.{draft, pending, status_eq}
use fincart.Order.Quantities.{set_quantity, quantity_of, sort_ids, insert_id}
use fincart.Product.Repository as Products
use fincart.Store.Schema.{Order}
use fincart.Store.Rows.{find_where}
use fincart.Store.Insert.{insert_order, insert_item, fits_currency, has_draft}
use fincart.Store.Monad.{Session, ok, statement, ◌>>=◌, pure, return_if, map_error}
use fincart.Database.{finish, within_transaction}
use fincart.Cart.Model.{Cart, Item, of_row, joined, zero_cart}
use fincart.Cart.Repository
use fincart.Cart.Repository.{is_draft}
use fincart.Cart.Service
use fincart.Cart.Checkout.{
  checkout, checkout_body, checked_out, product_ids, assign_quantities, price_cart, fix_prices,
  decrease_all,
}
use fincart.Cart.Sale.{IsSale, checkout_lem}
use fincart.Cart.Service.{get_cart}
use fincart.Cart.Viewing.{shown, get_cart_lem}
use fincart.Cart.Totals.{rows_of}
use fincart.Cart.Changes.{add, change_cart, change_cart-totalled, amount_of}
use fincart.Tests.Shop.{browsing, draft_order, draft_item, keyboard, session, connected}

-- The session after the first item of the customer's cart, three keyboards.
abbrev filled : Session
filled = (change_cart connected (pos 7) (add (pos 2) (pos 3)) session).1

abbrev three_keyboards : Item
three_keyboards = record {
  id = pos 2;
  product_id = pos 2;
  quantity = pos 3;
  unit_price = keyboard.price;
  name = keyboard.name;
  description = keyboard.description;
  currency = keyboard.currency;
  stock = keyboard.stock;
}

abbrev filled_cart : Cart
filled_cart = record {
  id = pos 2;
  user_id = pos 7;
  status = draft;
  total_amount = pos 36000;
  currency = "EUR";
  created_at = 100;
  items = three_keyboards ∷ [];
}

fill_cart : change_cart connected (pos 7) (add (pos 2) (pos 3)) session ≡ (ok filled_cart, filled)
unfolding change_cart Service.add_item Service.add_item_body Service.get_or_create_draft
    Service.existing_item Service.new_quantity Service.write_item Service.refreshed
    Service.recalculate Service.load_cart Service.add_up Service.lift Repository.get_draft
    Repository.draft_or_zero Repository.create_draft Repository.new_draft Repository.returned_draft
    Repository.join Repository.first_row Repository.get_item Repository.added_row
    Repository.returned_item Repository.add_item Repository.get_items Repository.set_total
    Repository.update_total Repository.found_draft Repository.get_draft_by_id of_row joined
    zero_cart within_transaction finish Products.get_by_id_for_update Products.found insert_order
    insert_item fits_currency has_draft statement ◌>>=◌ pure return_if map_error status_eq add64
    mul64 wrap64 eqb_ℤ leb_ℤ ltb_ℤ in_int4 is_nonpositive ◌+ℤ◌ ◌*ℤ◌
fill_cart = refl

change_cart-totalled_example :
    (o : Order) × (find_where (is_draft o.id) filled.db.orders ≡ some o)
    × (filled_cart ≡ record (of_row o) { items = rows_of o.id filled.db })
    × (o.total_amount ≡ wrap64 (amount_of (rows_of o.id filled.db)))
change_cart-totalled_example =
    change_cart-totalled connected (pos 7) (add (pos 2) (pos 3)) session filled filled_cart
      fill_cart

-- The session after the customer has bought the cart.
abbrev bought : Session
bought = (checkout connected (pos 7) filled).1

abbrev bought_order : Order
bought_order = record {
  id = pos 2;
  user_id = pos 7;
  status = pending;
  total_amount = pos 36000;
  currency = "EUR";
  created_at = 100;
}

buy_cart : checkout connected (pos 7) filled ≡ (ok bought_order, bought)
unfolding checkout checkout_body checked_out product_ids assign_quantities price_cart fix_prices
    decrease_all set_quantity quantity_of sort_ids insert_id Products.decrease_stock
    Products.set_stock Service.require_draft Repository.checkout Repository.set_pending
    Repository.update_item_price Repository.set_item_price change_cart Service.add_item
    Service.add_item_body Service.get_or_create_draft Service.existing_item Service.new_quantity
    Service.write_item Service.refreshed Service.recalculate Service.load_cart Service.add_up
    Service.lift Repository.get_draft Repository.draft_or_zero Repository.create_draft
    Repository.new_draft Repository.returned_draft Repository.join Repository.first_row
    Repository.get_item Repository.added_row Repository.returned_item Repository.add_item
    Repository.get_items Repository.set_total Repository.update_total Repository.found_draft
    Repository.get_draft_by_id of_row joined zero_cart within_transaction finish
    Products.get_by_id_for_update Products.found insert_order insert_item fits_currency has_draft
    statement ◌>>=◌ pure return_if map_error status_eq add64 mul64 wrap64 eqb_ℤ leb_ℤ ltb_ℤ in_int4
    is_nonpositive ◌+ℤ◌ ◌-ℤ◌ ◌*ℤ◌
buy_cart = refl

checkout_lem_example :
    (d : Order) × (find_where (Repository.is_draft_of (pos 7)) filled.db.orders ≡ some d)
    × IsSale (pos 7) d filled.db bought_order bought.db
checkout_lem_example = checkout_lem connected (pos 7) filled bought bought_order buy_cart

abbrev one_keyboard : Cart
one_keyboard = record (of_row draft_order) { items = joined draft_item keyboard ∷ [] }

view_cart : get_cart connected (pos 7) browsing ≡ (ok one_keyboard, record browsing { calls = 4 })
unfolding get_cart Service.get_cart_body Service.with_items Repository.get_draft
    Repository.draft_or_zero Repository.get_items Repository.join of_row joined within_transaction
    finish statement ◌>>=◌ pure status_eq eqb_ℤ is_nonpositive
view_cart = refl

draft_numbered :
    (o : Order)
    → find_where (Repository.is_draft_of (pos 7)) browsing.db.orders ≡ some o
    → eqb_ℤ o.id (pos 0) ≡ false
unfolding status_eq eqb_ℤ
draft_numbered o h =
    let same : draft_order ≡ o = cc in ap (λ (x : Order). eqb_ℤ x.id (pos 0)) (sym same)

get_cart_lem_example :
    (one_keyboard
      ≡ shown (pos 7) browsing.db (find_where (Repository.is_draft_of (pos 7)) browsing.db.orders))
    × (browsing.db ≡ browsing.db)
get_cart_lem_example =
    get_cart_lem connected (pos 7) browsing (record browsing { calls = 4 }) one_keyboard
      draft_numbered view_cart
