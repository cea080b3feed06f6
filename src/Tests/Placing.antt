-- ===== src/Tests/Placing.antt =====
-- The theorems about the placing of orders, at the small shop.
use mathlib.Core.List.Perm
use fincart.Prelude.{List, [], ◌∷◌, ◌≡◌, refl, some}
use fincart.Prelude.Int.{
  ℤ, pos, ◌+ℤ◌, ◌-ℤ◌, ◌*ℤ◌, wrap64, eqb_ℤ, leb_ℤ, ltb_ℤ, is_nonpositive, in_int4, add64, mul64,
}
use fincart.Order.Status.{pending, status_eq}
use fincart.Order.Quantities.{
  Quantities, CreateOrderItem, collect, keys, sort_ids, insert_id, quantity_of, set_quantity,
}
use fincart.Order.Requested.{requested, collect_lem}
use fincart.Order.Placement.{IsPlaced, create_order_lem}
use fincart.Order.Repository
use fincart.Order.Service
use fincart.Product.Repository as Products
use fincart.Store.Schema.{Order}
use fincart.Store.Insert.{insert_order, insert_item, fits_currency, has_draft}
use fincart.Store.Monad.{Session, ok, statement, ◌>>=◌, pure, return_if, map_error}
use fincart.Database.{finish, within_transaction}
use fincart.Tests.Shop.{shop, session, connected}

-- Two keyboards, a laptop, and one more keyboard.
abbrev request : List CreateOrderItem
request =
    record { product_id = pos 2; quantity = pos 2 }
    ∷ record { product_id = pos 1; quantity = pos 1 }
    ∷ record { product_id = pos 2; quantity = pos 1 }
    ∷ []

abbrev collected : Quantities
collected = (pos 2, pos 3) ∷ (pos 1, pos 1) ∷ []

collect-request : collect request [] ≡ some collected
unfolding collect set_quantity quantity_of add64 wrap64 eqb_ℤ is_nonpositive ◌+ℤ◌
collect-request = refl

collect_lem_example : quantity_of (pos 2) collected ≡ wrap64 (requested (pos 2) request)
collect_lem_example = collect_lem (pos 2) request collected collect-request

abbrev placed : Session
placed = (Service.create_order connected (pos 7) request session).1

abbrev placed_order : Order
placed_order = record {
  id = pos 2;
  user_id = pos 7;
  status = pending;
  total_amount = pos 186000;
  currency = "EUR";
  created_at = 100;
}

place_request : Service.create_order connected (pos 7) request session ≡ (ok placed_order, placed)
unfolding Service.create_order Service.place_collected Service.place_order Service.price_products
    Service.new_order Service.write_items Service.order_item within_transaction finish
    Products.get_by_id_for_update Products.found Products.decrease_stock Products.set_stock
    Repository.create Repository.create_item insert_order insert_item fits_currency has_draft
    statement ◌>>=◌ pure return_if map_error status_eq collect set_quantity quantity_of keys
    sort_ids insert_id add64 mul64 wrap64 eqb_ℤ leb_ℤ ltb_ℤ in_int4 is_nonpositive ◌+ℤ◌ ◌-ℤ◌ ◌*ℤ◌
place_request = refl

create_order_lem_example :
    (m : Quantities) × (collect request [] ≡ some m)
    × ((id : ℤ) → quantity_of id m ≡ wrap64 (requested id request))
    × IsPlaced (pos 7) m shop placed_order placed.db
create_order_lem_example =
    create_order_lem connected (pos 7) request session placed placed_order place_request
