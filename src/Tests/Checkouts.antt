-- ===== src/Tests/Checkouts.antt =====
-- The small shop with a keyboard in the customer's cart: what the theorems on carts over time say of
-- it after a few requests.
use fincart.Prelude.{List, [], ◌∷◌, ◌≡◌, refl, arith}
use fincart.Prelude.Int.{pos, eqb_ℤ}
use fincart.Order.Status.{status_eq}
use fincart.Cart.Checkout.{checkout}
use fincart.Goods.{units}
use fincart.Http.Message.{World, Request}
use fincart.Server.Requests.{serve_all}
use fincart.Server.Integrity.{IsConsistent}
use fincart.Server.Once.{HasItemsOnce}
use fincart.Server.Once.Requests.{serve_all-HasItemsOnce}
use fincart.Server.Once.Sales.{serve_all-checkout-units}
use fincart.Tests.Shop.{browsing, connected}
use fincart.Tests.World.{world, request}

-- A payment, and a change of a cart that is refused.
abbrev requests : List (World × Request)
requests =
    (world, request "POST" "/api/v1/orders/1/pay" "Bearer signed")
    ∷ (world, request "POST" "/api/v1/cart/items" "")
    ∷ []

browsing-IsConsistent : IsConsistent browsing.db
unfolding eqb_ℤ status_eq
browsing-IsConsistent = record {
  product_keys = record {
    numbered = (omega arith, (omega arith, tt));
    distinct = (refl, (refl, tt));
  };
  order_keys = record {
    numbered = (omega arith, (omega arith, tt));
    distinct = (refl, (refl, tt));
  };
  user_keys = record { numbered = (omega arith, tt); distinct = (refl, tt) };
  emails = (refl, tt);
  hashes = tt;
  drafts = (refl, (refl, tt));
  order_users = (refl, (refl, tt));
  item_orders = (refl, (refl, tt));
  item_products = (refl, (refl, tt));
  token_users = tt;
}

browsing-HasItemsOnce : HasItemsOnce browsing.db
unfolding eqb_ℤ status_eq
browsing-HasItemsOnce = (refl, (refl, tt))

serve_all-HasItemsOnce_example : HasItemsOnce (serve_all requests browsing).db
serve_all-HasItemsOnce_example =
    serve_all-HasItemsOnce requests browsing browsing-IsConsistent browsing-HasItemsOnce

serve_all-checkout-units_example :
    units (pos 2) (checkout connected (pos 7) (serve_all requests browsing)).1.db
    ≡ units (pos 2) (serve_all requests browsing).db
serve_all-checkout-units_example =
    serve_all-checkout-units requests connected (pos 2) (pos 7) browsing browsing-IsConsistent
      browsing-HasItemsOnce
