-- ===== src/Tests/Server.antt =====
-- The small shop over time: what the theorems about any requests say of three of them.
use fincart.Prelude.{List, [], ◌∷◌, ◌++◌, ◌≡◌, refl, some, arith}
use fincart.Prelude.Lists.{All}
use fincart.Prelude.Int.{pos, eqb_ℤ}
use fincart.Store.Schema.{Order, User}
use fincart.Store.Rows.{find_where}
use fincart.User.Model.{role_user}
use fincart.Http.Message.{World, Request}
use fincart.Server.Requests.{serve_all}
use fincart.Server.Evolution.{Evolves}
use fincart.Server.Lifecycle.{HasOrderKeys, serve_all-orders}
use fincart.Server.Roles.{serve_all-users}
use fincart.Server.Integrity.{IsConsistent}
use fincart.Server.Integrity.Requests.{serve_all-IsConsistent}
use fincart.Tests.Shop.{first_order}
use fincart.Tests.World.{world, request, signed_in_session}

-- A payment, a change of a cart that is refused, and a registration.
abbrev requests : List (World × Request)
requests =
    (world, request "POST" "/api/v1/orders/1/pay" "Bearer signed")
    ∷ (world, request "POST" "/api/v1/cart/items" "")
    ∷ (world, request "POST" "/api/v1/auth/register" "")
    ∷ []

shop-HasOrderKeys : HasOrderKeys signed_in_session.db
unfolding eqb_ℤ
shop-HasOrderKeys = record { numbered = (omega arith, tt); distinct = (refl, tt) }

serve_all-orders_example :
    (p : Order) × (find_where
        (λ o. eqb_ℤ o.id (pos 1))
        (serve_all requests signed_in_session).db.orders
      ≡ some p)
    × Evolves first_order p
unfolding eqb_ℤ
serve_all-orders_example =
    serve_all-orders requests signed_in_session (pos 1) first_order shop-HasOrderKeys refl

serve_all-users_example :
    (new : List User) × ((serve_all requests signed_in_session).db.users
      ≡ signed_in_session.db.users ++ new)
    × All (λ u. u.role ≡ role_user) new
serve_all-users_example = serve_all-users requests signed_in_session

shop-IsConsistent : IsConsistent signed_in_session.db
unfolding eqb_ℤ
shop-IsConsistent = record {
  product_keys = record {
    numbered = (omega arith, (omega arith, tt));
    distinct = (refl, (refl, tt));
  };
  order_keys = shop-HasOrderKeys;
  user_keys = record { numbered = (omega arith, tt); distinct = (refl, tt) };
  emails = (refl, tt);
  hashes = (refl, tt);
  drafts = (refl, tt);
  order_users = (refl, tt);
  item_orders = (refl, tt);
  item_products = (refl, tt);
  token_users = (refl, tt);
}

serve_all-IsConsistent_example : IsConsistent (serve_all requests signed_in_session).db
serve_all-IsConsistent_example = serve_all-IsConsistent requests signed_in_session shop-IsConsistent
