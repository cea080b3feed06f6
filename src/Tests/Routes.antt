-- ===== src/Tests/Routes.antt =====
-- The theorems about the router, at requests for the small shop.
use fincart.Prelude.{
  Option, str_eq, sym, ◌∙◌, subst, [], ◌∷◌, ◌≡◌, ◌↔◌, ◌⊎◌, refl, inl, some, false,
}
use fincart.Prelude.Int.{pos, eqb_ℤ, is_nonpositive}
use fincart.Prelude.Texts.{fields, equal_fold}
use fincart.Prelude.Decimal.{parse_int}
use fincart.Store.Monad.{fake_service}
use fincart.Auth.Tokens.{Claims}
use fincart.Auth.Access.{authenticate}
use fincart.Auth.Identity.{IsBearer, authenticate_iff}
use fincart.Http.Message.{Request, parse_id, positive_id}
use fincart.Http.Middleware.{middleware, unauthorized, forbidden}
use fincart.Http.Context.{admin_middleware, middleware-admin_middleware}
use fincart.Http.Products
use fincart.Http.Mux.{split_path, is_clean}
use fincart.Http.Router.{serve}
use fincart.Http.Guards.{TurnedAway, admin_routes-TurnedAway, user_routes-TurnedAway}
use fincart.Http.Paying.{Paid, serve-pays}
use fincart.Http.Paid.{serve-pays_succeeds}
use fincart.Tests.Shop.{session, first_order}
use fincart.Tests.World.{world, request, ann, one_token, signed_in_session}

-- The token of the customer at the time of the request.
known : authenticate one_token 0 "Bearer signed" ≡ some ann
unfolding authenticate fields equal_fold is_nonpositive
known = refl

authenticate_iff_example :
    (authenticate one_token 0 "Bearer signed" ≡ some ann)
    ↔ IsBearer one_token 0 (fields "Bearer signed") ann
authenticate_iff_example = authenticate_iff one_token 0 "Bearer signed" ann

not_an_admin :
    (claims : Claims)
    → authenticate one_token 0 "Bearer signed" ≡ some claims
    → str_eq claims.role "admin" ≡ false
not_an_admin claims e =
    let both : ◌≡◌ {A = Option Claims} (some ann) (some claims) = sym known ∙ e in
    let same : ann ≡ claims = cc in subst (λ (c : Claims). str_eq c.role "admin" ≡ false) same refl

admin_routes-TurnedAway_example :
    TurnedAway session
      (serve world (request "DELETE" "/api/v1/admin/products/1" "Bearer signed") session)
unfolding split_path
admin_routes-TurnedAway_example =
    admin_routes-TurnedAway world (request "DELETE" "/api/v1/admin/products/1" "Bearer signed")
      session ("products" ∷ "1" ∷ []) refl not_an_admin

user_routes-TurnedAway_example :
    TurnedAway session (serve world (request "POST" "/api/v1/orders/1/pay" "Basic signed") session)
unfolding split_path authenticate fields equal_fold
user_routes-TurnedAway_example =
    user_routes-TurnedAway world (request "POST" "/api/v1/orders/1/pay" "Basic signed") session
      ("1" ∷ "pay" ∷ []) (inl refl) refl

read_id : parse_id "1" ≡ some (pos 1)
unfolding parse_id positive_id parse_int is_nonpositive
read_id = refl

serve-pays_succeeds_example :
    (serve world (request "POST" "/api/v1/orders/1/pay" "Bearer signed") session).0.status ≡ 204
unfolding split_path is_clean eqb_ℤ fake_service
serve-pays_succeeds_example =
    serve-pays_succeeds world (request "POST" "/api/v1/orders/1/pay" "Bearer signed") session "1"
      ann (pos 1) first_order refl refl refl known read_id (λ n. refl) refl refl refl refl

serve-pays_example :
    Paid world "Bearer signed" "1" session
      (serve world (request "POST" "/api/v1/orders/1/pay" "Bearer signed") session).1
unfolding split_path is_clean eqb_ℤ fake_service
serve-pays_example =
    serve-pays world (request "POST" "/api/v1/orders/1/pay" "Bearer signed") session "1" refl refl (
      serve-pays_succeeds world (request "POST" "/api/v1/orders/1/pay" "Bearer signed") session "1"
        ann (pos 1) first_order refl refl refl known read_id (λ n. refl) refl refl refl refl)

abbrev creation : Request
creation = request "POST" "/api/v1/admin/products" "Bearer signed"

-- An administrator's route, put together with the other middleware.
middleware-admin_middleware_example :
    (middleware world (admin_middleware (Products.create_product world)) creation signed_in_session
      ≡ (unauthorized, signed_in_session))
    ⊎ (middleware world
          (admin_middleware (Products.create_product world))
          creation
          signed_in_session
        ≡ (forbidden, signed_in_session))
middleware-admin_middleware_example =
    middleware-admin_middleware world (Products.create_product world) creation signed_in_session
      refl
