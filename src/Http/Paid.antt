-- ===== src/Http/Paid.antt =====
-- POST /api/v1/orders/{id}/pay: which requests are answered 204.
use fincart.Prelude.{ℕ, String, [], ◌∷◌, ◌≡◌, ap, ◌∙◌, Option, none, some, true, false, arith}
use fincart.Prelude.Int.{ℤ, eqb_ℤ, is_nonpositive}
use fincart.Payment.{success}
use fincart.Order.Status.{pending}
use fincart.Order.Service as Service
use fincart.Order.Charging.{pay_order_succeeds}
use fincart.Store.Schema.{Order}
use fincart.Store.Rows.{find_where}
use fincart.Store.Monad.{ok, Session}
use fincart.Auth.Tokens.{Claims}
use fincart.Auth.Access.{authenticate}
use fincart.Auth.Identity.{authenticate-positive}
use fincart.Http.Message.{World, Request, Response, require, parse_id, positive_id, value_in}
use fincart.Http.Stages.{require_of_some, respond_of_ok}
use fincart.Prelude.Decimal.{parse_int}
use fincart.Http.Middleware.{middleware, with_claims, cors}
use fincart.Http.Mux.{split_path, match, serves, select, is_clean, serve_mux}
use fincart.Http.Router.{new_router, serve}
use fincart.Http.Paying.{pay_path}
use fincart.Http.Orders

module _ (w : World) (r : Request) (s : Session) where
  clean_route :
      r.method ≡ "POST"
      → is_clean (split_path r.path) ≡ true
      → serve w r s ≡ select (new_router w) (split_path r.path) false r s
  unfolding serve cors serve_mux
  clean_route asked clean = rw (asked, clean)

  selected :
      (c : _) (x : String)
      → r.method ≡ "POST"
      → select (new_router w) (pay_path (String.◌∷◌ c x)) false r s
        ≡ middleware w
            (Orders.pay_order w)
            (record r { path_values = ("id", String.◌∷◌ c x) ∷ [] })
            s
  unfolding new_router match select serves
  selected c x asked = rw asked

  handled :
      (claims : Claims) (order_id : ℤ) (id : String)
      → authenticate w.auth.jwt (w.auth.clock s.calls) r.authorization ≡ some claims
      → parse_id id ≡ some order_id
      → (Service.pay_order w.env w.payment claims.user_id order_id s).0 ≡ ok tt
      → (middleware w (Orders.pay_order w) (record r { path_values = ("id", id) ∷ [] }) s).0.status
        ≡ 204
  unfolding middleware Orders.pay_order with_claims require value_in
  handled claims order_id id known read answer =
      ap (λ (p : Response × Session). p.0.status)
        (require_of_some (authenticate w.auth.jwt (w.auth.clock s.calls) r.authorization) _ _ s
            claims known
          ∙ require_of_some (parse_id id) _ _ s order_id read)
      ∙ ap (λ (p : Response). p.status)
          (respond_of_ok (Service.pay_order w.env w.payment claims.user_id order_id) _ _ s tt
            answer)

-- The text of a positive id is the id of a request.
parse_id-positive : (id : String) (n : ℤ) → parse_id id ≡ some n → is_nonpositive n ≡ false
unfolding parse_id positive_id
parse_id-positive id n h = ground arith

empty_id : (n : ℤ) → parse_id "" ≡ some n → ◌≡◌ {A = Option ℤ} none (some n)
unfolding parse_id positive_id parse_int
empty_id n h = h

-- With the connection up, POST /api/v1/orders/{id}/pay on a clean path answers 204 if the header has
-- a valid token, {id} is the id of a pending order of the token's user, and its payment succeeds.
pub serve-pays_succeeds :
    (w : World) (r : Request) (s : Session) (id : String) (claims : Claims) (order_id : ℤ)
    (o : Order)
    → r.method ≡ "POST"
    → split_path r.path ≡ pay_path id
    → is_clean (split_path r.path) ≡ true
    → authenticate w.auth.jwt (w.auth.clock s.calls) r.authorization ≡ some claims
    → parse_id id ≡ some order_id
    → ((n : ℕ) → w.env.fault n ≡ false)
    → find_where (λ o. eqb_ℤ o.id order_id) s.db.orders ≡ some o
    → o.user_id ≡ claims.user_id
    → o.status ≡ pending
    → w.payment.pay o.id o.total_amount o.currency ≡ ok success
    → (serve w r s).0.status ≡ 204
serve-pays_succeeds w r s String.[] claims order_id o asked under clean known read fine row owner
      state answer =
    let missing : ◌≡◌ {A = Option ℤ} none (some order_id) = empty_id order_id read in cc
serve-pays_succeeds w r s (String.◌∷◌ c x) claims order_id o asked under clean known read fine row
      owner state answer =
    let id = String.◌∷◌ c x in
    ap (λ (p : Response × Session). p.0.status)
      (clean_route w r s asked clean
        ∙ ap (λ parts. select (new_router w) parts false r s) under
        ∙ selected w r s c x asked)
    ∙ handled w r s claims order_id id known read (
        (pay_order_succeeds w.env w.payment claims.user_id order_id s o fine
          (authenticate-positive w.auth.jwt (w.auth.clock s.calls) r.authorization claims known)
          (parse_id-positive id order_id read) row owner state answer).0)
