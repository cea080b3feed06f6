-- ===== src/Http/Paying.antt =====
-- POST /api/v1/orders/{id}/pay, from the request to the tables.
use fincart.Prelude.{
  ℕ, String, List, Option, [], ◌∷◌, ◌≡◌, refl, subst, sym, ap, some, Bool, true, false, arith,
  str_eq,
}
use fincart.Prelude.Tests.{◌==◌}
use fincart.Prelude.Int.{ℤ, eqb_ℤ}
use fincart.Payment.{success}
use fincart.Order.Status.{pending, paid}
use fincart.Order.Service as Service
use fincart.Order.Payments.{with_status, charge_of, pay_order_lem}
use fincart.Store.Schema.{Order}
use fincart.Store.Rows.{find_where}
use fincart.Store.Monad.{Error, ok, Session}
use fincart.Auth.Tokens.{Claims}
use fincart.Auth.Access.{authenticate}
use fincart.Http.Message.{World, Request, Response, require, cause, parse_id, path_value, value_in}
use fincart.Http.Stages.{require-cases, respond-cases}
use fincart.Http.Middleware.{unauthorized, middleware, with_claims}
use fincart.Http.Mux.{split_path, match, select}
use fincart.Http.Router.{new_router, serve}
use fincart.Http.Selecting.{Each, done, ◌▹◌, Answers, serve_each}
use fincart.Http.Guards.{below}
use fincart.Http.Orders

-- The payment that a request asked for by a header and the text of an id has been made.
abbrev pub Paid : World → String → String → Session → Session → Type 0
Paid w authorization id s s' =
    (claims : Claims) × (order_id : ℤ) × (o : Order) × (authenticate w.auth.jwt
        (w.auth.clock s.calls) authorization
      ≡ some claims)
    × (parse_id id ≡ some order_id)
    × (find_where (λ o. eqb_ℤ o.id order_id) s.db.orders ≡ some o)
    × (o.user_id ≡ claims.user_id)
    × (o.status ≡ pending)
    × (w.payment.pay o.id o.total_amount o.currency ≡ ok success)
    × (s'.charges ≡ charge_of o success ∷ s.charges)
    × (s'.db ≡ with_status order_id paid s.db)

abbrev pub IsPaid : World → String → String → Session → Response × Session → Type 0
IsPaid w authorization id s (response, s') = response.status ≡ 204 → Paid w authorization id s s'

other_status : (n : ℕ) → n ≡ 204 → (n == 204) ≡ false → ⊥
other_status n h other = ground arith

problem_status : (e : Error) → (Orders.pay_order_problem e).status ≡ 204 → ⊥
unfolding Orders.pay_order_problem
problem_status e h = ground arith

handled :
    (w : World) (r : Request) (s : Session)
    → IsPaid w r.authorization (path_value r "id") s (middleware w (Orders.pay_order w) r s)
unfolding middleware Orders.pay_order with_claims require
handled w r s =
    let P = IsPaid w r.authorization (path_value r "id") s in
    require-cases P (authenticate w.auth.jwt (w.auth.clock s.calls) r.authorization) unauthorized _
      s (λ unknown h. absurd (other_status 401 h refl))
      (λ claims known.
        require-cases P (parse_id (path_value r "id")) Orders.invalid_id _ s
          (λ unread h. absurd (other_status 400 h refl))
          (λ order_id read.
            respond-cases P (Service.pay_order w.env w.payment claims.user_id order_id) _ _ s
              (λ u t paid_ _.
                let (o, row, owner, state, answer, log, tables) =
                  pay_order_lem w.env w.payment claims.user_id order_id s t paid_ in
                (claims, order_id, o, known, read, row, owner, state, answer, log, tables))
              (λ e t failed h. absurd (problem_status (cause e) h))))

post_options : (method : String) → method ≡ "POST" → str_eq method "OPTIONS" ≡ true → ⊥
post_options method asked options =
    let e : str_eq "POST" "OPTIONS" ≡ true = subst (λ m. str_eq m "OPTIONS" ≡ true) asked options in
    cc

abbrev pub pay_path : String → List String
pay_path id = below "orders" (id ∷ "pay" ∷ [])

id_value :
    (id : String) (values : List (String × String))
    → ◌≡◌ {A = Option (List (String × String))} (some (("id", id) ∷ [])) (some values)
    → value_in "id" values ≡ id
unfolding value_in
id_value id values e = let same : ("id", id) ∷ [] ≡ values = cc in ap (value_in "id") (sym same)

-- Only the thirteenth entry matches the path and the method.
entries :
    (w : World) (r : Request) (s : Session) (id : String)
    → r.method ≡ "POST"
    → Each
        (Answers (IsPaid w r.authorization id s) (below "orders" (id ∷ "pay" ∷ [])) r s)
        (new_router w)
unfolding new_router match value_in
entries w r s String.[] asked =
    (λ v e m. (cc))
    ▹ (λ v e m. (cc))
    ▹ (λ v e m. (cc))
    ▹ (λ v e m. (cc))
    ▹ (λ v e m. (cc))
    ▹ (λ v e m. (cc))
    ▹ (λ v e m. (cc))
    ▹ (λ v e m. (cc))
    ▹ (λ v e m. (cc))
    ▹ (λ v e m. (cc))
    ▹ (λ v e m. (cc))
    ▹ (λ v e m. (cc))
    ▹ (λ v e m. (cc))
    ▹ (λ v e m. (cc))
    ▹ (λ v e m. (cc))
    ▹ (λ v e m. (cc))
    ▹ (λ v e m. (cc))
    ▹ (λ v e m. (cc))
    ▹ (λ v e m. (cc))
    ▹ (λ v e m. (cc))
    ▹ done
entries w r s (String.◌∷◌ c x) asked =
    (λ v e m. (cc))
    ▹ (λ v e m. (cc))
    ▹ (λ v e m. (cc))
    ▹ (λ v e m. (cc))
    ▹ (λ v e m. (cc))
    ▹ (λ v e m. (cc))
    ▹ (λ v e m. (cc))
    ▹ (λ v e m. (cc))
    ▹ (λ v e m. (cc))
    ▹ (λ v e m. (cc))
    ▹ (λ v e m. (cc))
    ▹ (λ v e m. (cc))
    ▹ (λ v e m.
        subst
          (λ t.
            IsPaid w r.authorization t s
              (middleware w (Orders.pay_order w) (record r { path_values = v }) s))
          (id_value (String.◌∷◌ c x) v e) (handled w (record r { path_values = v }) s))
    ▹ (λ v e m. (cc))
    ▹ (λ v e m. (cc))
    ▹ (λ v e m. (cc))
    ▹ (λ v e m. (cc))
    ▹ (λ v e m. (cc))
    ▹ (λ v e m. (cc))
    ▹ (λ v e m. (cc))
    ▹ done

unmatched :
    (w : World) (id : String) (r : Request) (s : Session) (parts : List String) (status : Bool)
    → IsPaid w r.authorization id s (select [] parts status r s)
unfolding select
unmatched w id r s parts true h = absurd (other_status 405 h refl)
unmatched w id r s parts false h = absurd (other_status 404 h refl)

-- POST /api/v1/orders/{id}/pay answers 204 only if the header has a valid token, {id} is the id of a
-- pending order of the token's user, and the payment service, asked for the order's total amount,
-- answered `success`. Then that one payment is made, and the status is all that changes.
pub serve-pays :
    (w : World) (r : Request) (s : Session) (id : String)
    → r.method ≡ "POST"
    → split_path r.path ≡ pay_path id
    → (serve w r s).0.status ≡ 204
    → Paid w r.authorization id s (serve w r s).1
serve-pays w r s id asked under =
    serve_each (IsPaid w r.authorization id s) w r s
      (λ options h. absurd (post_options r.method asked options))
      (λ h. absurd (other_status 301 h refl)) (unmatched w id r s (split_path r.path))
      (subst (λ parts. Each (Answers (IsPaid w r.authorization id s) parts r s) (new_router w))
        (sym under) (entries w r s id asked))
