-- ===== src/Order/Reading.antt =====
-- What `GetOrder` shows, and to whom.
use fincart.Prelude.{List, ◌≡◌, sym, ap, ◌∙◌, some, not, ◌||◌, suc}
use fincart.Prelude.Int.{ℤ, eqb_ℤ, eqb_ℤ_iff, is_nonpositive}
use fincart.Store.Schema.{Order, OrderItem, Db}
use fincart.Store.Rows.{find_where, select_where}
use fincart.Store.Monad.{ok, Env, Session, return_if}
use fincart.Store.Hoare.{>>=-eq-ok}
use fincart.Store.Inversion.{ok_value, pure-eq-ok, query-eq-ok, guard-eq-ok, return_if-eq-ok}
use fincart.Database.{within_transaction}
use fincart.Database.Atomic.{within_transaction-eq-ok}
use fincart.Order.Repository
use fincart.Order.Payments.{found_lem}
use fincart.Prelude.Tests.{true_of_not}
use fincart.Order.Service.{get_order, get_order_body}

get_order_body-eq-ok :
    (env : Env) (user_id order_id : ℤ) (s s' : Session) (o : Order) (items : List OrderItem)
    → get_order_body env user_id order_id s ≡ (ok (o, items), s')
    → (find_where (λ o. eqb_ℤ o.id order_id) s.db.orders ≡ some o)
      × (o.user_id ≡ user_id)
      × (items ≡ select_where (λ i. eqb_ℤ i.order_id order_id) s.db.items)
      × (s'.db ≡ s.db)
      × (s'.charges ≡ s.charges)
unfolding get_order_body Repository.get_by_id Repository.get_items
get_order_body-eq-ok env user_id order_id s s' o items h =
    let (x, s1, e1, h1) = >>=-eq-ok (Repository.get_by_id env order_id) _ s s' (o, items) h in
    let (_, s2, e2, h2) =
      >>=-eq-ok (return_if (not (eqb_ℤ x.user_id user_id)) _) _ s1 s' (o, items) h1 in
    let (rows, s3, e3, h3) = >>=-eq-ok (Repository.get_items env order_id) _ s2 s' (o, items) h2 in
    let (pair, d4) = pure-eq-ok (x, rows) (o, items) s3 s' h3 in
    let (answer, d1, l1) =
      query-eq-ok env (λ d. Repository.found (find_where (Repository.has_id order_id) d.orders)) s
        s1 x e1 in
    let (owner, d2) = return_if-eq-ok _ _ s1 s2 _ e2 in
    let (list, d3, l3) =
      query-eq-ok env (λ d. ok (select_where (Repository.in_order order_id) d.items)) s2 s3 rows
        e3 in
    let eo : x ≡ o = ap (λ (p : Order × List OrderItem). p.0) pair in
    let er : rows ≡ items = ap (λ (p : Order × List OrderItem). p.1) pair in
    let before : s2.db ≡ s.db = ap (λ (t : Session). t.db) d2 ∙ d1 in
    (
      found_lem _ x answer ∙ ap some eo,
      ap (λ (r : Order). r.user_id) (sym eo)
          ∙ (eqb_ℤ_iff x.user_id user_id).0 (true_of_not _ owner),
      sym er
          ∙ sym (ok_value _ rows list)
          ∙ ap (λ (d : Db). select_where (λ i. eqb_ℤ i.order_id order_id) d.items) before,
      ap (λ (t : Session). t.db) (sym d4) ∙ d3 ∙ before,
      ap (λ (t : Session). t.charges) (sym d4) ∙ l3 ∙ ap (λ (t : Session). t.charges) d2 ∙ l1,
    )

-- GetOrder returns without error only an order of the user who asks, as it is in the tables and
-- with all of its items; it changes no row and makes no payment.
pub get_order_lem :
    (env : Env) (user_id order_id : ℤ) (s s' : Session) (o : Order) (items : List OrderItem)
    → get_order env user_id order_id s ≡ (ok (o, items), s')
    → (find_where (λ o. eqb_ℤ o.id order_id) s.db.orders ≡ some o)
      × (o.user_id ≡ user_id)
      × (items ≡ select_where (λ i. eqb_ℤ i.order_id order_id) s.db.items)
      × (s'.db ≡ s.db)
      × (s'.charges ≡ s.charges)
unfolding get_order
get_order_lem env user_id order_id s s' o items h =
    let (_, h0) =
      guard-eq-ok (is_nonpositive user_id || is_nonpositive order_id) _
        (within_transaction env (get_order_body env user_id order_id)) s s' (o, items) h in
    let (t, e, d, l) = within_transaction-eq-ok env _ s s' (o, items) h0 in
    let (row, owner, list, same, log) =
      get_order_body-eq-ok env user_id order_id (record s { calls = suc s.calls }) t o items e in
    (row, owner, list, d ∙ same, l ∙ log)
