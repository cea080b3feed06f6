-- ===== src/Order/Payments.antt =====
-- What `PayOrder` and `UpdateOrderStatus` do to the order and to the payments made.
use fincart.Prelude.{suc, ◌∷◌, ◌≡◌, refl, sym, ◌∙◌, none, some, Option, ap, not, ◌||◌, arith}
use fincart.Prelude.Tests.{true_of_not}
use fincart.Prelude.Int.{ℤ, eqb_ℤ, eqb_ℤ_iff, is_nonpositive}
use fincart.Payment.{PaymentResult, success, failed, timeout}
use fincart.Order.Status.{OrderStatus, pending, paid, status_eq}
use fincart.Order.Lifecycle.{status_eq_iff}
use fincart.Store.Schema.{Order, Db}
use fincart.Store.Rows.{find_where, update_where}
use fincart.Store.Monad.{ok, Env, Session, PaymentService, Charge, fail, return_if}
use fincart.Store.Hoare.{>>=-eq-ok}
use fincart.Store.Inversion.{pure-eq-ok, statement-eq-ok, query-eq-ok, guard-eq-ok, return_if-eq-ok}
use fincart.Database.{within_transaction}
use fincart.Database.Atomic.{within_transaction-eq-ok}
use fincart.Goods.Statuses.{set_status_lem}
use fincart.Order.Repository.{get_by_id_for_update, set_status, update_status, found}
use fincart.Order.Service.{own_pending, pay, settle, pay_body, pay_order}

abbrev pub with_status : ℤ → OrderStatus → Db → Db
with_status order_id status db = record db {
  orders = update_where (λ o. eqb_ℤ o.id order_id) (λ o. record o { status = status }) db.orders;
}

abbrev pub charge_of : Order → PaymentResult → Charge
charge_of o r = record {
  order_id = o.id;
  amount = o.total_amount;
  currency = o.currency;
  result = r;
}

pub found_lem : (r : Option Order) (o : Order) → found r ≡ ok o → r ≡ some o
unfolding found
found_lem none o h = cc
found_lem (some x) o h = cc

pub get_by_id_for_update-eq-ok :
    (env : Env) (id : ℤ) (s s' : Session) (o : Order)
    → get_by_id_for_update env id s ≡ (ok o, s')
    → (find_where (λ o. eqb_ℤ o.id id) s.db.orders ≡ some o)
      × (s'.db ≡ s.db)
      × (s'.charges ≡ s.charges)
unfolding get_by_id_for_update
get_by_id_for_update-eq-ok env id s s' o h =
    let (row, same, log) =
      query-eq-ok env (λ d. found (find_where (λ o. eqb_ℤ o.id id) d.orders)) s s' o h in
    (found_lem (find_where (λ o. eqb_ℤ o.id id) s.db.orders) o row, same, log)

-- The order that `CancelOrder` and `PayOrder` go on with.
pub own_pending-eq-ok :
    (env : Env) (user_id order_id : ℤ) (s s' : Session) (o : Order)
    → own_pending env user_id order_id s ≡ (ok o, s')
    → (find_where (λ o. eqb_ℤ o.id order_id) s.db.orders ≡ some o)
      × (o.user_id ≡ user_id)
      × (o.status ≡ pending)
      × (s'.db ≡ s.db)
      × (s'.charges ≡ s.charges)
unfolding own_pending
own_pending-eq-ok env user_id order_id s s' o h =
    let (x, t, hx, h1) = >>=-eq-ok (get_by_id_for_update env order_id) _ s s' o h in
    let (_, t1, hu, h2) = >>=-eq-ok (return_if (not (eqb_ℤ x.user_id user_id)) _) _ t s' o h1 in
    let (_, t2, hp, h3) = >>=-eq-ok (return_if (not (status_eq x.status pending)) _) _ t1 s' o h2 in
    let (row, same, log) = get_by_id_for_update-eq-ok env order_id s t x hx in
    let (owner, e1) = return_if-eq-ok _ _ t t1 _ hu in
    let (state, e2) = return_if-eq-ok _ _ t1 t2 _ hp in
    let (eo, e3) = pure-eq-ok x o t2 s' h3 in
    let es : s' ≡ t = sym e3 ∙ e2 ∙ e1 in
    (
      row ∙ ap some eo,
      ap (λ (r : Order). r.user_id) (sym eo)
          ∙ (eqb_ℤ_iff x.user_id user_id).0 (true_of_not _ owner),
      ap (λ (r : Order). r.status) (sym eo)
          ∙ (status_eq_iff x.status pending).0 (true_of_not _ state),
      ap (λ (r : Session). r.db) es ∙ same,
      ap (λ (r : Session). r.charges) es ∙ log,
    )

pay-eq-ok :
    (service : PaymentService) (o : Order) (s s' : Session) (r : PaymentResult)
    → pay service o s ≡ (ok r, s')
    → (service.pay o.id o.total_amount o.currency ≡ ok r)
      × (s'.charges ≡ charge_of o r ∷ s.charges)
      × (s'.db ≡ s.db)
unfolding pay
pay-eq-ok service o s s' r h = ground arith

pub update_status-eq-ok :
    (env : Env) (order_id : ℤ) (status : OrderStatus) (s s' : Session) (u : Unit {0})
    → update_status env order_id status s ≡ (ok u, s')
    → (set_status order_id status s.db ≡ (ok u, s'.db)) × (s'.charges ≡ s.charges)
unfolding update_status
update_status-eq-ok env order_id status s s' u h =
    statement-eq-ok env (set_status order_id status) s s' u h

settle-eq-ok :
    (env : Env) (order_id : ℤ) (r : PaymentResult) (s s' : Session) (u : Unit {0})
    → settle env order_id r s ≡ (ok u, s')
    → (r ≡ success) × (s'.charges ≡ s.charges) × (s'.db ≡ with_status order_id paid s.db)
unfolding settle update_status fail
settle-eq-ok env order_id success s s' u h =
    let (e, log) = statement-eq-ok env (set_status order_id paid) s s' u h in
    (refl, log, set_status_lem order_id paid s.db s'.db e)
settle-eq-ok env order_id failed s s' u h = cc
settle-eq-ok env order_id timeout s s' u h = cc
settle-eq-ok env order_id (PaymentResult.unknown t) s s' u h = cc

-- An order is paid only if it was the user's own and pending and the payment service, asked for its
-- total amount, answered `success`. Then one payment is made, and the status is all that changes.
pub pay_order_lem :
    (env : Env) (service : PaymentService) (user_id order_id : ℤ) (s s' : Session)
    → pay_order env service user_id order_id s ≡ (ok tt, s')
    → (o : Order) × (find_where (λ o. eqb_ℤ o.id order_id) s.db.orders ≡ some o)
      × (o.user_id ≡ user_id)
      × (o.status ≡ pending)
      × (service.pay o.id o.total_amount o.currency ≡ ok success)
      × (s'.charges ≡ charge_of o success ∷ s.charges)
      × (s'.db ≡ with_status order_id paid s.db)
unfolding pay_order pay_body
pay_order_lem env service user_id order_id s s' h =
    let (_, h0) =
      guard-eq-ok (is_nonpositive user_id || is_nonpositive order_id) _
        (within_transaction env (pay_body env service user_id order_id)) s s' tt h in
    let (t, hb, edb, elog) = within_transaction-eq-ok env _ s s' tt h0 in
    let begun : Session = record s { calls = suc s.calls } in
    let (o, t1, ho, h1) = >>=-eq-ok (own_pending env user_id order_id) _ begun t tt hb in
    let (r, t2, hr, h2) = >>=-eq-ok (pay service o) _ t1 t tt h1 in
    let (row, owner, state, d1, l1) = own_pending-eq-ok env user_id order_id begun t1 o ho in
    let (answer, l2, d2) = pay-eq-ok service o t1 t2 r hr in
    let (er, l3, d3) = settle-eq-ok env order_id r t2 t tt h2 in
    (
      o,
      row,
      owner,
      state,
      answer ∙ ap ok er,
      elog ∙ l3 ∙ l2 ∙ ap (λ c. charge_of o r ∷ c) l1 ∙ ap (λ x. charge_of o x ∷ s.charges) er,
      edb ∙ d3 ∙ ap (with_status order_id paid) (d2 ∙ d1),
    )
