-- ===== src/Order/Charging.antt =====
-- When `PayOrder` goes through, and what a failing COMMIT leaves behind.
use fincart.Prelude.{
  ℕ, suc, ◌∷◌, ◌≡◌, refl, sym, subst, ◌∙◌, some, ap, not, List, [], arith, ◌||◌, true, false,
}
use fincart.Prelude.Int.{ℤ, eqb_ℤ, eqb_ℤ_iff, is_nonpositive}
use fincart.Payment.{PaymentResult, success}
use fincart.Order.Status.{pending, paid, status_eq}
use fincart.Order.Lifecycle.{status_eq_iff}
use fincart.Store.Schema.{Order, Db}
use fincart.Store.Rows.{find_where, update_where}
use fincart.Store.Monad.{Result, ok, err, driver, M, Env, Session, PaymentService, pure, return_if}
use fincart.Store.Inversion.{
  >>=_of_ok, statement_of_ok, guard_of_false, return_if_of_false, carried,
}
use fincart.Database.{within_transaction, restore, finish}
use fincart.Database.Atomic.{SameTables, within_transaction_of_ok}
use fincart.Order.Repository.{get_by_id_for_update, set_status, update_status, found}
use fincart.Order.Payments.{with_status, charge_of}
use fincart.Order.Service.{own_pending, pay, settle, pay_body, pay_order}

pub own_pending_succeeds :
    (env : Env) (user_id order_id : ℤ) (s : Session) (o : Order)
    → env.fault s.calls ≡ false
    → find_where (λ o. eqb_ℤ o.id order_id) s.db.orders ≡ some o
    → o.user_id ≡ user_id
    → o.status ≡ pending
    → own_pending env user_id order_id s ≡ (ok o, carried s s.db)
unfolding own_pending get_by_id_for_update found
own_pending_succeeds env user_id order_id s o fine row owner state =
    let t : Session = carried s s.db in
    let get =
      statement_of_ok env (λ d. (found (find_where (λ o. eqb_ℤ o.id order_id) d.orders), d)) s o
        s.db fine (rw (row, found)) in
    let e1 : not (eqb_ℤ o.user_id user_id) ≡ false = rw ((eqb_ℤ_iff o.user_id user_id).1 owner) in
    let e2 : not (status_eq o.status pending) ≡ false =
      rw ((status_eq_iff o.status pending).1 state) in
    >>=_of_ok (get_by_id_for_update env order_id) _ s t o get
    ∙ >>=_of_ok (return_if (not (eqb_ℤ o.user_id user_id)) _) _ t t tt (return_if_of_false _ _ t e1)
    ∙ >>=_of_ok (return_if (not (status_eq o.status pending)) _) _ t t tt
        (return_if_of_false _ _ t e2)
    ∙ unfold pure in refl

-- The session after a payment that the service answered.
abbrev pub charged : Session → Order → PaymentResult → Session
charged s o r = record s { charges = charge_of o r ∷ s.charges }

pub pay_succeeds :
    (service : PaymentService) (o : Order) (s : Session) (r : PaymentResult)
    → service.pay o.id o.total_amount o.currency ≡ ok r
    → pay service o s ≡ (ok r, charged s o r)
unfolding pay
pay_succeeds service o s r h = rw (h, pay)

settle_succeeds :
    (env : Env) (order_id : ℤ) (s : Session)
    → env.fault s.calls ≡ false
    → settle env order_id success s ≡ (ok tt, carried s (with_status order_id paid s.db))
unfolding settle update_status set_status status_eq
settle_succeeds env order_id s fine =
    statement_of_ok env (set_status order_id paid) s tt (with_status order_id paid s.db) fine refl

-- What the function in the transaction has done before COMMIT.
abbrev before_commit : Session → ℤ → Order → Session
before_commit s order_id o =
    let t = charged (carried s s.db) o success in carried t (with_status order_id paid t.db)

pay_body_succeeds :
    (env : Env) (service : PaymentService) (user_id order_id : ℤ) (s : Session) (o : Order)
    → env.fault s.calls ≡ false
    → env.fault (suc s.calls) ≡ false
    → find_where (λ o. eqb_ℤ o.id order_id) s.db.orders ≡ some o
    → o.user_id ≡ user_id
    → o.status ≡ pending
    → service.pay o.id o.total_amount o.currency ≡ ok success
    → pay_body env service user_id order_id s ≡ (ok tt, before_commit s order_id o)
unfolding pay_body
pay_body_succeeds env service user_id order_id s o f1 f2 row owner state answer =
    let t1 = carried s s.db in
    let t2 = charged t1 o success in
    >>=_of_ok (own_pending env user_id order_id) _ s t1 o
      (own_pending_succeeds env user_id order_id s o f1 row owner state)
    ∙ >>=_of_ok (pay service o) _ t1 t2 success (pay_succeeds service o t1 success answer)
    ∙ settle_succeeds env order_id t2 f2

found_paid :
    (order_id : ℤ) (o : Order) (xs : List Order)
    → find_where (λ o. eqb_ℤ o.id order_id) xs ≡ some o
    → find_where
        (λ o. eqb_ℤ o.id order_id)
        (update_where (λ o. eqb_ℤ o.id order_id) (λ o. record o { status = paid }) xs)
      ≡ some (record o { status = paid })
found_paid order_id o [] h = cc
found_paid order_id o (x ∷ xs) h = ground (arith, found_paid order_id o xs)

-- The other way round: with the connection up, an own pending order whose payment the service
-- answers with `success` is paid: PayOrder returns no error, the order has the status `paid` in the
-- tables, which are otherwise as before, and this one payment has been made.
pub pay_order_succeeds :
    (env : Env) (service : PaymentService) (user_id order_id : ℤ) (s : Session) (o : Order)
    → ((n : ℕ) → env.fault n ≡ false)
    → is_nonpositive user_id ≡ false
    → is_nonpositive order_id ≡ false
    → find_where (λ o. eqb_ℤ o.id order_id) s.db.orders ≡ some o
    → o.user_id ≡ user_id
    → o.status ≡ pending
    → service.pay o.id o.total_amount o.currency ≡ ok success
    → let after = pay_order env service user_id order_id s in
      (after.0 ≡ ok tt)
      × (after.1.db ≡ with_status order_id paid s.db)
      × (find_where (λ o. eqb_ℤ o.id order_id) after.1.db.orders
          ≡ some (record o { status = paid }))
      × (after.1.charges ≡ charge_of o success ∷ s.charges)
unfolding pay_order
pay_order_succeeds env service user_id order_id s o fine hu ho row owner state answer =
    let begun : Session = record s { calls = suc s.calls } in
    let done : pay_order env service user_id order_id s ≡ (ok tt, _) =
      guard_of_false (is_nonpositive user_id || is_nonpositive order_id) _
        (within_transaction env (pay_body env service user_id order_id)) s (rw (hu, ho))
      ∙ within_transaction_of_ok env (pay_body env service user_id order_id) s
          (before_commit begun order_id o) tt fine
          (pay_body_succeeds env service user_id order_id begun o (fine begun.calls)
            (fine (suc begun.calls)) row owner state answer) in
    let tables = ap (λ (x : Result (Unit {0}) × Session). x.1.db) done in
    (
      ap (λ (x : Result (Unit {0}) × Session). x.0) done,
      tables,
      ap (λ (d : Db). find_where (λ o. eqb_ℤ o.id order_id) d.orders) tables
          ∙ found_paid order_id o s.db.orders row,
      ap (λ (x : Result (Unit {0}) × Session). x.1.charges) done,
    )

-- A function that went through in a transaction whose COMMIT fails, and is not carried out.
uncommitted :
    {A : Type 0} (env : Env) (body : M A) (s t : Session) (a : A)
    → env.fault s.calls ≡ false
    → env.fault t.calls ≡ true
    → env.carried_out t.calls ≡ false
    → body (record s { calls = suc s.calls }) ≡ (ok a, t)
    → within_transaction env body s
      ≡ (err driver, record t { db = restore s.db t.db; calls = suc t.calls })
unfolding within_transaction finish
uncommitted env body s t a fine broken lost h = rw (fine, h, broken, lost)

-- When the statements go through and only COMMIT fails, and is not carried out, PayOrder returns an
-- error and the order stays pending in the tables, but the payment service has been asked and has
-- taken the amount.
pub pay_order_uncommitted :
    (env : Env) (service : PaymentService) (user_id order_id : ℤ) (s : Session) (o : Order)
    → env.fault s.calls ≡ false
    → env.fault (suc s.calls) ≡ false
    → env.fault (suc (suc s.calls)) ≡ false
    → env.fault (suc (suc (suc s.calls))) ≡ true
    → env.carried_out (suc (suc (suc s.calls))) ≡ false
    → is_nonpositive user_id ≡ false
    → is_nonpositive order_id ≡ false
    → find_where (λ o. eqb_ℤ o.id order_id) s.db.orders ≡ some o
    → o.user_id ≡ user_id
    → o.status ≡ pending
    → service.pay o.id o.total_amount o.currency ≡ ok success
    → let after = pay_order env service user_id order_id s in
      (after.0 ≡ err driver)
      × SameTables s.db after.1.db
      × (after.1.charges ≡ charge_of o success ∷ s.charges)
unfolding pay_order restore
pay_order_uncommitted env service user_id order_id s o f0 f1 f2 f3 lost hu ho row owner state
      answer =
    let begun : Session = record s { calls = suc s.calls } in
    let done : pay_order env service user_id order_id s ≡ (err driver, _) =
      guard_of_false (is_nonpositive user_id || is_nonpositive order_id) _
        (within_transaction env (pay_body env service user_id order_id)) s (rw (hu, ho))
      ∙ uncommitted env (pay_body env service user_id order_id) s (before_commit begun order_id o)
          tt f0 f3 lost
          (pay_body_succeeds env service user_id order_id begun o f1 f2 row owner state answer) in
    (
      ap (λ (x : Result (Unit {0}) × Session). x.0) done,
      subst (λ (x : Result (Unit {0}) × Session). SameTables s.db x.1.db) (sym done)
          (record { products = refl; orders = refl; items = refl; users = refl; tokens = refl }),
      ap (λ (x : Result (Unit {0}) × Session). x.1.charges) done,
    )
