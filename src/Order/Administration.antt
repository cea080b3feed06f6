-- ===== src/Order/Administration.antt =====
-- What `UpdateOrderStatus` does to the order, and to the goods it holds.
use fincart.Prelude.{suc, String, ◌≡◌, refl, sym, ◌∙◌, some, not, true, ap}
use fincart.Prelude.Int.{ℤ, ◌+ℤ◌, eqb_ℤ, is_nonpositive}
use fincart.Order.Status.{OrderStatus, pending, cancelled, of_string, is_valid, can_transition}
use fincart.Order.Lifecycle.{Transition, pay, cancel, process, ship, complete, can_transition_iff}
use fincart.Store.Schema.{Order, Db}
use fincart.Store.Rows.{find_where, select_where}
use fincart.Store.Monad.{
  Result, ok, Env, Session, return_if, order_error, invalid_order, invalid_order_state,
}
use fincart.Store.Hoare.{>>=-eq-ok}
use fincart.Store.Inversion.{guard-eq-ok, return_if-eq-ok}
use fincart.Database.{within_transaction}
use fincart.Database.Atomic.{within_transaction-eq-ok}
use fincart.Goods.{takes_stock, held, units}
use fincart.Goods.Laws.{any_order, in_order}
use fincart.Goods.Statuses.{set_status_lem, set_status-release}
use fincart.Order.Repository.{get_by_id_for_update, set_status}
use fincart.Order.Service.{update_status_body, update_order_status}
use fincart.Order.Payments.{with_status, get_by_id_for_update-eq-ok, update_status-eq-ok}
use fincart.Prelude.Tests.{true_of_not}

abbrev ok_with : Unit {0} → Db → Result (Unit {0}) × Db
ok_with u d = (ok u, d)

-- The parts of a change of status that went through.
update_order_status_parts :
    (env : Env) (order_id : ℤ) (status : String) (s s' : Session)
    → update_order_status env order_id status s ≡ (ok tt, s')
    → (o : Order) × (find_where (λ o. eqb_ℤ o.id order_id) s.db.orders ≡ some o)
      × (can_transition o.status (of_string status) ≡ true)
      × (is_valid (of_string status) ≡ true)
      × (s'.charges ≡ s.charges)
      × (set_status order_id (of_string status) s.db ≡ (ok tt, s'.db))
unfolding update_order_status update_status_body
update_order_status_parts env order_id status s s' h =
    let new = of_string status in
    let body = within_transaction env (update_status_body env order_id new) in
    let begun : Session = record s { calls = suc s.calls } in
    let (_, h0) = guard-eq-ok (is_nonpositive order_id) (order_error invalid_order) _ s s' tt h in
    let (valid, h1) =
      guard-eq-ok (not (is_valid new)) (order_error invalid_order_state) body s s' tt h0 in
    let (t, hb, edb, elog) = within_transaction-eq-ok env _ s s' tt h1 in
    let (o, t1, ho, h2) = >>=-eq-ok (get_by_id_for_update env order_id) _ begun t tt hb in
    let (_, t2, hc, h3) =
      >>=-eq-ok (return_if (not (can_transition o.status new)) _) _ t1 t tt h2 in
    let (row, d1, l1) = get_by_id_for_update-eq-ok env order_id begun t1 o ho in
    let (allowed, e2) = return_if-eq-ok (not (can_transition o.status new)) _ t1 t2 _ hc in
    let (e3, l3) = update_status-eq-ok env order_id new t2 t tt h3 in
    (
      o,
      row,
      true_of_not _ allowed,
      true_of_not _ valid,
      elog ∙ l3 ∙ ap (λ (x : Session). x.charges) e2 ∙ l1,
      ap (set_status order_id new) (sym (ap (λ (x : Session). x.db) e2 ∙ d1))
          ∙ e3
          ∙ ap (ok_with tt) (sym edb),
    )

-- An administrator's change of status goes along an edge of the life cycle, and changes the status
-- of that order and nothing else.
pub update_order_status_lem :
    (env : Env) (order_id : ℤ) (status : String) (s s' : Session)
    → update_order_status env order_id status s ≡ (ok tt, s')
    → (o : Order) × (find_where (λ o. eqb_ℤ o.id order_id) s.db.orders ≡ some o)
      × Transition o.status (of_string status)
      × (s'.db ≡ with_status order_id (of_string status) s.db)
      × (s'.charges ≡ s.charges)
update_order_status_lem env order_id status s s' h =
    let (o, row, allowed, _, log, e) = update_order_status_parts env order_id status s s' h in
    (
      o,
      row,
      (can_transition_iff o.status (of_string status)).0 allowed,
      set_status_lem order_id (of_string status) s.db s'.db e,
      log,
    )

cancelled_from : (a : OrderStatus) → Transition a cancelled → a ≡ pending
cancelled_from a t = from a cancelled t refl
  where
    from : (a b : OrderStatus) → Transition a b → b ≡ cancelled → a ≡ pending
    from a b cancel e = refl
    from a b pay e = refl
    from a b process e = cc
    from a b ship e = cc
    from a b complete e = cc

-- When an administrator sets the status to `cancelled`, the stock does not get the items of the
-- order back: the units that the shop knows of fall by what the order held.
pub update_order_status-cancelled_loses :
    (id : ℤ) (env : Env) (order_id : ℤ) (s s' : Session)
    → update_order_status env order_id "cancelled" s ≡ (ok tt, s')
    → units id s.db
      ≡ units id s'.db +ℤ held id any_order (select_where (in_order order_id) s.db.items)
unfolding of_string takes_stock
update_order_status-cancelled_loses id env order_id s s' h =
    let (o, row, allowed, _, _, e) = update_order_status_parts env order_id "cancelled" s s' h in
    let was = cancelled_from o.status ((can_transition_iff o.status cancelled).0 allowed) in
    set_status-release id order_id cancelled o s.db s'.db e row (ap takes_stock was) refl
