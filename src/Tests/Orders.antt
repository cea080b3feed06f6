-- ===== src/Tests/Orders.antt =====
-- The theorems about orders, at the small shop.
use fincart.Prelude.{ℕ, List, [], ◌∷◌, ◌≡◌, refl, some, arith, ◌≤◌}
use fincart.Prelude.Int.{pos, ◌+ℤ◌, eqb_ℤ, is_nonpositive}
use fincart.Payment.{success}
use fincart.Order.Status.{
  pending, paid, cancelled, processing, shipped, of_string, is_valid, can_transition, status_eq,
}
use fincart.Order.Lifecycle.{here, step, Transition, Chain-bounded}
use fincart.Store.Schema.{Order}
use fincart.Store.Rows.{find_where, select_where}
use fincart.Store.Monad.{
  Env, Session, ok, err, driver, fake_service, statement, ◌>>=◌, pure, return_if, fail,
}
use fincart.Database.Atomic.{SameTables}
use fincart.Database.{finish, within_transaction}
use fincart.Goods.{IsSound, units, held, stock_of, is_taken, takes_stock, item_units}
use fincart.Goods.Laws.{any_order, in_order}
use fincart.Order.Repository
use fincart.Order.Service
use fincart.Order.Requests.{OrderRequest, serve_all, serve_all-goods}
use fincart.Order.Payments.{with_status, charge_of, pay_order_lem}
use fincart.Order.Charging.{pay_order_succeeds, pay_order_uncommitted}
use fincart.Order.Reading.{get_order_lem}
use fincart.Order.Administration.{update_order_status_lem, update_order_status-cancelled_loses}
use fincart.Tests.Shop.{shop, session, connected, flaky, first_order, first_item}

shop-IsSound : IsSound shop
unfolding eqb_ℤ
shop-IsSound = record {
  orders_numbered = omega arith;
  items_numbered = omega arith;
  items_stocked = (refl, tt);
}

abbrev requests : List (Env × OrderRequest)
requests =
    (
      connected,
      OrderRequest.create (pos 7) (
          record { product_id = pos 2; quantity = pos 3 }
          ∷ record { product_id = pos 1; quantity = pos 1 }
          ∷ []),
    )
    ∷ (flaky, OrderRequest.cancel (pos 7) (pos 1))
    ∷ (connected, OrderRequest.pay (fake_service success) (pos 7) (pos 1))
    ∷ (connected, OrderRequest.set_status (pos 1) "processing")
    ∷ []

serve_all-goods_example :
    IsSound (serve_all requests session).db
    × (units (pos 1) (serve_all requests session).db ≡ units (pos 1) session.db)
unfolding of_string
serve_all-goods_example =
    serve_all-goods (pos 1) requests session shop-IsSound (tt, (tt, (tt, ((λ e. cc), tt))))

-- The laptops on stock and in the pending order.
units_of_laptops : units (pos 1) shop ≡ pos 12
unfolding units stock_of held is_taken takes_stock item_units eqb_ℤ ◌+ℤ◌
units_of_laptops = refl

-- The session after a payment that goes through.
abbrev paid_session : Session
paid_session = record {
  db = with_status (pos 1) paid shop;
  calls = 4;
  charges = charge_of first_order success ∷ [];
}

pay_first_order :
    Service.pay_order connected (fake_service success) (pos 7) (pos 1) session
    ≡ (ok tt, paid_session)
unfolding Service.pay_order within_transaction finish Service.pay_body Service.own_pending
    Repository.get_by_id_for_update Repository.found Service.pay Service.settle
    Repository.update_status Repository.set_status statement ◌>>=◌ pure return_if fail status_eq
    eqb_ℤ is_nonpositive fake_service
pay_first_order = refl

pay_order_lem_example :
    (o : Order) × (find_where (λ o. eqb_ℤ o.id (pos 1)) shop.orders ≡ some o)
    × (o.user_id ≡ pos 7)
    × (o.status ≡ pending)
    × ((fake_service success).pay o.id o.total_amount o.currency ≡ ok success)
    × (paid_session.charges ≡ charge_of o success ∷ [])
    × (paid_session.db ≡ with_status (pos 1) paid shop)
pay_order_lem_example =
    pay_order_lem connected (fake_service success) (pos 7) (pos 1) session paid_session
      pay_first_order

pay_order_succeeds_example :
    let after = Service.pay_order connected (fake_service success) (pos 7) (pos 1) session in
    (after.0 ≡ ok tt)
    × (after.1.db ≡ with_status (pos 1) paid shop)
    × (find_where (λ o. eqb_ℤ o.id (pos 1)) after.1.db.orders
        ≡ some (record first_order { status = paid }))
    × (after.1.charges ≡ charge_of first_order success ∷ [])
unfolding eqb_ℤ is_nonpositive fake_service
pay_order_succeeds_example =
    pay_order_succeeds connected (fake_service success) (pos 7) (pos 1) session first_order
      (λ n. refl) refl refl refl refl refl refl

-- The fourth call of a payment is COMMIT.
pay_order_uncommitted_example :
    let after = Service.pay_order flaky (fake_service success) (pos 7) (pos 1) session in
    (after.0 ≡ err driver)
    × SameTables shop after.1.db
    × (after.1.charges ≡ charge_of first_order success ∷ [])
unfolding eqb_ℤ is_nonpositive fake_service
pay_order_uncommitted_example =
    pay_order_uncommitted flaky (fake_service success) (pos 7) (pos 1) session first_order refl refl
      refl refl refl refl refl refl refl refl refl

abbrev read_session : Session
read_session = record session { calls = 4 }

read_first_order :
    Service.get_order connected (pos 7) (pos 1) session
    ≡ (ok (first_order, first_item ∷ []), read_session)
unfolding Service.get_order within_transaction finish Service.get_order_body Repository.get_by_id
    Repository.found Repository.get_items statement ◌>>=◌ pure return_if eqb_ℤ is_nonpositive
read_first_order = refl

get_order_lem_example :
    (find_where (λ o. eqb_ℤ o.id (pos 1)) shop.orders ≡ some first_order)
    × (first_order.user_id ≡ pos 7)
    × (first_item ∷ [] ≡ select_where (λ i. eqb_ℤ i.order_id (pos 1)) shop.items)
    × (read_session.db ≡ shop)
    × (read_session.charges ≡ [])
get_order_lem_example =
    get_order_lem connected (pos 7) (pos 1) session read_session first_order (first_item ∷ [])
      read_first_order

-- The session after an administrator has cancelled the order.
abbrev cancelled_session : Session
cancelled_session = record { db = with_status (pos 1) cancelled shop; calls = 4; charges = [] }

cancel_first_order :
    Service.update_order_status connected (pos 1) "cancelled" session ≡ (ok tt, cancelled_session)
unfolding Service.update_order_status within_transaction finish Service.update_status_body
    Repository.get_by_id_for_update Repository.found Repository.update_status Repository.set_status
    statement ◌>>=◌ pure return_if fail status_eq can_transition of_string is_valid eqb_ℤ
    is_nonpositive
cancel_first_order = refl

update_order_status_lem_example :
    (o : Order) × (find_where (λ o. eqb_ℤ o.id (pos 1)) shop.orders ≡ some o)
    × Transition o.status (of_string "cancelled")
    × (cancelled_session.db ≡ with_status (pos 1) (of_string "cancelled") shop)
    × (cancelled_session.charges ≡ [])
update_order_status_lem_example =
    update_order_status_lem connected (pos 1) "cancelled" session cancelled_session
      cancel_first_order

update_order_status-cancelled_loses_example :
    units (pos 1) shop
    ≡ units (pos 1) cancelled_session.db
      +ℤ held (pos 1) any_order (select_where (in_order (pos 1)) shop.items)
update_order_status-cancelled_loses_example =
    update_order_status-cancelled_loses (pos 1) connected (pos 1) session cancelled_session
      cancel_first_order

Chain-bounded_example : (2 ≤ 4) × (paid ≡ shipped → ◌≡◌ {A = ℕ} 2 0)
unfolding can_transition status_eq
Chain-bounded_example =
    Chain-bounded {a = paid} {b = shipped}
      (step {t = processing} refl (step {t = shipped} refl here))
