-- ===== src/Goods/Statuses.antt =====
-- What a change of an order's status does to the units of a product.
use mathlib.Core.Path.{fun_ext}
use fincart.Prelude.{true, false, some, List, ◌≡◌, refl, sym, ◌∙◌, arith, inl, inr, ap}
use fincart.Prelude.Tests.{Bool-cases}
use fincart.Prelude.Int.{ℤ, pos, ◌+ℤ◌, ◌≤ℤ◌, eqb_ℤ, eqb_ℤ_iff, eqb_ℤ_refl, int_laws}
use fincart.Order.Status.{OrderStatus}
use fincart.Store.Schema.{Order, Db}
use fincart.Store.Rows.{find_where, select_where, update_where}
use fincart.Store.Rows.Laws.{find_where-update_where, All-update_where}
use fincart.Store.Monad.{ok}
use fincart.Order.Repository.{set_status}
use fincart.Goods.{takes_stock, is_taken, stock_of, held, units, IsSound}
use fincart.Goods.Laws.{held_release, any_order, in_order}

-- What the update has written.
pub set_status_lem :
    (id : ℤ) (status : OrderStatus) (db db' : Db)
    → set_status id status db ≡ (ok tt, db')
    → db' ≡ record db {
      orders = update_where (λ o. eqb_ℤ o.id id) (λ o. record o { status = status }) db.orders;
    }
unfolding set_status
set_status_lem id status db db' h = ground arith

-- The statuses after an update of one order.
is_taken-update_ne :
    (orders : List Order) (oid k : ℤ) (status : OrderStatus)
    → eqb_ℤ k oid ≡ false
    → is_taken (update_where (λ o. eqb_ℤ o.id oid) (λ o. record o { status = status }) orders) k
      ≡ is_taken orders k
unfolding is_taken
is_taken-update_ne orders oid k status other =
    let e =
      find_where-update_where (λ (o : Order). o.id) (λ o. record o { status = status }) oid k orders
        (λ o. refl) in
    rw (e, other, is_taken)

is_taken-update_self :
    (orders : List Order) (oid : ℤ) (status : OrderStatus) (o : Order)
    → find_where (λ o. eqb_ℤ o.id oid) orders ≡ some o
    → is_taken (update_where (λ o. eqb_ℤ o.id oid) (λ o. record o { status = status }) orders) oid
      ≡ takes_stock status
unfolding is_taken
is_taken-update_self orders oid status o found =
    let e =
      find_where-update_where (λ (o : Order). o.id) (λ o. record o { status = status }) oid oid
        orders (λ o. refl) in
    rw (e, eqb_ℤ_refl oid, is_taken) (rw (found, is_taken))

pub is_taken_found :
    (orders : List Order) (oid : ℤ) (o : Order)
    → find_where (λ o. eqb_ℤ o.id oid) orders ≡ some o
    → is_taken orders oid ≡ takes_stock o.status
unfolding is_taken
is_taken_found orders oid o found = rw (found, is_taken)

pub set_status-IsSound :
    (oid : ℤ) (status : OrderStatus) (db db' : Db)
    → IsSound db
    → set_status oid status db ≡ (ok tt, db')
    → IsSound db'
set_status-IsSound oid status db db' sound h = rw (set_status_lem oid status db db' h) (record {
  orders_numbered =
      All-update_where (λ (o : Order). o.id) (λ o. o.id ≤ℤ pos db.order_seq)
        (λ o. record o { status = status }) (λ o. eqb_ℤ o.id oid) db.orders (λ o p. p)
        sound.orders_numbered;
  items_numbered = sound.items_numbered;
  items_stocked = sound.items_stocked;
})

-- A status that lets go of the items: their units are in no order any more.
pub set_status-release :
    (id oid : ℤ) (status : OrderStatus) (o : Order) (db db' : Db)
    → set_status oid status db ≡ (ok tt, db')
    → find_where (λ o. eqb_ℤ o.id oid) db.orders ≡ some o
    → takes_stock o.status ≡ true
    → takes_stock status ≡ false
    → units id db ≡ units id db' +ℤ held id any_order (select_where (in_order oid) db.items)
unfolding units
set_status-release id oid status o db db' h found takes lets =
    let moved =
      held_release id oid (is_taken db.orders)
        (is_taken
          (update_where (λ o. eqb_ℤ o.id oid) (λ o. record o { status = status }) db.orders))
        db.items (is_taken_found db.orders oid o found ∙ takes)
        (is_taken-update_self db.orders oid status o found ∙ lets)
        (λ k other. is_taken-update_ne db.orders oid k status other) in
    rw (set_status_lem oid status db db' h) (rw moved (omega int_laws))

-- A status that takes the items of an order that did not.
pub set_status-take :
    (id oid : ℤ) (status : OrderStatus) (o : Order) (db db' : Db)
    → set_status oid status db ≡ (ok tt, db')
    → find_where (λ o. eqb_ℤ o.id oid) db.orders ≡ some o
    → takes_stock o.status ≡ false
    → takes_stock status ≡ true
    → units id db' ≡ units id db +ℤ held id any_order (select_where (in_order oid) db.items)
unfolding units
set_status-take id oid status o db db' h found lets takes =
    let moved =
      held_release id oid
        (is_taken
          (update_where (λ o. eqb_ℤ o.id oid) (λ o. record o { status = status }) db.orders))
        (is_taken db.orders) db.items (is_taken-update_self db.orders oid status o found ∙ takes)
        (is_taken_found db.orders oid o found ∙ lets)
        (λ k other. sym (is_taken-update_ne db.orders oid k status other)) in
    rw (set_status_lem oid status db db' h) (rw moved (omega int_laws))

-- A status that takes items as the one before it did.
pub set_status-keep :
    (id oid : ℤ) (status : OrderStatus) (o : Order) (db db' : Db)
    → set_status oid status db ≡ (ok tt, db')
    → find_where (λ o. eqb_ℤ o.id oid) db.orders ≡ some o
    → takes_stock status ≡ takes_stock o.status
    → units id db' ≡ units id db
unfolding units
set_status-keep id oid status o db db' h found same =
    let updated =
      update_where (λ o. eqb_ℤ o.id oid) (λ o. record o { status = status }) db.orders in
    let pointwise : (k : ℤ) → is_taken updated k ≡ is_taken db.orders k = λ k.
      elim (Bool-cases (eqb_ℤ k oid)) [
        | inl this ↦ rw ((eqb_ℤ_iff k oid).0 this) (
            is_taken-update_self db.orders oid status o found
            ∙ same
            ∙ sym (is_taken_found db.orders oid o found))
        | inr other ↦ is_taken-update_ne db.orders oid k status other
      ] in
    rw (set_status_lem oid status db db' h)
      (ap (λ t. stock_of id db.products +ℤ held id t db.items) (fun_ext pointwise))
