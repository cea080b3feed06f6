-- ===== src/Goods/Statements.antt =====
-- What the statements of the order tables and of the stock do to the units of a product.
use fincart.Prelude.{
  ℕ, suc, Bool, true, false, none, List, [], ◌∷◌, ◌++◌, ◌≡◌, refl, ◌∙◌, arith, ap,
}
use fincart.Prelude.Tests.{if◌then◌else◌}
use fincart.Prelude.Lists.{All, All-append, All-map}
use fincart.Prelude.Int.{ℤ, pos, ◌+ℤ◌, ◌≤ℤ◌, eqb_ℤ, eqb_ℤ_iff, eqb_ℤ_refl, int_laws}
use fincart.Store.Schema.{Product, Order, OrderItem, Db}
use fincart.Store.Rows.{find_where, update_where, any_where}
use fincart.Store.Rows.Laws.{
  keyed, any_where-update_where, find_where_fresh, find_where-append_one, find_where-append_ne,
}
use fincart.Store.Insert.{insert_order, insert_item}
use fincart.Store.Monad.{ok}
use fincart.Product.Repository.{set_stock}
use fincart.Goods.{takes_stock, is_taken, stock_of, item_units, held, units, IsSound}
use fincart.Goods.Laws.{stock_of-update_where, held-append_one, held_cong, any_order}

-- What a statement that went through has written.
pub insert_order_lem :
    (row o : Order) (db db' : Db)
    → insert_order row db ≡ (ok o, db')
    → (o ≡ record row { id = pos (suc db.order_seq) })
      × (db' ≡ record db { orders = db.orders ++ o ∷ []; order_seq = suc db.order_seq })
unfolding insert_order
insert_order_lem row o db db' h = ground arith

pub insert_item_lem :
    (row i : OrderItem) (db db' : Db)
    → insert_item row db ≡ (ok i, db')
    → (i ≡ record row { id = pos (suc db.item_seq) })
      × (db' ≡ record db { items = db.items ++ i ∷ []; item_seq = suc db.item_seq })
      × (any_where (λ o. eqb_ℤ o.id row.order_id) db.orders ≡ true)
      × (any_where (λ p. eqb_ℤ p.id row.product_id) db.products ≡ true)
unfolding insert_item
insert_item_lem row i db db' h = ground arith

pub set_stock_lem :
    (id quantity : ℤ) (change : ℤ → ℤ) (db db' : Db)
    → set_stock id quantity change db ≡ (ok tt, db')
    → db' ≡ record db {
      products =
          update_where (λ p. eqb_ℤ p.id id) (λ p. record p { stock = change p.stock }) db.products;
    }
unfolding set_stock
set_stock_lem id quantity change db db' h = ground arith

-- A new order has a number of its own, so no item belongs to it yet.
is_taken-append_one :
    (orders : List Order) (n : ℕ) (o : Order) (k : ℤ)
    → o.id ≡ pos (suc n)
    → k ≤ℤ pos n
    → is_taken (orders ++ o ∷ []) k ≡ is_taken orders k
unfolding is_taken
is_taken-append_one orders n o k e le =
    let other : eqb_ℤ o.id k ≡ false = ground (arith, eqb_ℤ_iff o.id k) in
    rw (find_where-append_ne (λ (o : Order). o.id) k orders o other, is_taken)

is_taken_new :
    (orders : List Order) (n : ℕ) (o : Order)
    → All (λ x. x.id ≤ℤ pos n) orders
    → o.id ≡ pos (suc n)
    → is_taken (orders ++ o ∷ []) o.id ≡ takes_stock o.status
unfolding is_taken
is_taken_new orders n o h e =
    let fresh : find_where (keyed (λ (o : Order). o.id) o.id) orders ≡ none =
      rw e (find_where_fresh (λ (o : Order). o.id) n orders h) in
    rw (find_where-append_one (λ (o : Order). o.id) o.id orders o fresh, eqb_ℤ_refl o.id, is_taken)

-- The next number of a sequence bounds the numbers before it.
numbered_step :
    {A : Type 0} (key : A → ℤ) (n : ℕ) (xs : List A)
    → All (λ x. key x ≤ℤ pos n) xs
    → All (λ x. key x ≤ℤ pos (suc n)) xs
numbered_step key n xs h =
    All-map (λ x. key x ≤ℤ pos n) (λ x. key x ≤ℤ pos (suc n)) xs (λ x p. omega arith) h

pub insert_order-units :
    (id : ℤ) (row o : Order) (db db' : Db)
    → IsSound db
    → insert_order row db ≡ (ok o, db')
    → IsSound db'
      × (units id db' ≡ units id db)
      × (is_taken db'.orders o.id ≡ takes_stock row.status)
unfolding units
insert_order-units id row o db db' sound h =
    let (eo, edb) = insert_order_lem row o db db' h in
    let eid : o.id ≡ pos (suc db.order_seq) = ap (λ (x : Order). x.id) eo in
    let est : o.status ≡ row.status = ap (λ (x : Order). x.status) eo in
    let same = held_cong id (is_taken db.orders) (is_taken (db.orders ++ o ∷ [])) db.items (
      All-map (λ i. i.order_id ≤ℤ pos db.order_seq)
        (λ i. is_taken (db.orders ++ o ∷ []) i.order_id ≡ is_taken db.orders i.order_id) db.items
        (λ i p. is_taken-append_one db.orders db.order_seq o i.order_id eid p)
        sound.items_numbered) in
    rw edb (
      record {
        orders_numbered =
            All-append (λ x. x.id ≤ℤ pos (suc db.order_seq)) db.orders (o ∷ [])
              (numbered_step (λ (x : Order). x.id) db.order_seq db.orders sound.orders_numbered)
              (rw eid (omega arith), tt);
        items_numbered =
            numbered_step (λ (i : OrderItem). i.order_id) db.order_seq db.items
              sound.items_numbered;
        items_stocked = sound.items_stocked;
      },
      rw same,
      is_taken_new db.orders db.order_seq o sound.orders_numbered eid ∙ ap takes_stock est,
    )

-- An order that a row names is numbered like all orders.
order_bound :
    (n : ℕ) (k : ℤ) (orders : List Order)
    → All (λ o. o.id ≤ℤ pos n) orders
    → any_where (λ o. eqb_ℤ o.id k) orders ≡ true
    → k ≤ℤ pos n
order_bound n k [] h t = cc
order_bound n k (o ∷ orders) h t = ground (arith, eqb_ℤ_iff o.id k, order_bound n k orders h.1)

item_units_taken :
    (id : ℤ) (taken : ℤ → Bool) (i row : OrderItem)
    → i.product_id ≡ row.product_id
    → i.order_id ≡ row.order_id
    → i.quantity ≡ row.quantity
    → taken row.order_id ≡ true
    → item_units id taken i ≡ item_units id any_order row
unfolding item_units
item_units_taken id taken i row ep eo eq t = rw (ep, eo, eq, t)

pub insert_item-units :
    (id : ℤ) (row i : OrderItem) (db db' : Db)
    → IsSound db
    → insert_item row db ≡ (ok i, db')
    → is_taken db.orders row.order_id ≡ true
    → IsSound db'
      × (units id db' ≡ units id db +ℤ item_units id any_order row)
      × (db'.orders ≡ db.orders)
      × (any_where (λ p. eqb_ℤ p.id row.product_id) db'.products ≡ true)
unfolding units
insert_item-units id row i db db' sound h taken =
    let (ei, edb, eo, ep) = insert_item_lem row i db db' h in
    let eorder : i.order_id ≡ row.order_id = ap (λ (x : OrderItem). x.order_id) ei in
    let eproduct : i.product_id ≡ row.product_id = ap (λ (x : OrderItem). x.product_id) ei in
    let equantity : i.quantity ≡ row.quantity = ap (λ (x : OrderItem). x.quantity) ei in
    let bound = order_bound db.order_seq row.order_id db.orders sound.orders_numbered eo in
    let more = held-append_one id (is_taken db.orders) db.items i in
    let mine = item_units_taken id (is_taken db.orders) i row eproduct eorder equantity taken in
    rw edb (
      record {
        orders_numbered = sound.orders_numbered;
        items_numbered =
            All-append (λ x. x.order_id ≤ℤ pos db.order_seq) db.items (i ∷ []) sound.items_numbered
              (rw eorder bound, tt);
        items_stocked =
            All-append (λ x. any_where (λ p. eqb_ℤ p.id x.product_id) db.products ≡ true) db.items
              (i ∷ []) sound.items_stocked (rw eproduct ep, tt);
      },
      rw (more, mine) (omega int_laws),
      refl,
      ep,
    )

-- A change of the stock of a product that is there moves its units by as much.
pub set_stock-units :
    (id target quantity : ℤ) (change : ℤ → ℤ) (db db' : Db)
    → IsSound db
    → set_stock target quantity change db ≡ (ok tt, db')
    → any_where (λ p. eqb_ℤ p.id target) db.products ≡ true
    → IsSound db'
      × (units id db'
          ≡ (if eqb_ℤ id target then change (stock_of id db.products) else stock_of id db.products)
            +ℤ held id (is_taken db.orders) db.items)
      × (db'.orders ≡ db.orders)
      × (db'.items ≡ db.items)
unfolding units
set_stock-units id target quantity change db db' sound h there =
    let edb = set_stock_lem target quantity change db db' h in
    let f = λ (p : Product). record p { stock = change p.stock } in
    rw edb (
      record {
        orders_numbered = sound.orders_numbered;
        items_numbered = sound.items_numbered;
        items_stocked =
            All-map (λ x. any_where (λ p. eqb_ℤ p.id x.product_id) db.products ≡ true)
              (λ x.
                any_where (λ p. eqb_ℤ p.id x.product_id)
                  (update_where (λ p. eqb_ℤ p.id target) f db.products)
                ≡ true)
              db.items
              (λ x p.
                any_where-update_where (λ (p : Product). p.id) f target x.product_id db.products
                  (λ p. refl)
                ∙ p)
              sound.items_stocked;
      },
      rw (stock_of-update_where change target id db.products there),
      refl,
      refl,
    )

-- The products that are there stay there.
pub set_stock-any_where :
    (target quantity : ℤ) (change : ℤ → ℤ) (db db' : Db)
    → set_stock target quantity change db ≡ (ok tt, db')
    → (k : ℤ)
    → any_where (λ p. eqb_ℤ p.id k) db'.products ≡ any_where (λ p. eqb_ℤ p.id k) db.products
set_stock-any_where target quantity change db db' h k =
    rw (set_stock_lem target quantity change db db' h) (
      any_where-update_where (λ (p : Product). p.id) (λ p. record p { stock = change p.stock })
        target k db.products (λ p. refl))
