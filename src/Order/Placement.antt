-- ===== src/Order/Placement.antt =====
-- The order that `CreateOrder` returns.
use fincart.Prelude.{
  List, [], ◌∷◌, ◌++◌, ◌≡◌, refl, sym, ap, ◌∙◌, subst, Option, some, none, ◌||◌, suc, arith, map,
}
use fincart.Prelude.Lists.{All, is_empty}
use fincart.Prelude.Int.{ℤ, ◌-ℤ◌, wrap64, +ℤ_zero_left, is_nonpositive}
use fincart.Order.Status.{pending}
use fincart.Store.Schema.{Product, Order, OrderItem, Db}
use fincart.Store.Monad.{ok, Env, Session, fail}
use fincart.Store.Hoare.{>>=-eq-ok, Triple, Triple-pure, Triple->>=, Triple-statement}
use fincart.Store.Inversion.{pure-eq-ok, statement-eq-ok, guard-eq-ok}
use fincart.Database.Atomic.{within_transaction-eq-ok}
use fincart.Product.Repository as Products
use fincart.Order.Quantities.{Quantities, CreateOrderItem, quantity_of, keys, sort_ids, collect}
use fincart.Order.Pricing.{cost, InStock, price_products-eq-ok}
use fincart.Order.Repository
use fincart.Order.Requested.{requested, collect_lem}
use fincart.Store.Insert.{insert_order}
use fincart.Goods.Statements.{insert_order_lem, insert_item_lem, set_stock_lem}
use fincart.Order.Service.{
  nothing_priced, price_products, new_order, order_item, write_items, place_order, place_collected,
  create_order,
}

create_item-orders :
    (env : Env) (row : OrderItem) (os : List Order)
    → Triple (λ d. d.orders ≡ os) (Repository.create_item env row) (λ _ d. d.orders ≡ os)
unfolding Repository.create_item
create_item-orders env row os = Triple-statement env _ (λ d d' i h e.
    let (_, ed, _, _) = insert_item_lem row i d d' e in ap (λ (x : Db). x.orders) ed ∙ h)

decrease_stock-orders :
    (env : Env) (id quantity : ℤ) (os : List Order)
    → Triple (λ d. d.orders ≡ os) (Products.decrease_stock env id quantity) (λ _ d. d.orders ≡ os)
unfolding Products.decrease_stock
decrease_stock-orders env id quantity os = Triple-statement env _ (λ d d' u h e.
    ap (λ (x : Db). x.orders) (set_stock_lem id quantity (λ stock. stock -ℤ quantity) d d' e) ∙ h)

write_items-orders :
    (env : Env) (m : Quantities) (order_id : ℤ) (os : List Order) (ps : List Product)
    → Triple (λ d. d.orders ≡ os) (write_items env m order_id ps) (λ _ d. d.orders ≡ os)
unfolding write_items
write_items-orders env m order_id os [] = Triple-pure tt (λ d p. p)
write_items-orders env m order_id os (p ∷ ps) =
    Triple->>= (create_item-orders env (order_item order_id (quantity_of p.id m) p) os) (λ item.
      Triple->>= (decrease_stock-orders env p.id (quantity_of p.id m) os)
        (λ _. write_items-orders env m order_id os ps))

-- The order that was placed, and the products it was priced by.
abbrev pub IsPlaced : ℤ → Quantities → Db → Order → Db → Type 0
IsPlaced user_id m db o db' =
    (ps : List Product) × (map (λ (p : Product). p.id) ps ≡ sort_ids (keys m))
    × All (InStock m db) ps
    × (o.total_amount ≡ wrap64 (cost m ps))
    × (o.user_id ≡ user_id)
    × (o.status ≡ pending)
    × (db'.orders ≡ db.orders ++ o ∷ [])

created_row :
    (env : Env) (row : Order) (s s' : Session) (o : Order)
    → Repository.create env row s ≡ (ok o, s')
    → (o.total_amount ≡ row.total_amount)
      × (o.user_id ≡ row.user_id)
      × (o.status ≡ row.status)
      × (s'.db.orders ≡ s.db.orders ++ o ∷ [])
unfolding Repository.create
created_row env row s s' o h =
    let stamped = record row { created_at = env.now } in
    let (e, _) = statement-eq-ok env (insert_order stamped) s s' o h in
    let (eo, ed) = insert_order_lem stamped o s.db s'.db e in
    (
      ap (λ (x : Order). x.total_amount) eo,
      ap (λ (x : Order). x.user_id) eo,
      ap (λ (x : Order). x.status) eo,
      ap (λ (x : Db). x.orders) ed,
    )

place_order-eq-ok :
    (env : Env) (user_id : ℤ) (m : Quantities) (s s' : Session) (o : Order)
    → place_order env user_id m s ≡ (ok o, s')
    → IsPlaced user_id m s.db o s'.db
unfolding place_order
place_order-eq-ok env user_id m s s' o h =
    let (priced, s1, e1, h1) =
      >>=-eq-ok (price_products env m (sort_ids (keys m)) nothing_priced) _ s s' o h in
    let (created, s2, e2, h2) =
      >>=-eq-ok (Repository.create env (new_order user_id priced)) _ s1 s' o h1 in
    let (u, s3, e3, h3) = >>=-eq-ok (write_items env m created.id priced.products) _ s2 s' o h2 in
    let (eo, same) = pure-eq-ok created o s3 s' h3 in
    let ((ps, names, stocked, total), d1) =
      price_products-eq-ok env m (sort_ids (keys m)) nothing_priced priced s s1 (omega arith) e1 in
    let (etotal, euser, estatus, d2) =
      created_row env (new_order user_id priced) s1 s2 created e2 in
    let d3 =
      (write_items-orders env m created.id s2.db.orders priced.products).holds s2 s3 u refl e3 in
    (
      ps,
      names,
      stocked,
      ap (λ (x : Order). x.total_amount) (sym eo)
          ∙ etotal
          ∙ unfold new_order in total ∙ ap wrap64 (+ℤ_zero_left (cost m ps)),
      ap (λ (x : Order). x.user_id) (sym eo) ∙ euser ∙ unfold new_order in refl,
      ap (λ (x : Order). x.status) (sym eo) ∙ estatus ∙ unfold new_order in refl,
      ap (λ (x : Session). x.db.orders) (sym same) ∙ d3 ∙ d2 ∙ (λ i. (d1 i).orders ++ eo i ∷ []),
    )

place_collected-eq-ok :
    (env : Env) (user_id : ℤ) (q : Option Quantities) (s s' : Session) (o : Order)
    → place_collected env user_id q s ≡ (ok o, s')
    → (m : Quantities) × (q ≡ some m) × IsPlaced user_id m s.db o s'.db
unfolding place_collected fail
place_collected-eq-ok env user_id none s s' o h = cc
place_collected-eq-ok env user_id (some m) s s' o h =
    let (t, e, d, _) = within_transaction-eq-ok env (place_order env user_id m) s s' o h in
    (
      m,
      refl,
      subst (IsPlaced user_id m s.db o) (sym d)
          (place_order-eq-ok env user_id m (record s { calls = suc s.calls }) t o e),
    )

-- CreateOrder returns without error only a pending order of the user, added to the table of orders:
-- it locked the products in the order of `sort_ids`, each of them was there with at least the
-- quantity asked for over all lines of the request, and the total amount is their price. Quantities
-- and price are cut to 64 bits.
pub create_order_lem :
    (env : Env) (user_id : ℤ) (items : List CreateOrderItem) (s s' : Session) (o : Order)
    → create_order env user_id items s ≡ (ok o, s')
    → (m : Quantities) × (collect items [] ≡ some m)
      × ((id : ℤ) → quantity_of id m ≡ wrap64 (requested id items))
      × IsPlaced user_id m s.db o s'.db
unfolding create_order
create_order_lem env user_id items s s' o h =
    let (_, h0) =
      guard-eq-ok (is_nonpositive user_id || is_empty items) _
        (place_collected env user_id (collect items [])) s s' o h in
    let (m, e, placed) = place_collected-eq-ok env user_id (collect items []) s s' o h0 in
    (m, e, (λ id. collect_lem id items m e), placed)
