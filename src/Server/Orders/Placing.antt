-- ===== src/Server/Orders/Placing.antt =====
-- Placing an order makes steps.
use fincart.Prelude.{
  arith, suc, ◌&&◌, ◌++◌, List, [], ◌∷◌, ◌≡◌, refl, true, not, some, none, ◌∙◌, Option, inl, inr,
  subst,
}
use fincart.Prelude.Tests.{Bool-cases}
use fincart.Prelude.Int.{ℤ, pos, eqb_ℤ, eqb_ℤ_iff}
use fincart.Order.Status.{status_eq, draft, pending}
use fincart.Order.Quantities.{Quantities, CreateOrderItem, quantity_of}
use fincart.Store.Schema.{Product, Order, OrderItem, Db}
use fincart.Store.Rows.{any_where}
use fincart.Store.Rows.Laws.{any_where-append_one}
use fincart.Store.Insert.{insert_item, insert_order, fits_currency, has_draft}
use fincart.Store.Monad.{Result, ok, Env}
use fincart.Store.Hoare.{Triple, Triple-statement}
use fincart.Database.{restore}
use fincart.Product.Repository as Products
use fincart.Product.Repository.{set_stock}
use fincart.Order.Repository
use fincart.Order.Service.{
  order_item, new_order, Priced, price_products, write_items, place_order, place_collected,
  create_order,
}
use fincart.Server.Kept.{Kept, is_pending}
use fincart.Server.Products.{get_by_id_for_update-Steps, decrease_stock-Steps}
use fincart.Server.Steps.{
  IsStep, Steps, StepsFrom, Steps-StepsFrom, StepsFrom-Steps, Steps-fail, Steps-pure,
  Steps-statement, Steps-map_error, Steps->>=, StepsFrom->>=, StepsFrom-chain, StepsFrom-first,
  StepsFrom-statement, Steps-if, Steps-return_if, Steps-within_transaction, Triple-orders,
}

-- The statements on the stock leave the orders alone.
pub same_orders : IsStep (λ d d'. d'.orders ≡ d.orders)
unfolding restore
same_orders = record { same = λ d. refl; next = λ a b c h k. k ∙ h; restored = λ d d' h. refl }

pub set_stock-orders :
    (id quantity : ℤ) (change : ℤ → ℤ) (d : Db)
    → (set_stock id quantity change d).1.orders ≡ d.orders
unfolding set_stock
set_stock-orders id quantity change d = ground arith

insert_item-orders : (row : OrderItem) (d : Db) → (insert_item row d).1.orders ≡ d.orders
unfolding insert_item
insert_item-orders row d = ground arith

-- The order waits for its payment.
abbrev Waits : ℤ → List Order → Type 0
Waits id orders = any_where (is_pending id) orders ≡ true

insert_order-Waits :
    (row : Order) (d d' : Db) (o : Order)
    → status_eq row.status pending ≡ true
    → insert_order row d ≡ (ok o, d')
    → Waits o.id d'.orders
unfolding insert_order
insert_order-Waits row d d' o is h = elim (Bool-cases (not (fits_currency row.currency))) [
  | inl wide ↦ ground (arith, h, wide)
  | inr fits ↦ elim (Bool-cases (status_eq row.status draft && has_draft row.user_id d.orders)) [
    | inl second ↦ ground (arith, h, fits, second)
    | inr single ↦ elim (Bool-cases (any_where (λ u. eqb_ℤ u.id row.user_id) d.users)) [
      | inl owner ↦
          let new : Order = record row { id = pos (suc d.order_seq) } in
          let after : Db = record d {
            orders = d.orders ++ new ∷ [];
            order_seq = suc d.order_seq;
          } in
          let e : ◌≡◌ {A = Result Order × Db} (ok new, after) (ok o, d') =
            rw (fits, single, owner) at h in
          let eo : new ≡ o = cc in
          let ed : after ≡ d' = cc in
          let there : Waits new.id after.orders = ground (
            arith,
            any_where-append_one (is_pending new.id) d.orders new,
            is,
            eqb_ℤ_iff new.id new.id,
          ) in
          subst (λ x. Waits x.id d'.orders) eo (subst (λ x. Waits new.id x.orders) ed there)
      | inr unknown ↦ ground (arith, h, fits, single, unknown)
    ]
  ]
]

create-Waits :
    (env : Env) (user_id : ℤ) (priced : Priced)
    → Triple
        (λ d. Unit {0})
        (Repository.create env (new_order user_id priced))
        (λ o d. Waits o.id d.orders)
unfolding Repository.create new_order status_eq
create-Waits env user_id priced = Triple-statement env _ (λ d d' o _ h.
    insert_order-Waits (record (new_order user_id priced) { created_at = env.now }) d d' o refl h)

module _ {R : Db → Db → Type 0} (k : Kept R) (env : Env) where
  price_products-Steps :
      (quantities : Quantities) (ids : List ℤ) (acc : Priced)
      → Steps R (price_products env quantities ids acc)
  unfolding price_products
  price_products-Steps quantities [] acc = Steps-pure k.step acc
  price_products-Steps quantities (id ∷ ids) acc =
      Steps->>= k.step (Steps-map_error k.step _ (get_by_id_for_update-Steps k.step env id))
        (λ product. Steps->>= k.step (Steps-return_if k.step _ _) (λ _.
          Steps->>= k.step (Steps-return_if k.step _ _)
            (λ _. price_products-Steps quantities ids _)))

  write_items-StepsFrom :
      (quantities : Quantities) (order_id : ℤ) (products : List Product)
      → StepsFrom R (λ d. Waits order_id d.orders) (write_items env quantities order_id products)
  unfolding write_items Repository.create_item order_item Products.decrease_stock
  write_items-StepsFrom quantities order_id [] = Steps-StepsFrom (Steps-pure k.step tt)
  write_items-StepsFrom quantities order_id (product ∷ products) =
      let row = order_item order_id (quantity_of product.id quantities) product in
      StepsFrom-chain k.step
        (Triple-orders (Waits order_id)
          (Steps-statement same_orders env (insert_item row) (insert_item-orders row)))
        (StepsFrom-statement k.step env _ (λ d waits. k.item_inserted row d (inl waits)))
        (λ _.
          StepsFrom->>= k.step
            (Triple-orders (Waits order_id) (
              Steps-statement same_orders env _
                (set_stock-orders product.id (quantity_of product.id quantities) _)))
            (decrease_stock-Steps k env _ _)
            (λ _. write_items-StepsFrom quantities order_id products))

  place_order-Steps :
      (user_id : ℤ) (quantities : Quantities) → Steps R (place_order env user_id quantities)
  unfolding place_order Repository.create
  place_order-Steps user_id quantities =
      Steps->>= k.step (price_products-Steps quantities _ _) (λ priced. StepsFrom-Steps (
        StepsFrom->>= k.step (create-Waits env user_id priced)
          (Steps-statement k.step env _
            (k.order_inserted (record (new_order user_id priced) { created_at = env.now })))
          (λ created.
            StepsFrom-first k.step (write_items-StepsFrom quantities created.id _)
              (λ _. Steps-pure k.step created))))

  place_collected-Steps :
      (user_id : ℤ) (quantities : Option Quantities)
      → Steps R (place_collected env user_id quantities)
  unfolding place_collected
  place_collected-Steps user_id none = Steps-fail k.step _
  place_collected-Steps user_id (some quantities) =
      Steps-within_transaction k.step env (place_order-Steps user_id quantities)

  pub create_order-Steps :
      (user_id : ℤ) (items : List CreateOrderItem) → Steps R (create_order env user_id items)
  unfolding create_order
  create_order-Steps user_id items =
      Steps-if k.step _ (Steps-fail k.step _) (place_collected-Steps user_id _)
