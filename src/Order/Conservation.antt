-- ===== src/Order/Conservation.antt =====
-- The order service neither makes nor loses goods.
use fincart.Prelude.{true, List, [], ◌∷◌, ◌≡◌, refl, ◌∙◌, arith, inl, inr, ap}
use fincart.Prelude.Tests.{if◌then◌else◌, Bool-cases}
use fincart.Prelude.Int.{ℤ, pos, ◌+ℤ◌, ◌-ℤ◌, eqb_ℤ, eqb_ℤ_comm, parts_of_eq, int_laws}
use fincart.Store.Schema.{Product, Order, OrderItem, Db}
use fincart.Store.Rows.{any_where}
use fincart.Store.Monad.{Env}
use fincart.Store.Hoare.{
  Triple, Triple-pure, Triple->>=, Triple-statement, Triple-query, Triple-map_error,
  Triple-return_if,
}
use fincart.Product.Repository as Products
use fincart.Order.Repository
use fincart.Order.Quantities.{Quantities, quantity_of, keys, sort_ids}
use fincart.Order.Service.{
  Priced, nothing_priced, own_product_error, price_products, order_item, new_order, write_items,
  place_order,
}
use fincart.Goods.{takes_stock, is_taken, stock_of, item_units, held, units, HasUnits}
use fincart.Goods.Laws.{any_order}
use fincart.Goods.Statements.{insert_order-units, insert_item-units, set_stock-units}

pub price_products-keeps :
    {P : Db → Type 0} (env : Env) (quantities : Quantities) (ids : List ℤ) (acc : Priced)
    → Triple P (price_products env quantities ids acc) (λ _ d. P d)
unfolding price_products Products.get_by_id_for_update
price_products-keeps env quantities [] acc = Triple-pure acc (λ d p. p)
price_products-keeps env quantities (id ∷ ids) acc =
    Triple->>= (Triple-map_error own_product_error (Triple-query env _)) (λ product.
      Triple->>= (Triple-return_if _ (λ d p _. p.0)) (λ _.
        Triple->>= (Triple-return_if _ (λ d p _. p))
          (λ _. price_products-keeps env quantities ids _)))

pub item_units_any :
    (id : ℤ) (i : OrderItem)
    → item_units id any_order i ≡ (if eqb_ℤ id i.product_id then i.quantity else pos 0)
unfolding item_units
item_units_any id i = ground (arith, eqb_ℤ_comm i.product_id id)

-- An item of a placed order takes as many units as the stock then loses.
take_one :
    (id oid quantity n : ℤ) (product : Product) (env : Env)
    → Triple
        (λ d. HasUnits id n d × (is_taken d.orders oid ≡ true))
        (Repository.create_item env (order_item oid quantity product))
        (λ _ d.
          HasUnits id (n +ℤ (if eqb_ℤ id product.id then quantity else pos 0)) d
          × (is_taken d.orders oid ≡ true)
          × (any_where (λ p. eqb_ℤ p.id product.id) d.products ≡ true))
unfolding Repository.create_item order_item
take_one id oid quantity n product env = Triple-statement env _ (λ d d' i p e.
    let row = order_item oid quantity product in
    let (sound, moved, orders, there) = insert_item-units id row i d d' p.0.0 e p.1 in
    (
      (sound, moved ∙ ap (λ k. units id d +ℤ k) (item_units_any id row) ∙ rw p.0.1),
      rw orders p.1,
      there,
    ))

taken_back :
    (id target quantity n : ℤ) (d : Db)
    → units id d ≡ n +ℤ (if eqb_ℤ id target then quantity else pos 0)
    → (if eqb_ℤ id target then stock_of id d.products -ℤ quantity else stock_of id d.products)
        +ℤ held id (is_taken d.orders) d.items
      ≡ n
unfolding units
taken_back id target quantity n d h = elim (Bool-cases (eqb_ℤ id target)) [
  | inl same ↦ let h' = rw same at h in rw same (omega (int_laws, parts_of_eq _ _ h'))
  | inr other ↦ let h' = rw other at h in rw other (omega (int_laws, parts_of_eq _ _ h'))
]

give_one :
    (id oid quantity n : ℤ) (product : Product) (env : Env)
    → Triple
        (λ d.
          HasUnits id (n +ℤ (if eqb_ℤ id product.id then quantity else pos 0)) d
          × (is_taken d.orders oid ≡ true)
          × (any_where (λ p. eqb_ℤ p.id product.id) d.products ≡ true))
        (Products.decrease_stock env product.id quantity)
        (λ _ d. HasUnits id n d × (is_taken d.orders oid ≡ true))
unfolding Products.decrease_stock
give_one id oid quantity n product env = Triple-statement env _ (λ d d' u p e.
    let (sound, moved, orders, _) =
      set_stock-units id product.id quantity (λ stock. stock -ℤ quantity) d d' p.0.0 e p.2 in
    ((sound, moved ∙ taken_back id product.id quantity n d p.0.1), rw orders p.1))

-- The units on stock and in orders are the same after the loop as before.
write_items-keeps :
    (id oid n : ℤ) (env : Env) (quantities : Quantities) (products : List Product)
    → Triple
        (λ d. HasUnits id n d × (is_taken d.orders oid ≡ true))
        (write_items env quantities oid products)
        (λ _ d. HasUnits id n d)
unfolding write_items
write_items-keeps id oid n env quantities [] = Triple-pure tt (λ d p. p.0)
write_items-keeps id oid n env quantities (product ∷ products) =
    Triple->>= (take_one id oid (quantity_of product.id quantities) n product env) (λ item.
      Triple->>= (give_one id oid (quantity_of product.id quantities) n product env)
        (λ _. write_items-keeps id oid n env quantities products))

create-keeps :
    (id n : ℤ) (env : Env) (row : Order)
    → takes_stock row.status ≡ true
    → Triple
        (HasUnits id n)
        (Repository.create env row)
        (λ o d. HasUnits id n d × (is_taken d.orders o.id ≡ true))
unfolding Repository.create
create-keeps id n env row takes = Triple-statement env _ (λ d d' o p e.
    let stamped = record row { created_at = env.now } in
    let (sound, same, taken) = insert_order-units id stamped o d d' p.0 e in
    ((sound, same ∙ p.1), taken ∙ takes))

pub place_order-keeps :
    (id n user_id : ℤ) (env : Env) (quantities : Quantities)
    → Triple (HasUnits id n) (place_order env user_id quantities) (λ _ d. HasUnits id n d)
unfolding place_order new_order takes_stock
place_order-keeps id n user_id env quantities =
    Triple->>= (price_products-keeps env quantities (sort_ids (keys quantities)) nothing_priced)
      (λ priced. Triple->>= (create-keeps id n env (new_order user_id priced) refl) (λ created.
        Triple->>= (write_items-keeps id created.id n env quantities priced.products)
          (λ _. Triple-pure created (λ d p. p))))
