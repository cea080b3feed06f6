-- ===== src/Order/Sequences.antt =====
-- No call of the order service takes an order number back, however it ends.
use fincart.Prelude.{List, [], ◌∷◌, arith, ◌≤◌}
use fincart.Prelude.Int.{ℤ}
use fincart.Payment.{PaymentResult, success, failed, timeout}
use fincart.Order.Status.{OrderStatus}
use fincart.Store.Schema.{Product, Order, OrderItem, Db}
use fincart.Store.Insert.{insert_order, insert_item}
use fincart.Store.Monad.{Env, PaymentService}
use fincart.Store.Advances.{
  Advances, Advances-pure, Advances-fail, Advances->>=, Advances-map_error, Advances-statement,
  Advances-return_if,
}
use fincart.Product.Repository as Products
use fincart.Product.Repository.{set_stock}
use fincart.Order.Repository
use fincart.Order.Repository.{set_status}
use fincart.Order.Quantities.{Quantities}
use fincart.Order.Service.{
  Priced, own_product_error, price_products, write_items, place_order, return_stock, own_pending,
  cancel_body, get_order_body, update_status_body, pay, settle, pay_body,
}

insert_order-grows : (row : Order) (d : Db) → d.order_seq ≤ (insert_order row d).1.order_seq
unfolding insert_order
insert_order-grows row d = ground arith

insert_item-grows : (row : OrderItem) (d : Db) → d.order_seq ≤ (insert_item row d).1.order_seq
unfolding insert_item
insert_item-grows row d = ground arith

set_stock-grows :
    (id quantity : ℤ) (change : ℤ → ℤ) (d : Db)
    → d.order_seq ≤ (set_stock id quantity change d).1.order_seq
unfolding set_stock
set_stock-grows id quantity change d = ground arith

set_status-grows :
    (id : ℤ) (status : OrderStatus) (d : Db) → d.order_seq ≤ (set_status id status d).1.order_seq
unfolding set_status
set_status-grows id status d = ground arith

get_product-Advances : (env : Env) (id : ℤ) → Advances (Products.get_by_id_for_update env id)
unfolding Products.get_by_id_for_update
get_product-Advances env id = Advances-statement env _ (λ d. omega arith)

decrease_stock-Advances : (env : Env) (id q : ℤ) → Advances (Products.decrease_stock env id q)
unfolding Products.decrease_stock
decrease_stock-Advances env id q = Advances-statement env _ (set_stock-grows id q _)

increase_stock-Advances : (env : Env) (id q : ℤ) → Advances (Products.increase_stock env id q)
unfolding Products.increase_stock
increase_stock-Advances env id q = Advances-statement env _ (set_stock-grows id q _)

create-Advances : (env : Env) (o : Order) → Advances (Repository.create env o)
unfolding Repository.create
create-Advances env o =
    Advances-statement env _ (insert_order-grows (record o { created_at = env.now }))

create_item-Advances : (env : Env) (i : OrderItem) → Advances (Repository.create_item env i)
unfolding Repository.create_item
create_item-Advances env i = Advances-statement env _ (insert_item-grows i)

get_for_update-Advances : (env : Env) (id : ℤ) → Advances (Repository.get_by_id_for_update env id)
unfolding Repository.get_by_id_for_update
get_for_update-Advances env id = Advances-statement env _ (λ d. omega arith)

get_by_id-Advances : (env : Env) (id : ℤ) → Advances (Repository.get_by_id env id)
unfolding Repository.get_by_id
get_by_id-Advances env id = Advances-statement env _ (λ d. omega arith)

get_items-Advances : (env : Env) (id : ℤ) → Advances (Repository.get_items env id)
unfolding Repository.get_items
get_items-Advances env id = Advances-statement env _ (λ d. omega arith)

pub list-Advances : (env : Env) → Advances (Repository.list env)
unfolding Repository.list
list-Advances env = Advances-statement env _ (λ d. omega arith)

update_status-Advances :
    (env : Env) (id : ℤ) (status : OrderStatus) → Advances (Repository.update_status env id status)
unfolding Repository.update_status
update_status-Advances env id status = Advances-statement env _ (set_status-grows id status)

pay-Advances : (service : PaymentService) (o : Order) → Advances (pay service o)
unfolding pay
pay-Advances service o = record { grows = λ s. ground arith }

price_products-Advances :
    (env : Env) (quantities : Quantities) (ids : List ℤ) (acc : Priced)
    → Advances (price_products env quantities ids acc)
unfolding price_products
price_products-Advances env quantities [] acc = Advances-pure acc
price_products-Advances env quantities (id ∷ ids) acc =
    Advances->>= (Advances-map_error own_product_error (get_product-Advances env id)) (λ product.
      Advances->>= (Advances-return_if _ _) (λ _.
        Advances->>= (Advances-return_if _ _) (λ _. price_products-Advances env quantities ids _)))

write_items-Advances :
    (env : Env) (quantities : Quantities) (order_id : ℤ) (products : List Product)
    → Advances (write_items env quantities order_id products)
unfolding write_items
write_items-Advances env quantities order_id [] = Advances-pure tt
write_items-Advances env quantities order_id (product ∷ products) =
    Advances->>= (create_item-Advances env _) (λ _.
      Advances->>= (decrease_stock-Advances env _ _)
        (λ _. write_items-Advances env quantities order_id products))

pub place_order-Advances :
    (env : Env) (user_id : ℤ) (quantities : Quantities)
    → Advances (place_order env user_id quantities)
unfolding place_order
place_order-Advances env user_id quantities =
    Advances->>= (price_products-Advances env quantities _ _) (λ priced.
      Advances->>= (create-Advances env _) (λ created.
        Advances->>= (write_items-Advances env quantities _ _) (λ _. Advances-pure created)))

return_stock-Advances : (env : Env) (items : List OrderItem) → Advances (return_stock env items)
unfolding return_stock
return_stock-Advances env [] = Advances-pure tt
return_stock-Advances env (i ∷ items) =
    Advances->>= (increase_stock-Advances env _ _) (λ _. return_stock-Advances env items)

own_pending-Advances :
    (env : Env) (user_id order_id : ℤ) → Advances (own_pending env user_id order_id)
unfolding own_pending
own_pending-Advances env user_id order_id =
    Advances->>= (get_for_update-Advances env order_id) (λ o.
      Advances->>= (Advances-return_if _ _)
        (λ _. Advances->>= (Advances-return_if _ _) (λ _. Advances-pure o)))

pub cancel_body-Advances :
    (env : Env) (user_id order_id : ℤ) → Advances (cancel_body env user_id order_id)
unfolding cancel_body
cancel_body-Advances env user_id order_id =
    Advances->>= (own_pending-Advances env user_id order_id) (λ o.
      Advances->>= (get_items-Advances env order_id) (λ items.
        Advances->>= (return_stock-Advances env items)
          (λ _. update_status-Advances env order_id _)))

pub get_order_body-Advances :
    (env : Env) (user_id order_id : ℤ) → Advances (get_order_body env user_id order_id)
unfolding get_order_body
get_order_body-Advances env user_id order_id = Advances->>= (get_by_id-Advances env order_id) (λ o.
    Advances->>= (Advances-return_if _ _)
      (λ _. Advances->>= (get_items-Advances env order_id) (λ items. Advances-pure (o, items))))

pub update_status_body-Advances :
    (env : Env) (order_id : ℤ) (status : OrderStatus)
    → Advances (update_status_body env order_id status)
unfolding update_status_body
update_status_body-Advances env order_id status =
    Advances->>= (get_for_update-Advances env order_id)
      (λ o. Advances->>= (Advances-return_if _ _) (λ _. update_status-Advances env order_id status))

settle-Advances :
    (env : Env) (order_id : ℤ) (result : PaymentResult) → Advances (settle env order_id result)
unfolding settle
settle-Advances env order_id success = update_status-Advances env order_id _
settle-Advances env order_id failed = Advances-fail _
settle-Advances env order_id timeout = Advances-fail _
settle-Advances env order_id (PaymentResult.unknown s) = Advances-fail _

pub pay_body-Advances :
    (env : Env) (service : PaymentService) (user_id order_id : ℤ)
    → Advances (pay_body env service user_id order_id)
unfolding pay_body
pay_body-Advances env service user_id order_id =
    Advances->>= (own_pending-Advances env user_id order_id)
      (λ o. Advances->>= (pay-Advances service o) (λ result. settle-Advances env order_id result))
