-- ===== src/Server/Orders.antt =====
-- The order repository and the order service make steps.
pub mod Placing
use fincart.Prelude.{
  arith, suc, ◌&&◌, ◌++◌, String, List, [], ◌∷◌, ◌≡◌, refl, true, not, some, none, ◌∙◌, Option, inl,
  inr, subst, sym,
}
use fincart.Prelude.Tests.{true_of_not, Bool-cases}
use fincart.Prelude.Int.{ℤ, pos, eqb_ℤ, is_nonpositive, eqb_ℤ_iff}
use fincart.Payment.{PaymentResult, success, failed, timeout}
use fincart.Order.Status.{
  OrderStatus, status_eq, draft, pending, paid, cancelled, of_string, is_valid, can_transition,
}
use fincart.Order.Quantities.{Quantities, CreateOrderItem, quantity_of}
use fincart.Store.Schema.{Product, Order, OrderItem, Db}
use fincart.Store.Rows.{find_where, any_where}
use fincart.Store.Rows.Laws.{any_where-append_one}
use fincart.Store.Insert.{insert_item, insert_order, fits_currency, has_draft}
use fincart.Store.Monad.{
  Result, ok, order_error, invalid_order, invalid_order_state, statement, Env, PaymentService,
}
use fincart.Store.Hoare.{Triple, Triple-statement, Triple-return_if, Triple-weaken}
use fincart.Database.{restore}
use fincart.Product.Repository as Products
use fincart.Product.Repository.{set_stock}
use fincart.Order.Repository
use fincart.Order.Cancellation.{get_by_id_for_update-Finds, own_pending_lem}
use fincart.Order.Service.{
  order_item, new_order, Priced, price_products, write_items, place_order, place_collected,
  create_order, return_stock, own_pending, cancel_body, cancel_order, get_order_body, get_order,
  list_orders, update_status_body, update_order_status, pay, settle, pay_body, pay_order,
}
use fincart.Server.Kept.{Kept, is_pending}
use fincart.Server.Orders.Placing.{same_orders, set_stock-orders}
use fincart.Server.Products.{get_by_id_for_update-Steps, decrease_stock-Steps}
use fincart.Server.Steps.{
  IsStep, Steps, StepsFrom, Steps-StepsFrom, StepsFrom-Steps, Steps-still, Steps-fail, Steps-pure,
  Steps-statement, Steps-query, Steps-map_error, Steps->>=, StepsFrom->>=, StepsFrom-chain,
  StepsFrom-first, StepsFrom-statement, Steps-if, Steps-return_if, Steps-within_transaction,
  Triple-orders,
}

-- The loop needs the step of one statement only.
return_all-Steps :
    {R : Db → Db → Type 0} (p : IsStep R) (env : Env)
    → ((id quantity : ℤ) (change : ℤ → ℤ) (d : Db) → R d (set_stock id quantity change d).1)
    → (items : List OrderItem) → Steps R (return_stock env items)
unfolding return_stock Products.increase_stock
return_all-Steps p env h [] = Steps-pure p tt
return_all-Steps p env h (i ∷ items) =
    Steps->>= p (Steps-statement p env _ (h i.product_id i.quantity _))
      (λ _. return_all-Steps p env h items)

-- What `status_set` asks for.
abbrev Moves : ℤ → OrderStatus → List Order → Type 0
Moves id status orders =
    (o : Order) × (find_where (λ o. eqb_ℤ o.id id) orders ≡ some o)
    × (can_transition o.status status ≡ true)

module _ {R : Db → Db → Type 0} (k : Kept R) (env : Env) where
  get_locked-Steps : (id : ℤ) → Steps R (Repository.get_by_id_for_update env id)
  unfolding Repository.get_by_id_for_update
  get_locked-Steps id = Steps-query k.step env _

  get_items-Steps :
      {R' : Db → Db → Type 0} (p : IsStep R') (id : ℤ) → Steps R' (Repository.get_items env id)
  unfolding Repository.get_items
  get_items-Steps p id = Steps-query p env _

  update_status-StepsFrom :
      (id : ℤ) (status : OrderStatus)
      → StepsFrom R (λ d. Moves id status d.orders) (Repository.update_status env id status)
  unfolding Repository.update_status statement
  update_status-StepsFrom id status = record {
    from = λ s m. elim (Bool-cases (env.fault s.calls)) [
      | inl broken ↦ rw broken (k.step.same s.db)
      | inr fine ↦ rw fine (k.status_set id status m.0 s.db m.1 m.2)
    ];
  }

  own_pending-Steps : (user_id order_id : ℤ) → Steps R (own_pending env user_id order_id)
  unfolding own_pending
  own_pending-Steps user_id order_id = Steps->>= k.step (get_locked-Steps order_id) (λ o.
      Steps->>= k.step (Steps-return_if k.step _ _)
        (λ _. Steps->>= k.step (Steps-return_if k.step _ _) (λ _. Steps-pure k.step o)))

  -- An own pending order may become `status`.
  own_pending-Moves :
      (user_id order_id : ℤ) (status : OrderStatus)
      → can_transition pending status ≡ true
      → Triple
          (λ d. Unit {0})
          (own_pending env user_id order_id)
          (λ o d. Moves order_id status d.orders)
  own_pending-Moves user_id order_id status allowed =
      Triple-weaken (λ d p. p)
        (λ o d p. (o, p.1, subst (λ st. can_transition st status ≡ true) (sym p.3) allowed))
        (own_pending_lem env user_id order_id)

  cancel_body-Steps : (user_id order_id : ℤ) → Steps R (cancel_body env user_id order_id)
  unfolding cancel_body can_transition
  cancel_body-Steps user_id order_id = StepsFrom-Steps (
      StepsFrom->>= k.step (own_pending-Moves user_id order_id cancelled refl)
        (own_pending-Steps user_id order_id)
        (λ o.
          StepsFrom->>= k.step
            (Triple-orders (Moves order_id cancelled) (get_items-Steps same_orders order_id))
            (get_items-Steps k.step order_id)
            (λ items.
              StepsFrom->>= k.step
                (Triple-orders (Moves order_id cancelled)
                  (return_all-Steps same_orders env set_stock-orders items))
                (return_all-Steps k.step env k.stock_set items)
                (λ _. update_status-StepsFrom order_id cancelled))))

  pub cancel_order-Steps : (user_id order_id : ℤ) → Steps R (cancel_order env user_id order_id)
  unfolding cancel_order
  cancel_order-Steps user_id order_id =
      Steps-if k.step _ (Steps-fail k.step _)
        (Steps-within_transaction k.step env (cancel_body-Steps user_id order_id))

  get_order_body-Steps : (user_id order_id : ℤ) → Steps R (get_order_body env user_id order_id)
  unfolding get_order_body Repository.get_by_id
  get_order_body-Steps user_id order_id = Steps->>= k.step (Steps-query k.step env _) (λ o.
      Steps->>= k.step (Steps-return_if k.step _ _) (λ _.
        Steps->>= k.step (get_items-Steps k.step order_id) (λ items. Steps-pure k.step (o, items))))

  pub get_order-Steps : (user_id order_id : ℤ) → Steps R (get_order env user_id order_id)
  unfolding get_order
  get_order-Steps user_id order_id =
      Steps-if k.step _ (Steps-fail k.step _)
        (Steps-within_transaction k.step env (get_order_body-Steps user_id order_id))

  pub list_orders-Steps : Steps R (list_orders env)
  unfolding list_orders Repository.list
  list_orders-Steps = Steps-within_transaction k.step env (Steps-query k.step env _)

  update_status_body-Steps :
      (order_id : ℤ) (status : OrderStatus) → Steps R (update_status_body env order_id status)
  unfolding update_status_body
  update_status_body-Steps order_id status = StepsFrom-Steps (
      StepsFrom->>= k.step (get_by_id_for_update-Finds env order_id) (get_locked-Steps order_id)
        (λ o.
          StepsFrom->>= k.step {Q = λ _ d. Moves order_id status d.orders}
            (Triple-return_if _ (λ d q c. (o, q.1, true_of_not _ c))) (Steps-return_if k.step _ _)
            (λ _. update_status-StepsFrom order_id status)))

  pub update_order_status-Steps :
      (order_id : ℤ) (status : String) → Steps R (update_order_status env order_id status)
  unfolding update_order_status
  update_order_status-Steps order_id status =
      Steps-if k.step (is_nonpositive order_id) (Steps-fail k.step (order_error invalid_order)) (
        Steps-if k.step (not (is_valid (of_string status)))
          (Steps-fail k.step (order_error invalid_order_state))
          (Steps-within_transaction k.step env
            (update_status_body-Steps order_id (of_string status))))

  settle-StepsFrom :
      (order_id : ℤ) (result : PaymentResult)
      → StepsFrom R (λ d. Moves order_id paid d.orders) (settle env order_id result)
  unfolding settle
  settle-StepsFrom order_id success = update_status-StepsFrom order_id paid
  settle-StepsFrom order_id failed = Steps-StepsFrom (Steps-fail k.step _)
  settle-StepsFrom order_id timeout = Steps-StepsFrom (Steps-fail k.step _)
  settle-StepsFrom order_id (PaymentResult.unknown s) = Steps-StepsFrom (Steps-fail k.step _)

  pay_still :
      {R' : Db → Db → Type 0} (p : IsStep R') (service : PaymentService) (o : Order)
      → Steps R' (pay service o)
  unfolding pay
  pay_still p service o = Steps-still p (λ s. ground arith)

  pay_body-Steps :
      (service : PaymentService) (user_id order_id : ℤ)
      → Steps R (pay_body env service user_id order_id)
  unfolding pay_body can_transition
  pay_body-Steps service user_id order_id = StepsFrom-Steps (
      StepsFrom->>= k.step (own_pending-Moves user_id order_id paid refl)
        (own_pending-Steps user_id order_id)
        (λ o.
          StepsFrom->>= k.step
            (Triple-orders (Moves order_id paid) (pay_still same_orders service o))
            (pay_still k.step service o) (λ result. settle-StepsFrom order_id result)))

  pub pay_order-Steps :
      (service : PaymentService) (user_id order_id : ℤ)
      → Steps R (pay_order env service user_id order_id)
  unfolding pay_order
  pay_order-Steps service user_id order_id =
      Steps-if k.step _ (Steps-fail k.step _)
        (Steps-within_transaction k.step env (pay_body-Steps service user_id order_id))
