-- ===== src/Server/Carts/Rows.antt =====
-- The cart repository makes steps.
use fincart.Prelude.{String}
use fincart.Prelude.Int.{ℤ}
use fincart.Store.Schema.{Order, OrderItem, Db}
use fincart.Store.Insert.{insert_order, insert_item}
use fincart.Store.Monad.{Result, ok, err, Env}
use fincart.Cart.Repository
use fincart.Cart.Repository.{returned_draft, returned_item, new_draft, added_row}
use fincart.Server.Kept.{Kept, Addable}
use fincart.Server.Steps.{Steps, StepsFrom, Steps-statement, StepsFrom-statement, Steps-query}

returned_draft-step :
    (R : Db → Db → Type 0) (d : Db) (x : Result Order × Db) → R d x.1 → R d (returned_draft x).1
unfolding returned_draft
returned_draft-step R d (ok o, d') h = h
returned_draft-step R d (err e, d') h = h

returned_item-step :
    (R : Db → Db → Type 0) (d : Db) (x : Result OrderItem × Db) → R d x.1 → R d (returned_item x).1
unfolding returned_item
returned_item-step R d (ok i, d') h = h
returned_item-step R d (err e, d') h = h

module _ {R : Db → Db → Type 0} (k : Kept R) (env : Env) where
  -- The statements.
  pub get_draft-Steps : (user_id : ℤ) → Steps R (Repository.get_draft env user_id)
  unfolding Repository.get_draft
  get_draft-Steps user_id = Steps-query k.step env _

  pub create_draft-Steps : (user_id : ℤ) → Steps R (Repository.create_draft env user_id)
  unfolding Repository.create_draft
  create_draft-Steps user_id = Steps-statement k.step env _ (λ d.
      returned_draft-step R d (insert_order (new_draft env user_id) d)
        (k.order_inserted (new_draft env user_id) d))

  pub get_item-Steps :
      (order_id product_id : ℤ) → Steps R (Repository.get_item env order_id product_id)
  unfolding Repository.get_item
  get_item-Steps order_id product_id = Steps-query k.step env _

  pub repository_add_item-StepsFrom :
      (order_id product_id quantity unit_price : ℤ)
      → StepsFrom R
          (Addable (added_row order_id product_id quantity unit_price))
          (Repository.add_item env order_id product_id quantity unit_price)
  unfolding Repository.add_item
  repository_add_item-StepsFrom order_id product_id quantity unit_price =
      let row = added_row order_id product_id quantity unit_price in
      StepsFrom-statement k.step env _
        (λ d free. returned_item-step R d (insert_item row d) (k.item_inserted row d free))

  pub repository_update_item-Steps :
      (order_id product_id quantity : ℤ)
      → Steps R (Repository.update_item env order_id product_id quantity)
  unfolding Repository.update_item
  repository_update_item-Steps order_id product_id quantity =
      Steps-statement k.step env _ (k.quantity_set order_id product_id quantity)

  pub repository_delete_item-Steps :
      (order_id product_id : ℤ) → Steps R (Repository.delete_item env order_id product_id)
  unfolding Repository.delete_item
  repository_delete_item-Steps order_id product_id =
      Steps-statement k.step env _ (k.item_removed order_id product_id)

  pub get_items-Steps : (order_id : ℤ) → Steps R (Repository.get_items env order_id)
  unfolding Repository.get_items
  get_items-Steps order_id = Steps-query k.step env _

  pub update_total-Steps :
      (order_id total : ℤ) (currency : String)
      → Steps R (Repository.update_total env order_id total currency)
  unfolding Repository.update_total
  update_total-Steps order_id total currency =
      Steps-statement k.step env _ (k.total_set order_id total currency)

  pub repository_checkout-Steps : (order_id : ℤ) → Steps R (Repository.checkout env order_id)
  unfolding Repository.checkout
  repository_checkout-Steps order_id = Steps-statement k.step env _ (k.pending_set order_id)

  pub get_draft_by_id-Steps : (order_id : ℤ) → Steps R (Repository.get_draft_by_id env order_id)
  unfolding Repository.get_draft_by_id
  get_draft_by_id-Steps order_id = Steps-query k.step env _

  pub update_item_price-Steps :
      (order_id product_id unit_price : ℤ)
      → Steps R (Repository.update_item_price env order_id product_id unit_price)
  unfolding Repository.update_item_price
  update_item_price-Steps order_id product_id unit_price =
      Steps-statement k.step env _ (k.price_set order_id product_id unit_price)
