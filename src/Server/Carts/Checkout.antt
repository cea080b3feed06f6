-- ===== src/Server/Carts/Checkout.antt =====
-- `Checkout` makes steps.
use fincart.Prelude.{String, List, [], ◌∷◌}
use fincart.Prelude.Int.{ℤ}
use fincart.Order.Quantities.{Quantities}
use fincart.Store.Schema.{Db}
use fincart.Store.Monad.{Env}
use fincart.Cart.Model.{Item}
use fincart.Cart.Service.{require_draft}
use fincart.Cart.Checkout.{price_cart, fix_prices, decrease_all, checkout_body, checkout}
use fincart.Server.Kept.{Kept}
use fincart.Server.Products.{get_by_id_for_update-Steps, decrease_stock-Steps}
use fincart.Server.Steps.{
  Steps, Steps-fail, Steps-pure, Steps-map_error, Steps->>=, Steps-if, Steps-return_if,
  Steps-within_transaction,
}
use fincart.Server.Carts.Rows.{
  get_draft-Steps, get_items-Steps, update_total-Steps, repository_checkout-Steps,
  update_item_price-Steps,
}

module _ {R : Db → Db → Type 0} (k : Kept R) (env : Env) where
  pub require_draft-Steps : (user_id : ℤ) → Steps R (require_draft env user_id)
  unfolding require_draft
  require_draft-Steps user_id =
      Steps->>= k.step (get_draft-Steps k env user_id)
        (λ cart. Steps->>= k.step (Steps-return_if k.step _ _) (λ _. Steps-pure k.step cart))

  -- Checkout and its loops.
  price_cart-Steps :
      (quantities : Quantities) (ids : List ℤ) (total : ℤ) (currency : String)
      → Steps R (price_cart env quantities ids total currency)
  unfolding price_cart
  price_cart-Steps quantities [] total currency = Steps-pure k.step _
  price_cart-Steps quantities (id ∷ ids) total currency =
      Steps->>= k.step (Steps-map_error k.step _ (get_by_id_for_update-Steps k.step env id))
        (λ product. Steps->>= k.step (Steps-return_if k.step _ _) (λ _.
          Steps->>= k.step (Steps-return_if k.step _ _) (λ _. price_cart-Steps quantities ids _ _)))

  fix_prices-Steps : (order_id : ℤ) (items : List Item) → Steps R (fix_prices env order_id items)
  unfolding fix_prices
  fix_prices-Steps order_id [] = Steps-pure k.step tt
  fix_prices-Steps order_id (item ∷ items) =
      Steps->>= k.step (get_by_id_for_update-Steps k.step env item.product_id) (λ product.
        Steps->>= k.step (update_item_price-Steps k env order_id item.product_id product.price)
          (λ _. fix_prices-Steps order_id items))

  decrease_all-Steps :
      (quantities : Quantities) (ids : List ℤ) → Steps R (decrease_all env quantities ids)
  unfolding decrease_all
  decrease_all-Steps quantities [] = Steps-pure k.step tt
  decrease_all-Steps quantities (id ∷ ids) =
      Steps->>= k.step (decrease_stock-Steps k env id _) (λ _. decrease_all-Steps quantities ids)

  checkout_body-Steps : (user_id : ℤ) → Steps R (checkout_body env user_id)
  unfolding checkout_body
  checkout_body-Steps user_id = Steps->>= k.step (require_draft-Steps user_id) (λ cart.
      Steps->>= k.step (get_items-Steps k env cart.id) (λ items.
        Steps->>= k.step (Steps-return_if k.step _ _) (λ _.
          Steps->>= k.step (price_cart-Steps _ _ _ _) (λ sum.
            Steps->>= k.step (fix_prices-Steps cart.id items) (λ _.
              Steps->>= k.step (update_total-Steps k env cart.id sum.0 sum.1) (λ _.
                Steps->>= k.step (decrease_all-Steps _ _) (λ _.
                  Steps->>= k.step
                    (Steps-map_error k.step _ (repository_checkout-Steps k env cart.id))
                    (λ _. Steps-pure k.step _))))))))

  pub checkout-Steps : (user_id : ℤ) → Steps R (checkout env user_id)
  unfolding checkout
  checkout-Steps user_id =
      Steps-if k.step _ (Steps-fail k.step _)
        (Steps-within_transaction k.step env (checkout_body-Steps user_id))
