-- ===== src/Server/Products.antt =====
-- The product repository and the product service make steps.
use fincart.Prelude.Int.{ℤ, is_nonpositive}
use fincart.Prelude.Texts.{Letters}
use fincart.Store.Schema.{Product, Db}
use fincart.Store.Monad.{Env, product_error, invalid_product}
use fincart.Product.Repository as Repository
use fincart.Product.Service.{
  ProductRequest, requested, is_refused, get_by_id, list, get_product_by_id, get_products,
  create_product, update_body, update_product, delete_product,
}
use fincart.Server.Kept.{Kept}
use fincart.Server.Steps.{
  IsStep, Steps, Steps-fail, Steps-pure, Steps-statement, Steps-query, Steps->>=, Steps-if,
  Steps-within_transaction,
}

pub get_by_id_for_update-Steps :
    {R : Db → Db → Type 0} (p : IsStep R) (env : Env) (id : ℤ)
    → Steps R (Repository.get_by_id_for_update env id)
unfolding Repository.get_by_id_for_update
get_by_id_for_update-Steps p env id = Steps-query p env _

module _ {R : Db → Db → Type 0} (k : Kept R) (env : Env) where
  pub decrease_stock-Steps : (id quantity : ℤ) → Steps R (Repository.decrease_stock env id quantity)
  unfolding Repository.decrease_stock
  decrease_stock-Steps id quantity = Steps-statement k.step env _ (k.stock_set id quantity _)

  create-Steps : (product : Product) → Steps R (Repository.create env product)
  unfolding Repository.create
  create-Steps product = Steps-statement k.step env _ (k.product_inserted product)

  update-Steps : (product : Product) → Steps R (Repository.update env product)
  unfolding Repository.update
  update-Steps product = Steps-statement k.step env _ (k.product_updated product)

  delete-Steps : (id : ℤ) → Steps R (Repository.delete env id)
  unfolding Repository.delete
  delete-Steps id = Steps-statement k.step env _ (k.product_deleted id)

  get_by_id-Steps : (id : ℤ) → Steps R (get_by_id env id)
  unfolding get_by_id
  get_by_id-Steps id = Steps-query k.step env _

  pub get_product_by_id-Steps : (id : ℤ) → Steps R (get_product_by_id env id)
  unfolding get_product_by_id
  get_product_by_id-Steps id = Steps-if k.step _ (Steps-fail k.step _) (get_by_id-Steps id)

  pub get_products-Steps : Steps R (get_products env)
  unfolding get_products list
  get_products-Steps = Steps-query k.step env _

  update_body-Steps : (id : ℤ) (product : Product) → Steps R (update_body env id product)
  unfolding update_body
  update_body-Steps id product =
      Steps->>= k.step (get_by_id_for_update-Steps k.step env id)
        (λ current. Steps->>= k.step (update-Steps _) (λ _. Steps-pure k.step _))

  pub create_product-Steps :
      (letters : Letters) (request : ProductRequest) → Steps R (create_product env letters request)
  unfolding create_product
  create_product-Steps letters request =
      Steps-if k.step _ (Steps-fail k.step _) (Steps-within_transaction k.step env (create-Steps _))

  pub update_product-Steps :
      (letters : Letters) (id : ℤ) (request : ProductRequest)
      → Steps R (update_product env letters id request)
  unfolding update_product
  update_product-Steps letters id request =
      let product = requested letters id request in
      Steps-if k.step (is_nonpositive id) (Steps-fail k.step (product_error invalid_product)) (
        Steps-if k.step (is_refused product) (Steps-fail k.step (product_error invalid_product))
          (Steps-within_transaction k.step env (update_body-Steps id product)))

  pub delete_product-Steps : (id : ℤ) → Steps R (delete_product env id)
  unfolding delete_product
  delete_product-Steps id =
      Steps-if k.step _ (Steps-fail k.step _)
        (Steps-within_transaction k.step env (delete-Steps id))
