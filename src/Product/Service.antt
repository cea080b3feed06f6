-- ===== src/Product/Service.antt =====
-- `product.Service` (internal/product/service.go) over the two repositories of products.
use Prim.Native.String.{len}
use fincart.Prelude.{String, List, Bool, not, ◌||◌}
use fincart.Prelude.Tests.{ltb, ◌==◌, if◌then◌else◌}
use fincart.Prelude.Int.{ℤ, pos, ltb_ℤ, is_nonpositive}
use fincart.Prelude.Texts.{Letters, to_upper, trim, is_nil}
use fincart.Store.Schema.{Product}
use fincart.Store.Rows.{find_where}
use fincart.Store.Monad.{
  ok, ProductError, product_error, Env, M, pure, fail, ◌>>=◌, ◌>>◌, statement,
}
use fincart.Database.{within_transaction}
use fincart.Product.Repository

-- `CreateProductRequest` and `UpdateProductRequest`, which have the same fields.
pub record ProductRequest : Type 0 where
  pub name : String
  pub description : String
  pub price : ℤ
  pub currency : String
  pub stock : ℤ

-- `PostgresRepository.GetByID` and `List`, outside of a transaction.
unfoldable pub get_by_id : Env → ℤ → M Product
get_by_id env id =
    statement env (λ db. (Repository.found (find_where (Repository.has_id id) db.products), db))

unfoldable pub list : Env → M (List Product)
list env = statement env (λ db. (ok db.products, db))

abbrev invalid : {A : Type 0} → M A
invalid = fail (product_error ProductError.invalid_product)

unfoldable pub get_product_by_id : Env → ℤ → M Product
get_product_by_id env id = if is_nonpositive id then invalid else get_by_id env id

unfoldable pub get_products : Env → M (List Product)
get_products env = list env

-- The product that a request describes.
unfoldable pub requested : Letters → ℤ → ProductRequest → Product
requested letters id request = record {
  id = id;
  name = trim request.name;
  description = trim request.description;
  price = request.price;
  currency = to_upper letters (trim request.currency);
  stock = request.stock;
}

-- `validateProduct` returns an error. `len` counts bytes, here as in Go.
unfoldable pub is_refused : Product → Bool
is_refused p =
    is_nil p.name
    || ltb 255 (len p.name)
    || ltb_ℤ p.price (pos 0)
    || ltb_ℤ p.stock (pos 0)
    || is_nil p.currency
    || not (len p.currency == 3)

unfoldable pub create_product : Env → Letters → ProductRequest → M Product
create_product env letters request =
    let product = requested letters (pos 0) request in
    if is_refused product then invalid else within_transaction env (Repository.create env product)

-- The function that `UpdateProduct` runs in the transaction.
unfoldable pub update_body : Env → ℤ → Product → M Product
update_body env id product = do
  current ← Repository.get_by_id_for_update env id
  let updated = record product { id = current.id }
  Repository.update env updated
  pure updated

unfoldable pub update_product : Env → Letters → ℤ → ProductRequest → M Product
update_product env letters id request =
    let product = requested letters id request in
    if is_nonpositive id
    then invalid
    else if is_refused product
    then invalid
    else within_transaction env (update_body env id product)

unfoldable pub delete_product : Env → ℤ → M (Unit {0})
delete_product env id =
    if is_nonpositive id then invalid else within_transaction env (Repository.delete env id)
