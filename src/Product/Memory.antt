-- ===== src/Product/Memory.antt =====
-- `product.MemoryRepository` (internal/product/memory_rpository.go): products in a list.
use fincart.Prelude.{false, List, [], ◌∷◌, ◌≡◌, refl, inl, inr, sym}
use fincart.Prelude.Tests.{if◌then◌else◌, Bool-cases}
use fincart.Prelude.Int.{ℤ, pos, eqb_ℤ}
use fincart.Store.Schema.{Product}
use fincart.Store.Rows.{find_where}
use fincart.Store.Monad.{Result, ok, err, product_error, ProductError, Env, Session, statement}
use fincart.Product.Repository.{has_id, found}
use fincart.Product.Service as Service

pub record MemoryRepository : Type 0 where
  pub products : List Product

unfoldable pub new_memory_repository : MemoryRepository
new_memory_repository = record {
  products =
      record {
        id = pos 1;
        name = "MacBook Pro";
        description = "Apple laptop";
        price = pos 150000;
        currency = "EUR";
        stock = pos 10;
      }
      ∷ record {
        id = pos 2;
        name = "Mechanical Keyboard";
        description = "Mechanical keyboard";
        price = pos 12000;
        currency = "EUR";
        stock = pos 50;
      }
      ∷ [];
}

-- The loop of `GetByID`.
unfoldable pub scan : ℤ → List Product → Result Product
scan id [] = err (product_error ProductError.product_not_found)
scan id (p ∷ products) = let rest = scan id products in if eqb_ℤ p.id id then ok p else rest

unfoldable pub get_by_id : MemoryRepository → ℤ → Result Product
unfolding scan
get_by_id r id = scan id r.products

unfoldable pub list : MemoryRepository → Result (List Product)
list r = ok r.products

scan-found :
    (id : ℤ) (products : List Product) → scan id products ≡ found (find_where (has_id id) products)
unfolding scan found
scan-found id [] = refl
scan-found id (p ∷ products) = elim (Bool-cases (eqb_ℤ p.id id)) [
  | inl here ↦ rw here refl
  | inr there ↦ rw there (scan-found id products)
]

-- The repository in memory answers as `PostgresRepository` does over a table with the same products,
-- if the call goes through.
pub get_by_id-list :
    (r : MemoryRepository) (env : Env) (id : ℤ) (s : Session)
    → s.db.products ≡ r.products
    → env.fault s.calls ≡ false
    → ((Service.get_by_id env id s).0 ≡ get_by_id r id) × ((Service.list env s).0 ≡ list r)
unfolding Service.get_by_id Service.list get_by_id list statement
get_by_id-list r env id s same fine =
    (rw (fine, same) (sym (scan-found id r.products)), rw (fine, same) refl)
