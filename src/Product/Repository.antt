-- ===== src/Product/Repository.antt =====
-- `product.PostgresTransactionRepository` and the lookup of `product.MemoryRepository`.
use Prim.Native.String.{◌++◌ as append}
use fincart.Prelude.{ℕ, String, Bool, zero, suc, [], ◌∷◌, ◌++◌, Option, none, some, not, ◌||◌}
use fincart.Prelude.Tests.{if◌then◌else◌}
use fincart.Prelude.Int.{ℤ, pos, ◌+ℤ◌, ◌-ℤ◌, eqb_ℤ, ltb_ℤ, in_int4}
use fincart.Store.Schema.{Product, Db}
use fincart.Store.Rows.{find_where, update_where, delete_where, any_where, any_refused}
use fincart.Store.Insert.{fits_currency}
use fincart.Store.Monad.{
  Result, ok, err, product_error, violation, check, foreign_key, out_of_range, Env, M, statement,
  ProductError,
}

abbrev pub has_id : ℤ → Product → Bool
has_id id p = eqb_ℤ p.id id

-- The answer of a query for one product.
unfoldable pub found : Option Product → Result Product
found none = err (product_error ProductError.product_not_found)
found (some p) = ok p

unfoldable pub get_by_id_for_update : Env → ℤ → M Product
unfolding statement found
get_by_id_for_update env id = statement env (λ db. (found (find_where (has_id id) db.products), db))

-- SET stock = ... WHERE id = ...: the column is an INTEGER that a CHECK keeps from going below 0.
unfoldable pub set_stock : ℤ → ℤ → (ℤ → ℤ) → Db → Result (Unit {0}) × Db
set_stock id quantity change db =
    if not (in_int4 quantity)
      || any_refused (has_id id) (λ p. not (in_int4 (change p.stock))) db.products
    then (err (violation out_of_range), db)
    else if any_refused (has_id id) (λ p. ltb_ℤ (change p.stock) (pos 0)) db.products
    then (err (violation check), db)
    else (
      ok tt,
      record db {
        products = update_where (has_id id) (λ p. record p { stock = change p.stock }) db.products;
      },
    )

unfoldable pub decrease_stock : Env → ℤ → ℤ → M (Unit {0})
unfolding statement set_stock
decrease_stock env id quantity = statement env (set_stock id quantity (λ stock. stock -ℤ quantity))

unfoldable pub increase_stock : Env → ℤ → ℤ → M (Unit {0})
unfolding statement set_stock
increase_stock env id quantity = statement env (set_stock id quantity (λ stock. stock +ℤ quantity))

-- A column of type CHAR(n) fills a shorter text up with spaces.
unfoldable pub blank_padded : ℕ → String → String
blank_padded zero text = text
blank_padded (suc n) String.[] = append " " (blank_padded n String.[])
blank_padded (suc n) (String.◌∷◌ c text) = String.◌∷◌ c (blank_padded n text)

-- The row as the table has it.
unfoldable pub with_columns : Product → Product
with_columns row = record row { currency = blank_padded 3 row.currency }

-- The CHECKs of the table.
unfoldable pub breaks_check : Product → Bool
breaks_check p = ltb_ℤ p.price (pos 0) || ltb_ℤ p.stock (pos 0)

unfoldable pub insert_product : Product → Db → Result Product × Db
insert_product row db =
    let stored = record (with_columns row) { id = pos (suc db.product_seq) } in
    let counted = record db { product_seq = suc db.product_seq } in
    if not (in_int4 row.stock)
    then (err (violation out_of_range), db)
    else if not (fits_currency row.currency)
    then (err (violation out_of_range), counted)
    else if breaks_check row
    then (err (violation check), counted)
    else (
      ok stored,
      record db { products = db.products ++ stored ∷ []; product_seq = suc db.product_seq },
    )

unfoldable pub create : Env → Product → M Product
unfolding statement insert_product
create env product = statement env (insert_product product)

unfoldable pub update_product : Product → Db → Result (Unit {0}) × Db
update_product row db =
    if not (in_int4 row.stock)
    then (err (violation out_of_range), db)
    else if not (any_where (has_id row.id) db.products)
    then (err (product_error ProductError.product_not_found), db)
    else if not (fits_currency row.currency)
    then (err (violation out_of_range), db)
    else if breaks_check row
    then (err (violation check), db)
    else (
      ok tt,
      record db { products = update_where (has_id row.id) (λ p. with_columns row) db.products },
    )

unfoldable pub update : Env → Product → M (Unit {0})
unfolding statement update_product
update env product = statement env (update_product product)

-- A product that an order item refers to cannot go.
unfoldable pub delete_product : ℤ → Db → Result (Unit {0}) × Db
delete_product id db =
    if not (any_where (has_id id) db.products)
    then (err (product_error ProductError.product_not_found), db)
    else if any_where (λ i. eqb_ℤ i.product_id id) db.items
    then (err (violation foreign_key), db)
    else (ok tt, record db { products = delete_where (has_id id) db.products })

unfoldable pub delete : Env → ℤ → M (Unit {0})
unfolding statement delete_product
delete env id = statement env (delete_product id)
