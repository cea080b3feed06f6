-- ===== src/Product/Listing.antt =====
-- The rows of the catalog, and what the statements on products leave.
use Prim.Native.String.{len, count}
use text.Mathlib.TextLemmas.{length-append, length-cons}
use fincart.Prelude.{
  ◌≤◌, ℕ, String, zero, suc, [], ◌∷◌, ◌++◌, ◌≡◌, refl, ap, ◌∙◌, ◌+◌, true, false, arith,
}
use fincart.Prelude.Lists.{All}
use fincart.Prelude.Int.{ℤ, pos, ltb_ℤ, ◌≤ℤ◌}
use fincart.Prelude.Texts.{Letters, is_nil, trim, trim_idem}
use fincart.Store.Schema.{Product, Db}
use fincart.Store.Rows.{update_where, delete_where}
use fincart.Store.Monad.{ok}
use fincart.Product.Repository as Repository
use fincart.Product.Repository.{insert_product, found, has_id, with_columns, blank_padded}
use fincart.Store.Insert.{fits_currency}
use fincart.Product.Service.{ProductRequest, requested, is_refused}

-- A product that can be sold: a name of 1 to 255 bytes, no negative price or stock, a currency of
-- three characters, which are a text of three bytes and the spaces of the column, and no space around
-- the name and the description.
abbrev pub IsListed : Product → Type 0
IsListed p =
    (is_nil p.name ≡ false)
    × (len p.name ≤ 255)
    × (pos 0 ≤ℤ p.price)
    × (pos 0 ≤ℤ p.stock)
    × (count p.currency ≡ 3)
    × ((text : String) × (len text ≡ 3) × (p.currency ≡ blank_padded 3 text))
    × (trim p.name ≡ p.name)
    × (trim p.description ≡ p.description)

abbrev pub IsCatalog : Db → Type 0
IsCatalog d = All IsListed d.products

fit_lem :
    (p : Product)
    → is_refused p ≡ false
    → (is_nil p.name ≡ false)
      × (len p.name ≤ 255)
      × (pos 0 ≤ℤ p.price)
      × (pos 0 ≤ℤ p.stock)
      × (len p.currency ≡ 3)
unfolding is_refused ltb_ℤ
fit_lem p h = ground arith

-- A text of at most n characters is filled up to n.
count-blank_padded : (n : ℕ) (text : String) → count text ≤ n → count (blank_padded n text) ≡ n
unfolding blank_padded
count-blank_padded zero text h = omega arith
count-blank_padded (suc n) String.[] h =
    length-append " " (blank_padded n String.[])
    ∙ ap (λ k. 1 + k) (count-blank_padded n String.[] (omega arith))
    ∙ omega arith
count-blank_padded (suc n) (String.◌∷◌ c text) h =
    length-cons c (blank_padded n text)
    ∙ ap suc (count-blank_padded n text (omega (arith, h, length-cons c text)))

fits_count : (text : String) → fits_currency text ≡ true → count text ≤ 3
unfolding fits_currency
fits_count text h = ground arith

pub requested-IsListed :
    (letters : Letters) (id : ℤ) (request : ProductRequest)
    → is_refused (requested letters id request) ≡ false
    → fits_currency (requested letters id request).currency ≡ true
    → IsListed (with_columns (requested letters id request))
unfolding requested with_columns
requested-IsListed letters id request h fits =
    let (named, short, price, stock, currency) = fit_lem (requested letters id request) h in
    (
      named,
      short,
      price,
      stock,
      count-blank_padded 3 _ (fits_count _ fits),
      (_, currency, refl),
      trim_idem request.name,
      trim_idem request.description,
    )

-- The row with its id, and the table with the row.
abbrev pub stored : Product → Db → Product
stored row db = record (with_columns row) { id = pos (suc db.product_seq) }

abbrev pub with_product : Product → Db → Db
with_product row db = record db {
  products = db.products ++ stored row db ∷ [];
  product_seq = suc db.product_seq;
}

pub insert_product_lem :
    (row : Product) (db : Db) (p : Product)
    → (insert_product row db).0 ≡ ok p
    → (insert_product row db).1 ≡ with_product row db
unfolding insert_product
insert_product_lem row db p h = ground arith

pub insert_product_fits :
    (row : Product) (db : Db) (p : Product)
    → (insert_product row db).0 ≡ ok p
    → fits_currency row.currency ≡ true
unfolding insert_product
insert_product_fits row db p h = ground arith

pub update_product_fits :
    (row : Product) (db : Db) (u : Unit {0})
    → (Repository.update_product row db).0 ≡ ok u
    → fits_currency row.currency ≡ true
unfolding Repository.update_product
update_product_fits row db u h = ground arith

pub update_product_lem :
    (row : Product) (db : Db) (u : Unit {0})
    → (Repository.update_product row db).0 ≡ ok u
    → (Repository.update_product row db).1
      ≡ record db { products = update_where (has_id row.id) (λ p. with_columns row) db.products }
unfolding Repository.update_product
update_product_lem row db u h = ground arith

pub delete_product_lem :
    (id : ℤ) (db : Db) (u : Unit {0})
    → (Repository.delete_product id db).0 ≡ ok u
    → (Repository.delete_product id db).1
      ≡ record db { products = delete_where (has_id id) db.products }
unfolding Repository.delete_product
delete_product_lem id db u h = ground arith
