-- ===== src/Server/Integrity/Products.antt =====
-- The statements on the table of products keep the keys.
use fincart.Prelude.{suc, true, false, [], ◌∷◌, ◌++◌, ◌≡◌, ◌⊎◌, refl, arith, inl, inr, not}
use fincart.Prelude.Tests.{Bool-cases}
use fincart.Prelude.Lists.{All-map}
use fincart.Prelude.Int.{ℤ, pos, eqb_ℤ, eqb_ℤ_iff}
use fincart.Store.Schema.{Product, OrderItem, Db}
use fincart.Store.Rows.{update_where, delete_where, any_where}
use fincart.Store.Rows.Keys.{
  All-zip, any_where-append, any_where-updated, any_where-delete_ne, none_of_any, HasKeys-grow,
  HasKeys-append_one, HasKeys-update_where, HasKeys-delete_where,
}
use fincart.Product.Repository.{
  with_columns, has_id, set_stock, insert_product, update_product, delete_product,
}
use fincart.Server.Integrity.{has_product, Upholds, Upholds-same, either, changed_products}

-- An update that keeps the ids.
rewritten :
    (id : ℤ) (f : Product → Product) (d : Db)
    → ((x : Product) → has_id id x ≡ true → (f x).id ≡ x.id)
    → Upholds d (record d { products = update_where (has_id id) f d.products })
rewritten id f d same =
    changed_products d d.product_seq (update_where (has_id id) f d.products) (omega arith) (λ h. (
      HasKeys-update_where (λ (p : Product). p.id) (has_id id) f same d.product_seq d.products
          h.product_keys,
      All-map (λ (i : OrderItem). has_product d.products i.product_id ≡ true)
          (λ i. has_product (update_where (has_id id) f d.products) i.product_id ≡ true) d.items
          (λ i there.
            rw
              (any_where-updated (λ p. eqb_ℤ p.id i.product_id) (has_id id) f d.products
                (λ x here. rw (same x here) refl))
              there)
          h.item_products,
    ))

pub set_stock-Upholds :
    (id quantity : ℤ) (change : ℤ → ℤ) (d : Db) → Upholds d (set_stock id quantity change d).1
unfolding set_stock
set_stock-Upholds id quantity change d =
    either d d _ (set_stock id quantity change d).1 (ground arith) (Upholds-same d)
      (rewritten id (λ p. record p { stock = change p.stock }) d (λ x here. refl))

pub update_product-Upholds : (row : Product) (d : Db) → Upholds d (update_product row d).1
unfolding update_product with_columns
update_product-Upholds row d =
    either d d _ (update_product row d).1 (ground arith) (Upholds-same d) (
      rewritten row.id (λ p. with_columns row) d
        (λ x here. ground (arith, eqb_ℤ_iff x.id row.id, here)))

used_up : (d : Db) → Upholds d (record d { product_seq = suc d.product_seq })
used_up d = changed_products d (suc d.product_seq) d.products (omega arith) (λ h. (
  HasKeys-grow (λ (p : Product). p.id) d.product_seq (suc d.product_seq) d.products (omega arith)
      h.product_keys,
  h.item_products,
))

more_products :
    (row : Product) (d : Db)
    → Upholds d (record d {
      products = d.products ++ record (with_columns row) { id = pos (suc d.product_seq) } ∷ [];
      product_seq = suc d.product_seq;
    })
more_products row d =
    let p : Product = record (with_columns row) { id = pos (suc d.product_seq) } in
    changed_products d (suc d.product_seq) (d.products ++ p ∷ []) (omega arith) (λ h. (
      HasKeys-append_one (λ (p : Product). p.id) d.product_seq d.products p h.product_keys refl,
      All-map (λ (i : OrderItem). has_product d.products i.product_id ≡ true)
          (λ i. has_product (d.products ++ p ∷ []) i.product_id ≡ true) d.items
          (λ i there. any_where-append (λ p. eqb_ℤ p.id i.product_id) d.products (p ∷ []) there)
          h.item_products,
    ))

pub insert_product-Upholds : (row : Product) (d : Db) → Upholds d (insert_product row d).1
unfolding insert_product
insert_product-Upholds row d = split (ground arith)
  where
    split :
        ((insert_product row d).1 ≡ d)
          ⊎ (((insert_product row d).1 ≡ record d { product_seq = suc d.product_seq })
              ⊎ ((insert_product row d).1 ≡ record d {
                products =
                    d.products ++ record (with_columns row) { id = pos (suc d.product_seq) } ∷ [];
                product_seq = suc d.product_seq;
              }))
        → Upholds d (insert_product row d).1
    split (inl e) = either d d d (insert_product row d).1 (inl e) (Upholds-same d) (Upholds-same d)
    split (inr e) = either d _ _ (insert_product row d).1 e (used_up d) (more_products row d)

-- A product that no item refers to.
fewer_products :
    (id : ℤ) (d : Db)
    → any_where (λ i. eqb_ℤ i.product_id id) d.items ≡ false
    → Upholds d (record d { products = delete_where (has_id id) d.products })
fewer_products id d unused =
    changed_products d d.product_seq (delete_where (has_id id) d.products) (omega arith) (λ h. (
      HasKeys-delete_where (λ (p : Product). p.id) (has_id id) d.product_seq d.products
          h.product_keys,
      All-map
          (λ (i : OrderItem).
            (has_product d.products i.product_id ≡ true) × (eqb_ℤ i.product_id id ≡ false))
          (λ i. has_product (delete_where (has_id id) d.products) i.product_id ≡ true) d.items
          (λ i k. any_where-delete_ne (λ (p : Product). p.id) id i.product_id d.products k.1 k.0)
          (All-zip (λ (i : OrderItem). has_product d.products i.product_id ≡ true)
            (λ i. eqb_ℤ i.product_id id ≡ false) d.items h.item_products
            (none_of_any (λ i. eqb_ℤ i.product_id id) d.items unused)),
    ))

pub delete_product-Upholds : (id : ℤ) (d : Db) → Upholds d (delete_product id d).1
unfolding delete_product
delete_product-Upholds id d = elim (Bool-cases (not (any_where (has_id id) d.products))) [
  | inl missing ↦ rw missing (Upholds-same d)
  | inr there ↦ elim (Bool-cases (any_where (λ i. eqb_ℤ i.product_id id) d.items)) [
    | inl used ↦ rw (there, used) (Upholds-same d)
    | inr unused ↦ rw (there, unused) (fewer_products id d unused)
  ]
]
