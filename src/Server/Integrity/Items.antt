-- ===== src/Server/Integrity/Items.antt =====
-- The statements on the table of order items keep the keys.
use fincart.Prelude.{suc, Bool, true, [], ◌∷◌, ◌++◌, ◌≡◌, refl, arith, not, ◌&&◌, ◌||◌, inl, inr}
use fincart.Prelude.Tests.{Bool-cases}
use fincart.Prelude.Lists.{All-append}
use fincart.Prelude.Int.{ℤ, pos, in_int4, leb_ℤ, ltb_ℤ}
use fincart.Store.Schema.{OrderItem, Db}
use fincart.Store.Rows.{update_where, delete_where}
use fincart.Store.Rows.Laws.{All-update_where}
use fincart.Store.Rows.Keys.{All-delete_where}
use fincart.Store.Insert.{insert_item}
use fincart.Cart.Repository.{is_item, set_item_quantity, remove_item, set_item_price}
use fincart.Server.Integrity.{has_product, has_order, Upholds, Upholds-same, either, changed_items}

used_up : (d : Db) → Upholds d (record d { item_seq = suc d.item_seq })
used_up d = changed_items d (suc d.item_seq) d.items (λ h. (h.item_orders, h.item_products))

more_items :
    (row : OrderItem) (d : Db)
    → has_order d.orders row.order_id ≡ true
    → has_product d.products row.product_id ≡ true
    → Upholds d (record d {
      items = d.items ++ record row { id = pos (suc d.item_seq) } ∷ [];
      item_seq = suc d.item_seq;
    })
more_items row d order product =
    let i : OrderItem = record row { id = pos (suc d.item_seq) } in
    changed_items d (suc d.item_seq) (d.items ++ i ∷ []) (λ h. (
      All-append (λ i. has_order d.orders i.order_id ≡ true) d.items (i ∷ []) h.item_orders
          (order, tt),
      All-append (λ i. has_product d.products i.product_id ≡ true) d.items (i ∷ []) h.item_products
          (product, tt),
    ))

pub insert_item-Upholds : (row : OrderItem) (d : Db) → Upholds d (insert_item row d).1
unfolding insert_item
insert_item-Upholds row d = elim (Bool-cases (not (in_int4 row.quantity))) [
  | inl wide ↦ rw wide (Upholds-same d)
  | inr fits ↦ elim (Bool-cases (leb_ℤ row.quantity (pos 0) || ltb_ℤ row.unit_price (pos 0))) [
    | inl refused ↦ rw (fits, refused) (used_up d)
    | inr valid ↦
        elim (Bool-cases
          (has_order d.orders row.order_id && has_product d.products row.product_id)) [
            | inl there ↦
                rw (fits, valid, there)
                  (more_items row d (ground (arith, there)) (ground (arith, there)))
            | inr missing ↦ rw (fits, valid, missing) (used_up d)
          ]
  ]
]

-- An update that keeps what the item refers to.
rewritten :
    (p : OrderItem → Bool) (f : OrderItem → OrderItem) (d : Db)
    → ((x : OrderItem) → (f x).order_id ≡ x.order_id)
    → ((x : OrderItem) → (f x).product_id ≡ x.product_id)
    → Upholds d (record d { items = update_where p f d.items })
rewritten p f d order product = changed_items d d.item_seq (update_where p f d.items) (λ h. (
  All-update_where (λ (i : OrderItem). i.id) (λ i. has_order d.orders i.order_id ≡ true) f p d.items
      (λ x there. rw (order x) there) h.item_orders,
  All-update_where (λ (i : OrderItem). i.id) (λ i. has_product d.products i.product_id ≡ true) f p
      d.items (λ x there. rw (product x) there) h.item_products,
))

fewer_items :
    (p : OrderItem → Bool) (d : Db) → Upholds d (record d { items = delete_where p d.items })
fewer_items p d = changed_items d d.item_seq (delete_where p d.items) (λ h. (
  All-delete_where (λ i. has_order d.orders i.order_id ≡ true) p d.items h.item_orders,
  All-delete_where (λ i. has_product d.products i.product_id ≡ true) p d.items h.item_products,
))

pub set_item_quantity-Upholds :
    (order_id product_id quantity : ℤ) (d : Db)
    → Upholds d (set_item_quantity order_id product_id quantity d).1
unfolding set_item_quantity
set_item_quantity-Upholds order_id product_id quantity d =
    either d d _ (set_item_quantity order_id product_id quantity d).1 (ground arith)
      (Upholds-same d)
      (rewritten (is_item order_id product_id) (λ i. record i { quantity = quantity }) d (λ x. refl)
        (λ x. refl))

pub set_item_price-Upholds :
    (order_id product_id unit_price : ℤ) (d : Db)
    → Upholds d (set_item_price order_id product_id unit_price d).1
unfolding set_item_price
set_item_price-Upholds order_id product_id unit_price d =
    either d d _ (set_item_price order_id product_id unit_price d).1 (ground arith) (Upholds-same d)
      (rewritten (is_item order_id product_id) (λ i. record i { unit_price = unit_price }) d
        (λ x. refl) (λ x. refl))

pub remove_item-Upholds :
    (order_id product_id : ℤ) (d : Db) → Upholds d (remove_item order_id product_id d).1
unfolding remove_item
remove_item-Upholds order_id product_id d =
    either d d _ (remove_item order_id product_id d).1 (ground arith) (Upholds-same d)
      (fewer_items (is_item order_id product_id) d)
