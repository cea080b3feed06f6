-- ===== src/Server/Once/Requests.antt =====
-- The items of the carts over time.
use fincart.Prelude.{
  suc, String, Bool, true, false, List, [], ◌∷◌, ◌++◌, ◌≡◌, ◌⊎◌, not, refl, arith, inl, inr, subst,
  sym,
}
use fincart.Prelude.Tests.{Bool-cases}
use fincart.Prelude.Int.{ℤ, pos, eqb_ℤ, in_int4}
use fincart.Order.Status.{OrderStatus, draft, pending, status_eq, can_transition}
use fincart.Store.Schema.{Order, OrderItem, Db}
use fincart.Store.Rows.{update_where, delete_where}
use fincart.Store.Rows.Keys.{
  updated, updated-cases, Unlike-append_one, Unlike-update_where, Unlike-delete_where,
}
use fincart.Store.Insert.{insert_order, insert_item}
use fincart.Store.Monad.{Session}
use fincart.Order.Repository.{set_status}
use fincart.Product.Repository.{set_stock, insert_product, update_product, delete_product}
use fincart.Cart.Repository.{
  is_draft, is_item, set_item_quantity, remove_item, set_total, set_pending, set_item_price,
}
use fincart.User.Repository.{insert_user}
use fincart.Auth.Repository.{insert_token, revoke_token}
use fincart.Http.Message.{World, Request}
use fincart.Server.Kept.{Kept, Addable}
use fincart.Server.Requests.{serve_all, serve_all-step}
use fincart.Server.Integrity.{IsConsistent}
use fincart.Server.Integrity.Orders.{not_draft}
use fincart.Server.Integrity.Requests.{upholds}
use fincart.Server.Once.{
  doubled, HasItemsOnce, StaysOnce, StaysOnce-step, elsewhere, fewer_carts, new_id, no_new_cart,
  addable,
}

abbrev orders_changed : Db → List Order → Db
orders_changed d orders = record d { orders = orders }

abbrev items_changed : Db → List OrderItem → Db
items_changed d items = record d { items = items }

either : (d a b d' : Db) → (d' ≡ a) ⊎ (d' ≡ b) → HasItemsOnce a → HasItemsOnce b → HasItemsOnce d'
either d a b d' (inl e) h k = subst HasItemsOnce (sym e) h
either d a b d' (inr e) h k = subst HasItemsOnce (sym e) k

insert_order-once :
    (row : Order) (d : Db) → IsConsistent d → HasItemsOnce d → HasItemsOnce (insert_order row d).1
unfolding insert_order
insert_order-once row d c h =
    let o : Order = record row { id = pos (suc d.order_seq) } in
    either d (record d { order_seq = suc d.order_seq })
      (record d { orders = d.orders ++ o ∷ []; order_seq = suc d.order_seq }) (insert_order row d).1
      (ground arith) h
      (fewer_carts (d.orders ++ o ∷ []) d (λ id there. new_id o d id c refl there) c h)

-- An update of orders that makes no cart.
module _ (p : Order → Bool) (f : Order → Order) (id : (x : Order) → (f x).id ≡ x.id)
    (no_new : (x : Order)
      → p x ≡ true
      → status_eq x.status draft ≡ false
      → status_eq (f x).status draft ≡ false) where
  rewritten :
      (d : Db)
      → IsConsistent d
      → HasItemsOnce d
      → HasItemsOnce (record d { orders = update_where p f d.orders })
  rewritten d c h =
      fewer_carts (update_where p f d.orders) d
        (λ k there. no_new_cart p f k d.orders (λ x other.
          updated-cases (λ y. is_draft k y ≡ false) p f x other
            (λ here. ground (arith, id x, no_new x here, other))))
        c h

set_status-once :
    (id : ℤ) (status : OrderStatus) (o : Order) (d : Db)
    → can_transition o.status status ≡ true
    → IsConsistent d
    → HasItemsOnce d
    → HasItemsOnce (set_status id status d).1
unfolding set_status
set_status-once id status o d allowed c h =
    let other = not_draft o.status status allowed in
    rw other (
      rewritten (λ o. eqb_ℤ o.id id) (λ o. record o { status = status }) (λ x. refl)
        (λ x here was. other) d c h)

set_total-once :
    (id total : ℤ) (currency : String) (d : Db)
    → IsConsistent d
    → HasItemsOnce d
    → HasItemsOnce (set_total id total currency d).1
unfolding set_total
set_total-once id total currency d c h =
    either d d
      (orders_changed d (
        update_where (is_draft id) (λ o. record o { total_amount = total; currency = currency })
          d.orders))
      (set_total id total currency d).1 (ground arith) h
      (rewritten (is_draft id) (λ o. record o { total_amount = total; currency = currency })
        (λ x. refl) (λ x here was. was) d c h)

set_pending-once :
    (id : ℤ) (d : Db) → IsConsistent d → HasItemsOnce d → HasItemsOnce (set_pending id d).1
unfolding set_pending status_eq
set_pending-once id d c h =
    either d d
      (orders_changed d (update_where (is_draft id) (λ o. record o { status = pending }) d.orders))
      (set_pending id d).1 (ground arith) h
      (rewritten (is_draft id) (λ o. record o { status = pending }) (λ x. refl) (λ x here was. refl)
        d c h)

insert_item-once :
    (row : OrderItem) (d : Db)
    → Addable row d
    → IsConsistent d
    → HasItemsOnce d
    → HasItemsOnce (insert_item row d).1
unfolding insert_item
insert_item-once row d free c h =
    let i : OrderItem = record row { id = pos (suc d.item_seq) } in
    let same : HasItemsOnce (record d { item_seq = suc d.item_seq }) = h in
    let more : HasItemsOnce (record d { items = d.items ++ i ∷ []; item_seq = suc d.item_seq }) =
      Unlike-append_one (doubled d.orders) d.items i h (addable row d c free) in
    elim (Bool-cases (not (in_int4 row.quantity))) [
      | inl wide ↦ rw wide h
      | inr fits ↦
          either d (record d { item_seq = suc d.item_seq })
            (record d { items = d.items ++ i ∷ []; item_seq = suc d.item_seq })
            (insert_item row d).1 (ground (arith, fits)) same more
    ]

-- An update of items that keeps what they refer to.
module _ (p : OrderItem → Bool) (f : OrderItem → OrderItem)
    (order : (x : OrderItem) → (f x).order_id ≡ x.order_id)
    (product : (x : OrderItem) → (f x).product_id ≡ x.product_id) where
  same_order : (x : OrderItem) → (updated p f x).order_id ≡ x.order_id
  same_order x = updated-cases (λ y. y.order_id ≡ x.order_id) p f x refl (λ here. order x)

  same_product : (x : OrderItem) → (updated p f x).product_id ≡ x.product_id
  same_product x = updated-cases (λ y. y.product_id ≡ x.product_id) p f x refl (λ here. product x)

  rewritten_items :
      (d : Db) → HasItemsOnce d → HasItemsOnce (record d { items = update_where p f d.items })
  rewritten_items d =
      Unlike-update_where (doubled d.orders) p f
        (λ x y other. rw (same_order x, same_product x, same_order y, same_product y) other) d.items

set_item_quantity-once :
    (order_id product_id quantity : ℤ) (d : Db)
    → HasItemsOnce d
    → HasItemsOnce (set_item_quantity order_id product_id quantity d).1
unfolding set_item_quantity
set_item_quantity-once order_id product_id quantity d h =
    either d d
      (items_changed d (
        update_where (is_item order_id product_id) (λ i. record i { quantity = quantity }) d.items))
      (set_item_quantity order_id product_id quantity d).1 (ground arith) h
      (rewritten_items (is_item order_id product_id) (λ i. record i { quantity = quantity })
        (λ x. refl) (λ x. refl) d h)

set_item_price-once :
    (order_id product_id unit_price : ℤ) (d : Db)
    → HasItemsOnce d
    → HasItemsOnce (set_item_price order_id product_id unit_price d).1
unfolding set_item_price
set_item_price-once order_id product_id unit_price d h =
    either d d
      (items_changed d (
        update_where (is_item order_id product_id) (λ i. record i { unit_price = unit_price })
          d.items))
      (set_item_price order_id product_id unit_price d).1 (ground arith) h
      (rewritten_items (is_item order_id product_id) (λ i. record i { unit_price = unit_price })
        (λ x. refl) (λ x. refl) d h)

remove_item-once :
    (order_id product_id : ℤ) (d : Db)
    → HasItemsOnce d
    → HasItemsOnce (remove_item order_id product_id d).1
unfolding remove_item
remove_item-once order_id product_id d h =
    either d d (items_changed d (delete_where (is_item order_id product_id) d.items))
      (remove_item order_id product_id d).1 (ground arith) h
      (Unlike-delete_where (doubled d.orders) (is_item order_id product_id) d.items h)

stays_once : Kept StaysOnce
unfolding set_stock insert_product update_product delete_product insert_user insert_token
    revoke_token
stays_once = record {
  step = StaysOnce-step;
  order_inserted =
      λ row d. record { upholds = upholds.order_inserted row d; once = insert_order-once row d };
  item_inserted = λ row d free. record {
    upholds = upholds.item_inserted row d free;
    once = insert_item-once row d free;
  };
  status_set = λ id status o d found allowed. record {
    upholds = upholds.status_set id status o d found allowed;
    once = set_status-once id status o d allowed;
  };
  stock_set = λ id quantity change d.
      elsewhere d _ (upholds.stock_set id quantity change d) (ground arith) (ground arith);
  product_inserted =
      λ row d. elsewhere d _ (upholds.product_inserted row d) (ground arith) (ground arith);
  product_updated =
      λ row d. elsewhere d _ (upholds.product_updated row d) (ground arith) (ground arith);
  product_deleted =
      λ id d. elsewhere d _ (upholds.product_deleted id d) (ground arith) (ground arith);
  quantity_set = λ order_id product_id quantity d. record {
    upholds = upholds.quantity_set order_id product_id quantity d;
    once = λ c. set_item_quantity-once order_id product_id quantity d;
  };
  item_removed = λ order_id product_id d. record {
    upholds = upholds.item_removed order_id product_id d;
    once = λ c. remove_item-once order_id product_id d;
  };
  total_set = λ id total currency d. record {
    upholds = upholds.total_set id total currency d;
    once = set_total-once id total currency d;
  };
  pending_set = λ id d. record { upholds = upholds.pending_set id d; once = set_pending-once id d };
  price_set = λ order_id product_id unit_price d. record {
    upholds = upholds.price_set order_id product_id unit_price d;
    once = λ c. set_item_price-once order_id product_id unit_price d;
  };
  user_inserted = λ now email password_hash d.
      elsewhere d _ (upholds.user_inserted now email password_hash d) (ground arith) (ground arith);
  token_inserted = λ now user_id token_hash expires_at d.
      elsewhere d _ (upholds.token_inserted now user_id token_hash expires_at d) (ground arith)
        (ground arith);
  token_revoked =
      λ now id d. elsewhere d _ (upholds.token_revoked now id d) (ground arith) (ground arith);
}

-- Whatever requests the server gets, no cart has a product twice, if the database was consistent and
-- no cart had one.
pub serve_all-HasItemsOnce :
    (requests : List (World × Request)) (s : Session)
    → IsConsistent s.db
    → HasItemsOnce s.db
    → HasItemsOnce (serve_all requests s).db
serve_all-HasItemsOnce requests s = (serve_all-step stays_once requests s).once
