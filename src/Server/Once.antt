-- ===== src/Server/Once.antt =====
-- Carts that have each product once: what the statements on orders and items are asked for.
pub mod Requests
pub mod Sales
use fincart.Prelude.{
  String, none, Bool, true, false, suc, List, [], ◌∷◌, ◌++◌, ◌≡◌, ◌||◌, ◌&&◌, arith, refl, sym, ◌∙◌,
  subst, inl, inr,
}
use fincart.Prelude.Tests.{Bool-cases}
use fincart.Prelude.Lists.{All}
use fincart.Prelude.Int.{ℤ, pos, eqb_ℤ, eqb_ℤ_iff}
use fincart.Order.Status.{OrderStatus, draft, pending, status_eq}
use fincart.Store.Schema.{Product, Order, OrderItem, Db}
use fincart.Store.Monad.{err, no_rows}
use fincart.Store.Rows.{find_where, any_where, update_where, select_where}
use fincart.Store.Rows.Laws.{any_where-append_one}
use fincart.Store.Rows.Keys.{
  Unlike, Unlike-weaken, Unlike-append_one, fresh, updated, any_where-none, any_where-weaken,
}
use fincart.Database.{restore}
use fincart.Cart.Repository.{is_draft, is_item, first_row, join}
use fincart.Server.Kept.{is_pending, Addable}
use fincart.Server.Steps.{IsStep}
use fincart.Server.Integrity.{IsConsistent, Upholds, Upholds-step, has_order, has_product}

-- Two items of one cart with the same product.
abbrev pub doubled : List Order → OrderItem → OrderItem → Bool
doubled orders x y = is_item x.order_id x.product_id y && any_where (is_draft x.order_id) orders

abbrev pub HasItemsOnce : Db → Type 0
HasItemsOnce d = Unlike (doubled d.orders) d.items

-- A consistent database without such items has none afterwards either.
pub record StaysOnce (d d' : Db) : Type 0 where
  pub upholds : Upholds d d'
  pub once : IsConsistent d → HasItemsOnce d → HasItemsOnce d'

pub StaysOnce-step : IsStep StaysOnce
unfolding restore
StaysOnce-step = record {
  same = λ d. record { upholds = Upholds-step.same d; once = λ c h. h };
  next = λ a b c h k. record {
    upholds = Upholds-step.next a b c h.upholds k.upholds;
    once = λ ok o. k.once (h.upholds.consistent ok) (h.once ok o);
  };
  restored = λ d d' h. record { upholds = Upholds-step.restored d d' h.upholds; once = λ c o. o };
}

-- A statement on other tables.
pub elsewhere :
    (d d' : Db) → Upholds d d' → d'.items ≡ d.items → d'.orders ≡ d.orders → StaysOnce d d'
elsewhere d d' u items orders = record { upholds = u; once = λ c h. rw (items, orders) h }

-- No order with an item has become a cart.
pub fewer_carts :
    (orders : List Order) (d : Db)
    → ((id : ℤ)
        → has_order d.orders id ≡ true
        → any_where (is_draft id) d.orders ≡ false
        → any_where (is_draft id) orders ≡ false)
    → IsConsistent d
    → HasItemsOnce d
    → Unlike (doubled orders) d.items
fewer_carts orders d fewer c h =
    Unlike-weaken (doubled d.orders) (doubled orders) (λ i. has_order d.orders i.order_id ≡ true)
      (λ x y there single. ground (arith, fewer x.order_id there, single)) d.items c.item_orders h

-- The new order has a new id.
pub new_id :
    (o : Order) (d : Db) (id : ℤ)
    → IsConsistent d
    → o.id ≡ pos (suc d.order_seq)
    → has_order d.orders id ≡ true
    → any_where (is_draft id) d.orders ≡ false
    → any_where (is_draft id) (d.orders ++ o ∷ []) ≡ false
new_id o d id c e there single =
    rw (any_where-append_one (is_draft id) d.orders o, single)
      (elim (Bool-cases (eqb_ℤ o.id id)) [
        | inl same ↦
            let eq : o.id ≡ id = (eqb_ℤ_iff o.id id).0 same in
            let missing =
              fresh (λ (o : Order). o.id) d.order_seq o d.orders c.order_keys.numbered e in
            let taken = subst (λ k. has_order d.orders k ≡ true) (sym eq) there in cc
        | inr other ↦ rw other refl
      ])

-- An update that makes no cart and keeps the ids.
pub no_new_cart :
    (p : Order → Bool) (f : Order → Order) (id : ℤ) (xs : List Order)
    → ((x : Order) → is_draft id x ≡ false → is_draft id (updated p f x) ≡ false)
    → any_where (is_draft id) xs ≡ false
    → any_where (is_draft id) (update_where p f xs) ≡ false
no_new_cart p f id [] keep h = refl
no_new_cart p f id (x ∷ xs) keep h = ground (arith, keep x, no_new_cart p f id xs keep, h)

apart : (s : OrderStatus) → status_eq s pending ≡ true → status_eq s draft ≡ false
unfolding status_eq
apart s h = ground arith

-- An order that waits for its payment is no cart.
not_a_cart :
    (id : ℤ) (xs : List Order)
    → Unlike (λ x y. eqb_ℤ x.id y.id) xs
    → any_where (is_pending id) xs ≡ true
    → any_where (is_draft id) xs ≡ false
not_a_cart id [] h k = refl
not_a_cart id (x ∷ xs) h k = elim (Bool-cases (eqb_ℤ x.id id)) [
  | inl this ↦
      let others : (q : OrderStatus → Bool)
          → any_where (λ y. eqb_ℤ y.id id && q y.status) xs ≡ false =
        λ q.
          any_where-weaken (λ y. eqb_ℤ x.id y.id) (λ y. eqb_ℤ y.id id && q y.status)
            (λ y other.
              ground
                (arith, eqb_ℤ_iff x.id y.id, eqb_ℤ_iff y.id id, eqb_ℤ_iff x.id id, this, other))
            xs h.0 in
      let no_more = others (λ s. status_eq s pending) in
      let no_cart = others (λ s. status_eq s draft) in
      ground (arith, this, k, apart x.status, no_more, no_cart)
  | inr other ↦ rw other (not_a_cart id xs h.1 (rw other at k))
]

none_found :
    (products : List Product) (id : ℤ)
    → find_where (λ p. eqb_ℤ p.id id) products ≡ none
    → has_product products id ≡ false
none_found [] id h = refl
none_found (p ∷ products) id h = ground (arith, none_found products id, h)

first_row_there :
    (products : List Product) (i : OrderItem) (items : List OrderItem)
    → has_product products i.product_id ≡ true
    → first_row (join products (i ∷ items)) ≡ err no_rows
    → ⊥
unfolding first_row join
first_row_there products i items there h =
    ground (arith, none_found products i.product_id, there, h)

-- The join leaves no item out.
not_found :
    (products : List Product) (p : OrderItem → Bool) (items : List OrderItem)
    → All (λ i. has_product products i.product_id ≡ true) items
    → first_row (join products (select_where p items)) ≡ err no_rows
    → any_where p items ≡ false
unfolding first_row join
not_found products p [] there h = refl
not_found products p (i ∷ items) there h = elim (Bool-cases (p i)) [
  | inl this ↦ absurd (first_row_there products i (select_where p items) there.0 (rw this at h))
  | inr other ↦ rw other (not_found products p items there.1 (rw other at h))
]

-- The item that is added has no double.
pub addable :
    (row : OrderItem) (d : Db)
    → IsConsistent d
    → Addable row d
    → any_where (λ x. doubled d.orders x row) d.items ≡ false
addable row d c (inl waits) =
    let single = not_a_cart row.order_id d.orders c.order_keys.distinct waits in
    any_where-none (λ x. doubled d.orders x row)
      (λ x. elim (Bool-cases (eqb_ℤ row.order_id x.order_id)) [
        | inl same ↦
            let eq : row.order_id ≡ x.order_id = (eqb_ℤ_iff row.order_id x.order_id).0 same in
            let single_ = subst (λ k. any_where (is_draft k) d.orders ≡ false) eq single in
            ground (arith, single_)
        | inr other ↦ rw other refl
      ])
      d.items
addable row d c (inr unfound) =
    any_where-weaken (is_item row.order_id row.product_id) (λ x. doubled d.orders x row)
      (λ x other. ground (
        arith,
        eqb_ℤ_iff x.order_id row.order_id,
        eqb_ℤ_iff row.order_id x.order_id,
        eqb_ℤ_iff x.product_id row.product_id,
        eqb_ℤ_iff row.product_id x.product_id,
        other,
      ))
      d.items
      (not_found d.products (is_item row.order_id row.product_id) d.items c.item_products unfound)
