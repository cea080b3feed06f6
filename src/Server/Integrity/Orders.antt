-- ===== src/Server/Integrity/Orders.antt =====
-- The statements on the table of orders keep the keys.
use fincart.Prelude.{
  suc, String, Bool, true, false, List, [], ◌∷◌, ◌++◌, ◌≡◌, refl, some, arith, not, ◌&&◌, inl, inr,
}
use fincart.Prelude.Tests.{Bool-cases}
use fincart.Prelude.Lists.{All-append, All-map}
use fincart.Prelude.Int.{ℤ, pos, eqb_ℤ}
use fincart.Order.Status.{OrderStatus, draft, pending, status_eq, can_transition}
use fincart.Store.Schema.{Order, OrderItem, Db}
use fincart.Store.Rows.{find_where, update_where, any_where}
use fincart.Store.Rows.Laws.{All-update_where}
use fincart.Store.Rows.Keys.{
  updated, updated-cases, any_where-append, any_where-updated, Unlike-append_one,
  Unlike-update_where, HasKeys-grow, HasKeys-append_one, HasKeys-update_where,
}
use fincart.Store.Insert.{insert_order, has_draft, fits_currency}
use fincart.Order.Repository.{set_status}
use fincart.Cart.Repository.{is_draft, set_total, set_pending}
use fincart.Server.Integrity.{
  two_drafts, has_order, has_user, Upholds, Upholds-same, either, changed_orders,
}

-- What the unique index has tested of a new row.
fresh_draft :
    (row : Order) (xs : List Order)
    → (status_eq row.status draft && has_draft row.user_id xs) ≡ false
    → any_where (λ x. two_drafts x row) xs ≡ false
unfolding has_draft
fresh_draft row [] h = refl
fresh_draft row (x ∷ xs) h = ground (arith, h, fresh_draft row xs)

more_orders :
    (row : Order) (d : Db)
    → (status_eq row.status draft && has_draft row.user_id d.orders) ≡ false
    → has_user d.users row.user_id ≡ true
    → Upholds d (record d {
      orders = d.orders ++ record row { id = pos (suc d.order_seq) } ∷ [];
      order_seq = suc d.order_seq;
    })
more_orders row d single owner =
    let o : Order = record row { id = pos (suc d.order_seq) } in
    changed_orders d (suc d.order_seq) (d.orders ++ o ∷ []) (omega arith) (λ h. (
      HasKeys-append_one (λ (o : Order). o.id) d.order_seq d.orders o h.order_keys refl,
      Unlike-append_one two_drafts d.orders o h.drafts (fresh_draft o d.orders single),
      All-append (λ o. has_user d.users o.user_id ≡ true) d.orders (o ∷ []) h.order_users
          (owner, tt),
      All-map (λ (i : OrderItem). has_order d.orders i.order_id ≡ true)
          (λ i. has_order (d.orders ++ o ∷ []) i.order_id ≡ true) d.items
          (λ i there. any_where-append (λ o. eqb_ℤ o.id i.order_id) d.orders (o ∷ []) there)
          h.item_orders,
    ))

used_up : (d : Db) → Upholds d (record d { order_seq = suc d.order_seq })
used_up d = changed_orders d (suc d.order_seq) d.orders (omega arith) (λ h. (
  HasKeys-grow (λ (o : Order). o.id) d.order_seq (suc d.order_seq) d.orders (omega arith)
      h.order_keys,
  h.drafts,
  h.order_users,
  h.item_orders,
))

pub insert_order-Upholds : (row : Order) (d : Db) → Upholds d (insert_order row d).1
unfolding insert_order
insert_order-Upholds row d = elim (Bool-cases (not (fits_currency row.currency))) [
  | inl wide ↦ rw wide (used_up d)
  | inr fits ↦ elim (Bool-cases (status_eq row.status draft && has_draft row.user_id d.orders)) [
    | inl second ↦ rw (fits, second) (used_up d)
    | inr single ↦ elim (Bool-cases (has_user d.users row.user_id)) [
      | inl owner ↦ rw (fits, single, owner) (more_orders row d single owner)
      | inr unknown ↦ rw (fits, single, unknown) (used_up d)
    ]
  ]
]

-- An update that makes no new cart and keeps the id and the owner.
module _ (p : Order → Bool) (f : Order → Order) (id : (x : Order) → (f x).id ≡ x.id)
    (owner : (x : Order) → (f x).user_id ≡ x.user_id)
    (no_new : (x : Order)
      → p x ≡ true
      → status_eq (f x).status draft ≡ true
      → status_eq x.status draft ≡ true) where
  updated-owner : (x : Order) → (updated p f x).user_id ≡ x.user_id
  updated-owner x = updated-cases (λ y. y.user_id ≡ x.user_id) p f x refl (λ here. owner x)

  updated-no_new :
      (x : Order) → status_eq (updated p f x).status draft ≡ true → status_eq x.status draft ≡ true
  updated-no_new x =
      updated-cases (λ y. status_eq y.status draft ≡ true → status_eq x.status draft ≡ true) p f x
        (λ h. h) (no_new x)

  no_clash :
      (x y : Order) → two_drafts x y ≡ false → two_drafts (updated p f x) (updated p f y) ≡ false
  no_clash x y h =
      let a = updated-no_new x in
      let b = updated-no_new y in
      rw (updated-owner x, updated-owner y)
        (both (eqb_ℤ x.user_id y.user_id) (status_eq x.status draft)
          (status_eq (updated p f x).status draft) (status_eq y.status draft)
          (status_eq (updated p f y).status draft) a b h)
    where
      both :
          (u a a' b b' : Bool)
          → (a' ≡ true → a ≡ true)
          → (b' ≡ true → b ≡ true)
          → ((u && a) && b) ≡ false
          → ((u && a') && b') ≡ false
      both u a a' b b' ha hb h = ground (arith, ha, hb, h)

  pub rewritten : (d : Db) → Upholds d (record d { orders = update_where p f d.orders })
  rewritten d = changed_orders d d.order_seq (update_where p f d.orders) (omega arith) (λ h. (
    HasKeys-update_where (λ (o : Order). o.id) p f (λ x here. id x) d.order_seq d.orders
        h.order_keys,
    Unlike-update_where two_drafts p f no_clash d.orders h.drafts,
    All-update_where (λ (o : Order). o.id) (λ o. has_user d.users o.user_id ≡ true) f p d.orders
        (λ x there. rw (owner x) there) h.order_users,
    All-map (λ (i : OrderItem). has_order d.orders i.order_id ≡ true)
        (λ i. has_order (update_where p f d.orders) i.order_id ≡ true) d.items
        (λ i there.
          rw
            (any_where-updated (λ o. eqb_ℤ o.id i.order_id) p f d.orders (λ x here. rw (id x) refl))
            there)
        h.item_orders,
  ))

-- The life cycle does not lead back to a cart.
pub not_draft : (a b : OrderStatus) → can_transition a b ≡ true → status_eq b draft ≡ false
unfolding can_transition
not_draft a b h = ground arith

pub set_status-Upholds :
    (id : ℤ) (status : OrderStatus) (o : Order) (d : Db)
    → find_where (λ o. eqb_ℤ o.id id) d.orders ≡ some o
    → can_transition o.status status ≡ true
    → Upholds d (set_status id status d).1
unfolding set_status
set_status-Upholds id status o d found allowed =
    let other = not_draft o.status status allowed in
    rw other (
      rewritten (λ o. eqb_ℤ o.id id) (λ o. record o { status = status }) (λ x. refl) (λ x. refl)
        (λ x here bad. ground (arith, bad, other)) d)

pub set_total-Upholds :
    (id total : ℤ) (currency : String) (d : Db) → Upholds d (set_total id total currency d).1
unfolding set_total
set_total-Upholds id total currency d =
    either d d _ (set_total id total currency d).1 (ground arith) (Upholds-same d) (
      rewritten (is_draft id) (λ o. record o { total_amount = total; currency = currency })
        (λ x. refl) (λ x. refl) (λ x here same. same) d)

pub set_pending-Upholds : (id : ℤ) (d : Db) → Upholds d (set_pending id d).1
unfolding set_pending
set_pending-Upholds id d = either d d _ (set_pending id d).1 (ground arith) (Upholds-same d) (
    rewritten (is_draft id) (λ o. record o { status = pending }) (λ x. refl) (λ x. refl)
      (λ x here new. ground arith) d)
