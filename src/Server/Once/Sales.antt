-- ===== src/Server/Once/Sales.antt =====
-- A checkout after any requests.
use fincart.Prelude.{
  Option, Bool, true, false, List, [], ◌∷◌, ◌≡◌, some, arith, refl, sym, subst, inl, inr,
}
use fincart.Prelude.Tests.{Bool-cases}
use fincart.Prelude.Int.{ℤ, eqb_ℤ, eqb_ℤ_iff}
use fincart.Store.Schema.{Order, OrderItem, Db}
use fincart.Store.Monad.{Env, Session}
use fincart.Store.Rows.{find_where, any_where, select_where}
use fincart.Store.Rows.Finding.{find_where_passes}
use fincart.Store.Rows.Keys.{Unlike}
use fincart.Goods.{units}
use fincart.Cart.Repository.{is_draft, is_draft_of}
use fincart.Cart.Checkout.{checkout}
use fincart.Cart.Moves.{IsOrderly}
use fincart.Cart.Goods.{checkout-units}
use fincart.Http.Message.{World, Request}
use fincart.Server.Requests.{serve_all}
use fincart.Server.Integrity.{IsConsistent}
use fincart.Server.Integrity.Requests.{serve_all-IsConsistent}
use fincart.Server.Once.{doubled, HasItemsOnce}
use fincart.Server.Once.Requests.{serve_all-HasItemsOnce}

found_passes :
    (p q : Order → Bool) (xs : List Order) (o : Order)
    → find_where p xs ≡ some o
    → q o ≡ true
    → any_where q xs ≡ true
found_passes p q [] o h k = cc
found_passes p q (x ∷ xs) o h k = elim (Bool-cases (p x)) [
  | inl this ↦
      let f : ◌≡◌ {A = Option Order} (some x) (some o) = rw this at h in
      let e : x ≡ o = cc in let passes = subst (λ y. q y ≡ true) (sym e) k in ground (arith, passes)
  | inr other ↦ let rest = found_passes p q xs o (rw other at h) k in ground (arith, rest)
]

-- The items of one cart have different products.
module _ (orders : List Order) (id : ℤ) (cart : any_where (is_draft id) orders ≡ true) where
  apart :
      (x : OrderItem) (xs : List OrderItem)
      → eqb_ℤ x.order_id id ≡ true
      → any_where (doubled orders x) xs ≡ false
      → any_where
          (λ y. eqb_ℤ y.product_id x.product_id)
          (select_where (λ i. eqb_ℤ i.order_id id) xs)
        ≡ false
  apart x [] own h = refl
  apart x (y ∷ xs) own h =
      let same : x.order_id ≡ id = (eqb_ℤ_iff x.order_id id).0 own in
      let is_cart = subst (λ k. any_where (is_draft k) orders ≡ true) (sym same) cart in
      ground (
        arith,
        is_cart,
        own,
        same,
        h,
        apart x xs own,
        eqb_ℤ_iff y.order_id id,
        eqb_ℤ_iff y.order_id x.order_id,
      )

  once_in_cart :
      (xs : List OrderItem)
      → Unlike (doubled orders) xs
      → Unlike (λ x y. eqb_ℤ y.product_id x.product_id) (select_where (λ i. eqb_ℤ i.order_id id) xs)
  once_in_cart [] h = tt
  once_in_cart (x ∷ xs) h = elim (Bool-cases (eqb_ℤ x.order_id id)) [
    | inl own ↦ rw own (apart x xs own h.0, once_in_cart xs h.1)
    | inr other ↦ rw other (once_in_cart xs h.1)
  ]

orderly : (user_id : ℤ) (d : Db) → IsConsistent d → HasItemsOnce d → IsOrderly user_id d
orderly user_id d c h = record {
  distinct = c.order_keys.distinct;
  stocked = c.item_products;
  once = λ o row.
      let passes = find_where_passes (is_draft_of user_id) d.orders o row in
      let own : is_draft o.id o ≡ true = ground (arith, passes, eqb_ℤ_iff o.id o.id) in
      once_in_cart d.orders o.id
        (found_passes (is_draft_of user_id) (is_draft o.id) d.orders o row own) d.items h;
}

-- After whatever requests, if the database was consistent and no cart had a product twice, Checkout
-- keeps the units of each product, on stock and in the orders that have taken them, whatever it
-- returns.
pub serve_all-checkout-units :
    (requests : List (World × Request)) (env : Env) (id user_id : ℤ) (s : Session)
    → IsConsistent s.db
    → HasItemsOnce s.db
    → units id (checkout env user_id (serve_all requests s)).1.db
      ≡ units id (serve_all requests s).db
serve_all-checkout-units requests env id user_id s c h =
    checkout-units env id user_id (serve_all requests s) (
      orderly user_id (serve_all requests s).db (serve_all-IsConsistent requests s c)
        (serve_all-HasItemsOnce requests s c h))
