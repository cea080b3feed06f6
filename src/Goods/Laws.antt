-- ===== src/Goods/Laws.antt =====
-- How the units of a product move under a change of stock, of an order's status, and of the items.
use fincart.Prelude.{arith, Bool, true, false, List, [], ◌∷◌, ◌++◌, ◌≡◌, refl, inl, inr}
use fincart.Prelude.Tests.{if◌then◌else◌, Bool-cases}
use fincart.Prelude.Lists.{All}
use fincart.Prelude.Int.{ℤ, pos, ◌+ℤ◌, eqb_ℤ, eqb_ℤ_iff, int_laws}
use fincart.Store.Schema.{Product, OrderItem}
use fincart.Store.Rows.{select_where, update_where, any_where}
use fincart.Store.Rows.Laws.{find_where-update_where, find_where_of_any}
use fincart.Goods.{stock_of, item_units, held}

-- A change of the stock of one product that is there.
pub stock_of-update_where :
    (change : ℤ → ℤ) (id k : ℤ) (products : List Product)
    → any_where (λ p. eqb_ℤ p.id id) products ≡ true
    → stock_of k
        (update_where (λ p. eqb_ℤ p.id id) (λ p. record p { stock = change p.stock }) products)
      ≡ (if eqb_ℤ k id then change (stock_of k products) else stock_of k products)
unfolding stock_of
stock_of-update_where change id k products there =
    let e =
      find_where-update_where (λ (p : Product). p.id) (λ p. record p { stock = change p.stock }) id
        k products (λ p. refl) in
    elim (Bool-cases (eqb_ℤ k id)) [
      | inl same ↦
          let here : any_where (λ p. eqb_ℤ p.id k) products ≡ true =
            rw ((eqb_ℤ_iff k id).0 same) there in
          let (p, found, _) = find_where_of_any (λ (p : Product). p.id) k products here in
          rw (e, same, stock_of) (ground (arith, found))
      | inr other ↦ rw (e, other, stock_of)
    ]

-- One more item.
pub held-append_one :
    (id : ℤ) (taken : ℤ → Bool) (items : List OrderItem) (i : OrderItem)
    → held id taken (items ++ i ∷ []) ≡ held id taken items +ℤ item_units id taken i
unfolding held
held-append_one id taken [] i = omega int_laws
held-append_one id taken (j ∷ items) i = rw (held-append_one id taken items i) (omega int_laws)

-- The test is asked only about the orders that the items name.
pub held_cong :
    (id : ℤ) (taken taken' : ℤ → Bool) (items : List OrderItem)
    → All (λ i. taken' i.order_id ≡ taken i.order_id) items
    → held id taken' items ≡ held id taken items
unfolding held item_units
held_cong id taken taken' [] h = refl
held_cong id taken taken' (i ∷ items) h = rw (h.0, held_cong id taken taken' items h.1)

abbrev pub any_order : ℤ → Bool
any_order k = true

-- Items that no order has taken.
abbrev pub in_order : ℤ → OrderItem → Bool
in_order order_id i = eqb_ℤ i.order_id order_id

item_units_release :
    (id order_id : ℤ) (taken taken' : ℤ → Bool) (i : OrderItem)
    → taken order_id ≡ true
    → taken' order_id ≡ false
    → (eqb_ℤ i.order_id order_id ≡ false → taken' i.order_id ≡ taken i.order_id)
    → item_units id taken i
      ≡ item_units id taken' i +ℤ (if in_order order_id i then item_units id any_order i else pos 0)
unfolding item_units
item_units_release id order_id taken taken' i t t' same =
    elim (Bool-cases (eqb_ℤ i.order_id order_id)) [
      | inl mine ↦
          let e = (eqb_ℤ_iff i.order_id order_id).0 mine in
          let a : taken i.order_id ≡ true = rw e t in
          let b : taken' i.order_id ≡ false = rw e t' in
          rw (mine, a, b)
            (elim (Bool-cases (eqb_ℤ i.product_id id)) [
              | inl this ↦ rw this (omega int_laws)
              | inr other ↦ rw other (omega int_laws)
            ])
      | inr other ↦ rw (other, same other) (omega int_laws)
    ]

-- When one order lets go of its items, the units held fall by those in its items.
pub held_release :
    (id order_id : ℤ) (taken taken' : ℤ → Bool) (items : List OrderItem)
    → taken order_id ≡ true
    → taken' order_id ≡ false
    → ((k : ℤ) → eqb_ℤ k order_id ≡ false → taken' k ≡ taken k)
    → held id taken items
      ≡ held id taken' items +ℤ held id any_order (select_where (in_order order_id) items)
unfolding held
held_release id order_id taken taken' [] t t' same = omega int_laws
held_release id order_id taken taken' (i ∷ items) t t' same =
    let ih = held_release id order_id taken taken' items t t' same in
    let e = item_units_release id order_id taken taken' i t t' (same i.order_id) in
    elim (Bool-cases (in_order order_id i)) [
      | inl mine ↦ let e' = rw mine at e in rw (mine, e', ih) (omega int_laws)
      | inr other ↦ let e' = rw other at e in rw (other, e', ih) (omega int_laws)
    ]
