-- ===== src/Cart/Quantities.antt =====
-- What `Checkout` takes from the stock: the map of quantities that its loop over the items fills, and
-- the ids that it goes through, as often as the items name them.
use fincart.Prelude.{
  Bool, true, false, List, some, none, [], ◌∷◌, ◌≡◌, refl, sym, ◌∙◌, ap, arith, inl, inr, ◌||◌,
  subst,
}
use fincart.Prelude.Tests.{if◌then◌else◌, Bool-cases}
use fincart.Prelude.Lists.{All}
use fincart.Prelude.Int.{ℤ, pos, ◌+ℤ◌, eqb_ℤ, eqb_ℤ_iff, eqb_ℤ_refl, leb_ℤ, int_laws}
use fincart.Order.Quantities.{Quantities, quantity_of, set_quantity, insert_id, sort_ids}
use fincart.Order.Requested.{quantity_of-set_quantity}
use fincart.Store.Schema.{Product, OrderItem}
use fincart.Store.Rows.{any_where}
use fincart.Store.Rows.Keys.{Unlike}
use fincart.Store.Rows.Laws.{find_where_of_any}
use fincart.Goods.{item_units, held}
use fincart.Goods.Laws.{any_order}
use fincart.Cart.Model.{Item, joined}
use fincart.Cart.Repository.{join}
use fincart.Cart.Checkout.{product_ids, assign_quantities}

-- The units of a product that the loop over the ids takes.
unfoldable pub taken : ℤ → Quantities → List ℤ → ℤ
taken id m [] = pos 0
taken id m (k ∷ ks) = (if eqb_ℤ k id then quantity_of k m else pos 0) +ℤ taken id m ks

-- The units of a product in the items of a cart.
unfoldable pub asked : ℤ → List Item → ℤ
asked id [] = pos 0
asked id (i ∷ items) = (if eqb_ℤ i.product_id id then i.quantity else pos 0) +ℤ asked id items

abbrev pub is_of : ℤ → Item → Bool
is_of id i = eqb_ℤ i.product_id id

-- No two items of the cart have the same product.
abbrev pub OncePerProduct : List Item → Type 0
OncePerProduct = Unlike (λ x y. eqb_ℤ y.product_id x.product_id)

taken-insert_id :
    (id : ℤ) (m : Quantities) (a : ℤ) (bs : List ℤ)
    → taken id m (insert_id a bs) ≡ taken id m (a ∷ bs)
unfolding taken insert_id
taken-insert_id id m a [] = refl
taken-insert_id id m a (b ∷ bs) = elim (Bool-cases (leb_ℤ a b)) [
  | inl le ↦ rw le refl
  | inr gt ↦ rw gt (rw (taken-insert_id id m a bs) (omega int_laws))
]

taken-sort_ids :
    (id : ℤ) (m : Quantities) (as_ : List ℤ) → taken id m (sort_ids as_) ≡ taken id m as_
unfolding taken sort_ids
taken-sort_ids id m [] = refl
taken-sort_ids id m (a ∷ as_) =
    taken-insert_id id m a (sort_ids as_)
    ∙ ap (λ n. (if eqb_ℤ a id then quantity_of a m else pos 0) +ℤ n) (taken-sort_ids id m as_)

-- A product that no item names.
none_asked :
    (id : ℤ) (items : List Item) → any_where (is_of id) items ≡ false → asked id items ≡ pos 0
unfolding asked
none_asked id [] h = refl
none_asked id (i ∷ items) h =
    let here : eqb_ℤ i.product_id id ≡ false = ground (arith, h) in
    let rest : any_where (is_of id) items ≡ false = ground (arith, h) in
    rw (here, none_asked id items rest) (omega int_laws)

none_taken :
    (id : ℤ) (m : Quantities) (items : List Item)
    → any_where (is_of id) items ≡ false
    → taken id m (product_ids items) ≡ pos 0
unfolding taken product_ids
none_taken id m [] h = refl
none_taken id m (i ∷ items) h =
    let here : eqb_ℤ i.product_id id ≡ false = ground (arith, h) in
    let rest : any_where (is_of id) items ≡ false = ground (arith, h) in
    rw (here, none_taken id m items rest) (omega int_laws)

none_assigned :
    (id : ℤ) (items : List Item) (m : Quantities)
    → any_where (is_of id) items ≡ false
    → quantity_of id (assign_quantities items m) ≡ quantity_of id m
unfolding assign_quantities
none_assigned id [] m h = refl
none_assigned id (i ∷ items) m h =
    let here : eqb_ℤ i.product_id id ≡ false = ground (arith, h) in
    let rest : any_where (is_of id) items ≡ false = ground (arith, h) in
    none_assigned id items (set_quantity i.product_id i.quantity m) rest
    ∙ quantity_of-set_quantity id i.product_id i.quantity m
    ∙ rw here refl

-- A product that one item names.
one_taken :
    (id : ℤ) (items : List Item) (m : Quantities)
    → OncePerProduct items
    → any_where (is_of id) items ≡ true
    → taken id (assign_quantities items m) (product_ids items) ≡ asked id items
unfolding taken product_ids asked assign_quantities
one_taken id [] m h there = cc
one_taken id (i ∷ items) m h there =
    let m' = assign_quantities items (set_quantity i.product_id i.quantity m) in
    elim (Bool-cases (eqb_ℤ i.product_id id)) [
      | inl this ↦
          let e = (eqb_ℤ_iff i.product_id id).0 this in
          let rest : any_where (is_of id) items ≡ false =
            subst (λ k. any_where (is_of k) items ≡ false) e h.0 in
          let last : quantity_of i.product_id m' ≡ i.quantity =
            none_assigned i.product_id items (set_quantity i.product_id i.quantity m) h.0
            ∙ quantity_of-set_quantity i.product_id i.product_id i.quantity m
            ∙ rw (eqb_ℤ_refl i.product_id) refl in
          rw (this, last, none_taken id m' items rest, none_asked id items rest) refl
      | inr other ↦
          rw
            (
              other,
              one_taken id items (set_quantity i.product_id i.quantity m) h.1 (rw other at there),
            )
            refl
    ]

-- If no two items have the same product, the loop takes what the items ask for.
pub taken-asked :
    (id : ℤ) (items : List Item)
    → OncePerProduct items
    → taken id (assign_quantities items []) (sort_ids (product_ids items)) ≡ asked id items
taken-asked id items h =
    taken-sort_ids id (assign_quantities items []) (product_ids items)
    ∙ elim (Bool-cases (any_where (is_of id) items)) [
      | inl there ↦ one_taken id items [] h there
      | inr missing ↦
          none_taken id (assign_quantities items []) items missing
          ∙ sym (none_asked id items missing)
    ]

-- The join of rows whose products are there has an item for each row.
abbrev pub Stocked : List Product → List OrderItem → Type 0
Stocked products = All (λ i. any_where (λ p. eqb_ℤ p.id i.product_id) products ≡ true)

-- The row of a product that is there.
join-cons :
    (products : List Product) (i : OrderItem) (rows : List OrderItem)
    → any_where (λ p. eqb_ℤ p.id i.product_id) products ≡ true
    → (p : Product) × (join products (i ∷ rows) ≡ joined i p ∷ join products rows)
unfolding join
join-cons products i rows h =
    let (p, found, _) = find_where_of_any (λ (p : Product). p.id) i.product_id products h in
    (
      p,
      ap (λ o. elim o [ none ↦ join products rows | some p ↦ joined i p ∷ join products rows ])
          found,
    )

pub asked-join :
    (id : ℤ) (products : List Product) (rows : List OrderItem)
    → Stocked products rows
    → asked id (join products rows) ≡ held id any_order rows
unfolding asked join held item_units joined
asked-join id products [] h = refl
asked-join id products (i ∷ rows) h =
    let (p, e) = join-cons products i rows h.0 in
    ap (asked id) e ∙ rw (asked-join id products rows h.1) (ground arith)

any_where-join :
    (id : ℤ) (products : List Product) (rows : List OrderItem)
    → Stocked products rows
    → any_where (is_of id) (join products rows) ≡ any_where (λ i. eqb_ℤ i.product_id id) rows
unfolding join joined
any_where-join id products [] h = refl
any_where-join id products (i ∷ rows) h =
    let (p, e) = join-cons products i rows h.0 in
    ap (any_where (is_of id)) e
    ∙ ap (λ b. eqb_ℤ i.product_id id || b) (any_where-join id products rows h.1)

pub join-OncePerProduct :
    (products : List Product) (rows : List OrderItem)
    → Stocked products rows
    → Unlike (λ x y. eqb_ℤ y.product_id x.product_id) rows
    → OncePerProduct (join products rows)
unfolding join joined
join-OncePerProduct products [] h once = tt
join-OncePerProduct products (i ∷ rows) h once =
    let (p, e) = join-cons products i rows h.0 in
    subst OncePerProduct (sym e) (
      any_where-join i.product_id products rows h.1 ∙ once.0,
      join-OncePerProduct products rows h.1 once.1,
    )
