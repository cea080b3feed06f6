-- ===== src/Cart/Conservation.antt =====
-- `Checkout` neither makes nor loses goods: what it takes from the stock is what the order then holds.
use fincart.Prelude.{Bool, true, false, List, [], ◌∷◌, ◌≡◌, refl, ◌∙◌, ap, arith, inl, inr}
use fincart.Prelude.Tests.{if◌then◌else◌, Bool-cases}
use fincart.Prelude.Lists.{All, All-map}
use fincart.Prelude.Int.{
  ℤ, pos, ◌+ℤ◌, ◌-ℤ◌, eqb_ℤ, eqb_ℤ_comm, int_laws, +ℤ_zero_left, +ℤ_zero_right,
}
use fincart.Order.Quantities.{Quantities, quantity_of}
use fincart.Store.Schema.{OrderItem, Db}
use fincart.Store.Rows.{select_where, update_where, any_where}
use fincart.Store.Monad.{Env, ok}
use fincart.Store.Hoare.{Triple, Triple-pure, Triple->>=, Triple-statement, Triple-query}
use fincart.Product.Repository as Products
use fincart.Goods.{stock_of, item_units, held}
use fincart.Goods.Laws.{any_order, in_order, stock_of-update_where}
use fincart.Goods.Statements.{set_stock_lem, set_stock-any_where}
use fincart.Cart.Model.{Item}
use fincart.Cart.Repository
use fincart.Cart.Repository.{is_draft, is_draft_of, is_item, set_item_price}
use fincart.Cart.Checkout.{fix_prices, decrease_all}
use fincart.Cart.Quantities.{taken}

-- The units in the items of one order.
pub held-select_where :
    (id c : ℤ) (items : List OrderItem)
    → held id any_order (select_where (in_order c) items) ≡ held id (λ k. eqb_ℤ k c) items
unfolding held item_units
held-select_where id c [] = refl
held-select_where id c (i ∷ items) = elim (Bool-cases (in_order c i)) [
  | inl mine ↦ rw (mine, held-select_where id c items) (ground arith)
  | inr other ↦
      rw (other, held-select_where id c items)
        (ground (arith, +ℤ_zero_left (held id (λ k. eqb_ℤ k c) items)))
]

-- A new price moves no goods.
held_repriced :
    (id : ℤ) (t : ℤ → Bool) (p : OrderItem → Bool) (unit_price : ℤ) (items : List OrderItem)
    → held id t (update_where p (λ i. record i { unit_price = unit_price }) items) ≡ held id t items
unfolding held item_units
held_repriced id t p unit_price [] = refl
held_repriced id t p unit_price (i ∷ items) = elim (Bool-cases (p i)) [
  | inl here ↦ rw (here, held_repriced id t p unit_price items) refl
  | inr there ↦ rw (there, held_repriced id t p unit_price items) refl
]

-- The same products and orders, and the same goods in the items.
abbrev pub SameGoods : Db → Db → Type 0
SameGoods d d' =
    (d'.products ≡ d.products)
    × (d'.orders ≡ d.orders)
    × ((id : ℤ) (t : ℤ → Bool) → held id t d'.items ≡ held id t d.items)

set_item_price-SameGoods :
    (order_id product_id unit_price : ℤ) (a d d' : Db) (u : Unit {0})
    → set_item_price order_id product_id unit_price d ≡ (ok u, d')
    → SameGoods a d
    → SameGoods a d'
unfolding set_item_price
set_item_price-SameGoods order_id product_id unit_price a d d' u h same =
    let e : d' ≡ record d {
      items =
          update_where (is_item order_id product_id) (λ i. record i { unit_price = unit_price })
            d.items;
    } =
      ground arith in
    rw e (
      same.0,
      same.1,
      λ id t. held_repriced id t (is_item order_id product_id) unit_price d.items ∙ same.2 id t,
    )

pub fix_prices-SameGoods :
    (env : Env) (a : Db) (id : ℤ) (items : List Item)
    → Triple (SameGoods a) (fix_prices env id items) (λ _ d. SameGoods a d)
unfolding fix_prices Products.get_by_id_for_update Repository.update_item_price
fix_prices-SameGoods env a id [] = Triple-pure tt (λ d p. p)
fix_prices-SameGoods env a id (item ∷ items) = Triple->>= (Triple-query env _) (λ product.
    Triple->>= {Q = λ _ d. SameGoods a d}
      (Triple-statement env _
        (λ d d' u h e. set_item_price-SameGoods id item.product_id product.price a d d' u e h.0))
      (λ _. fix_prices-SameGoods env a id items))

-- What the loop over the ids leaves in the stock.
abbrev pub Leaves : ℤ → ℤ → Db → List ℤ → Db → Type 0
Leaves id n a ids d =
    (d.orders ≡ a.orders)
    × (d.items ≡ a.items)
    × (stock_of id d.products ≡ n)
    × All (λ k. any_where (λ p. eqb_ℤ p.id k) d.products ≡ true) ids

one_less :
    (id k q n rest stock : ℤ)
    → stock ≡ n +ℤ ((if eqb_ℤ k id then q else pos 0) +ℤ rest)
    → (if eqb_ℤ id k then stock -ℤ q else stock) ≡ n +ℤ rest
one_less id k q n rest stock h = elim (Bool-cases (eqb_ℤ id k)) [
  | inl same ↦
      let same' : eqb_ℤ k id ≡ true = eqb_ℤ_comm k id ∙ same in
      let h' = rw same' at h in rw same (rw h' (omega int_laws))
  | inr other ↦
      let other' : eqb_ℤ k id ≡ false = eqb_ℤ_comm k id ∙ other in
      let h' = rw other' at h in rw other (h' ∙ omega int_laws)
]

pub decrease_all-Leaves :
    (env : Env) (a : Db) (id n : ℤ) (m : Quantities) (ids : List ℤ)
    → Triple
        (Leaves id (n +ℤ taken id m ids) a ids)
        (decrease_all env m ids)
        (λ _ d. Leaves id n a [] d)
unfolding decrease_all Products.decrease_stock taken
decrease_all-Leaves env a id n m [] = Triple-pure tt (λ d p. (p.0, p.1, p.2 ∙ +ℤ_zero_right n, tt))
decrease_all-Leaves env a id n m (k ∷ ids) =
    Triple->>= {Q = λ _ d. Leaves id (n +ℤ taken id m ids) a ids d}
      (Triple-statement env _ (λ d d' u p e.
        let q = quantity_of k m in
        let written = set_stock_lem k q (λ stock. stock -ℤ q) d d' e in
        let there = set_stock-any_where k q (λ stock. stock -ℤ q) d d' e in
        (
          ap (λ (x : Db). x.orders) written ∙ p.0,
          ap (λ (x : Db). x.items) written ∙ p.1,
          ap (λ (x : Db). stock_of id x.products) written
              ∙ stock_of-update_where (λ stock. stock -ℤ q) k id d.products p.3.0
              ∙ one_less id k q n (taken id m ids) (stock_of id d.products) p.2,
          All-map (λ j. any_where (λ p. eqb_ℤ p.id j) d.products ≡ true)
              (λ j. any_where (λ p. eqb_ℤ p.id j) d'.products ≡ true) ids (λ j h. there j ∙ h)
              p.3.1,
        )))
      (λ _. decrease_all-Leaves env a id n m ids)
