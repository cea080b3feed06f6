-- ===== src/Cart/Moves.antt =====
-- How a sale moves the units of a product from the stock to the order.
use fincart.Prelude.{
  String, Bool, true, false, List, [], ◌∷◌, some, ◌≡◌, refl, sym, ◌∙◌, ap, arith, map,
}
use fincart.Prelude.Lists.{All}
use fincart.Prelude.Int.{ℤ, ◌+ℤ◌, eqb_ℤ, eqb_ℤ_iff, int_laws}
use fincart.Order.Status.{draft, pending}
use fincart.Order.Lifecycle.{status_eq_iff}
use fincart.Order.Pricing.{InStock}
use fincart.Order.Quantities.{Quantities, sort_ids}
use fincart.Store.Schema.{Product, Order, OrderItem, Db}
use fincart.Store.Rows.{find_where, select_where, update_where, any_where}
use fincart.Store.Rows.Laws.{find_where_updated}
use fincart.Store.Rows.Keys.{Unlike}
use fincart.Store.Rows.Finding.{find_where_passes, find_where_untouched, any_of_find_where}
use fincart.Goods.{takes_stock, is_taken, stock_of, held, units}
use fincart.Goods.Laws.{any_order, in_order, held_release}
use fincart.Goods.Statuses.{is_taken_found}
use fincart.Cart.Repository.{is_draft, is_draft_of}
use fincart.Cart.Checkout.{product_ids, assign_quantities}
use fincart.Cart.Totals.{rows_of}
use fincart.Cart.Quantities.{taken, Stocked, taken-asked, asked-join, join-OncePerProduct}

-- The statuses after the two updates of the orders that `Checkout` makes.
module _ (c total : ℤ) (currency : String) (orders : List Order) where
  abbrev pub priced : Order → Order
  priced o = record o { total_amount = total; currency = currency }

  abbrev pub closed : Order → Order
  closed o = record o { status = pending }

  abbrev pub sold : List Order
  sold = update_where (is_draft c) closed (update_where (is_draft c) priced orders)

  sold-taken :
      (o : Order)
      → find_where (λ o. eqb_ℤ o.id c) orders ≡ some o
      → o.status ≡ draft
      → is_taken sold c ≡ true
  unfolding is_taken takes_stock
  sold-taken o found state =
      let here : is_draft c o ≡ true = ground (
        arith,
        find_where_passes (λ o. eqb_ℤ o.id c) orders o found,
        status_eq_iff o.status draft,
      ) in
      let first =
        find_where_updated (λ o. eqb_ℤ o.id c) (is_draft c) priced orders o (λ y. refl) found in
      let first' : find_where (λ o. eqb_ℤ o.id c) (update_where (is_draft c) priced orders)
          ≡ some (priced o) =
        rw here at first in
      let second =
        find_where_updated (λ o. eqb_ℤ o.id c) (is_draft c) closed
          (update_where (is_draft c) priced orders) (priced o) (λ y. refl) first' in
      let second' : find_where (λ o. eqb_ℤ o.id c) sold ≡ some (closed (priced o)) =
        rw here at second in
      is_taken_found sold c (closed (priced o)) second'

  sold-others : (k : ℤ) → eqb_ℤ k c ≡ false → is_taken sold k ≡ is_taken orders k
  unfolding is_taken
  sold-others k other =
      let apart : (o : Order) → eqb_ℤ o.id k ≡ true → is_draft c o ≡ false =
        λ o h. ground (arith, eqb_ℤ_iff o.id k, h, other) in
      let same =
        find_where_untouched (λ o. eqb_ℤ o.id k) (is_draft c) closed
          (update_where (is_draft c) priced orders) apart (λ y. refl)
        ∙ find_where_untouched (λ o. eqb_ℤ o.id k) (is_draft c) priced orders apart (λ y. refl) in
      rw (same, is_taken)

draft_untaken :
    (c : ℤ) (orders : List Order) (o : Order)
    → find_where (λ o. eqb_ℤ o.id c) orders ≡ some o
    → o.status ≡ draft
    → is_taken orders c ≡ false
unfolding is_taken takes_stock
draft_untaken c orders o found state = is_taken_found orders c o found ∙ ap takes_stock state

-- The order holds what the stock has lost.
pub moved :
    (id c total n : ℤ) (currency : String) (o : Order) (d d' : Db)
    → find_where (λ o. eqb_ℤ o.id c) d.orders ≡ some o
    → o.status ≡ draft
    → stock_of id d.products ≡ n +ℤ held id any_order (select_where (in_order c) d.items)
    → stock_of id d'.products ≡ n
    → d'.orders ≡ sold c total currency d.orders
    → ((t : ℤ → Bool) → held id t d'.items ≡ held id t d.items)
    → units id d' ≡ units id d
unfolding units
moved id c total n currency o d d' found state before after orders items =
    let t = is_taken d.orders in
    let t' = is_taken (sold c total currency d.orders) in
    let taken_over =
      held_release id c t' t d.items (sold-taken c total currency d.orders o found state)
        (draft_untaken c d.orders o found state)
        (λ k other. sym (sold-others c total currency d.orders k other)) in
    rw (after, orders, items t', taken_over, before) (omega int_laws)

-- The items of the draft, as the join gives them.
abbrev pub rows_in : ℤ → Db → List OrderItem
rows_in id d = select_where (in_order id) d.items

-- The ids that were priced are those of products that are there.
pub sold_there :
    (m : Quantities) (d : Db) (ps : List Product)
    → All (InStock m d) ps
    → All (λ k. any_where (λ p. eqb_ℤ p.id k) d.products ≡ true) (map (λ (p : Product). p.id) ps)
sold_there m d [] h = tt
sold_there m d (p ∷ ps) h =
    (any_of_find_where (λ (x : Product). eqb_ℤ x.id p.id) d.products p h.0.0, sold_there m d ps h.1)

-- With each product once, the loop takes from the stock what the items hold.
pub taken-rows_in :
    (id c : ℤ) (d : Db)
    → Stocked d.products (rows_in c d)
    → Unlike (λ x y. eqb_ℤ y.product_id x.product_id) (rows_in c d)
    → let items = rows_of c d in
      taken id (assign_quantities items []) (sort_ids (product_ids items))
      ≡ held id any_order (rows_in c d)
taken-rows_in id c d stocked once =
    taken-asked id (rows_of c d) (join-OncePerProduct d.products (rows_in c d) stocked once)
    ∙ asked-join id d.products (rows_in c d) stocked

-- What the theorem asks of the tables: ids of one's own, items whose products are there, and each
-- product once in the user's cart.
pub record IsOrderly (user_id : ℤ) (d : Db) : Type 0 where
  pub distinct : Unlike (λ x y. eqb_ℤ x.id y.id) d.orders
  pub stocked : Stocked d.products d.items
  pub once :
      (o : Order)
      → find_where (is_draft_of user_id) d.orders ≡ some o
      → Unlike (λ x y. eqb_ℤ y.product_id x.product_id) (rows_in o.id d)
