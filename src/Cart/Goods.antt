-- ===== src/Cart/Goods.antt =====
-- What `Checkout` does to the units of a product.
use fincart.Prelude.{
  suc, String, true, List, [], some, ◌≡◌, refl, sym, ◌∙◌, ap, subst, arith, inl, inr,
}
use fincart.Prelude.Lists.{All, is_empty}
use fincart.Prelude.Int.{ℤ, pos, ◌-ℤ◌, eqb_ℤ, int_laws, is_nonpositive}
use fincart.Order.Status.{draft, pending}
use fincart.Order.Lifecycle.{status_eq_iff}
use fincart.Order.Pricing.{map_error-eq-ok}
use fincart.Order.Quantities.{sort_ids}
use fincart.Store.Schema.{Order, Db}
use fincart.Store.Rows.{find_where, update_where, any_where}
use fincart.Store.Rows.Laws.{All-select_where}
use fincart.Store.Rows.Keys.{Unlike}
use fincart.Store.Rows.Finding.{find_where_passes, find_where_by_key}
use fincart.Store.Monad.{
  Env, ok, Session, M, return_if, map_error, pure, ◌>>◌, cart_error, CartError, invalid_cart,
}
use fincart.Store.Hoare.{>>=-eq-ok}
use fincart.Store.Inversion.{pure-eq-ok, statement-eq-ok, return_if-eq-ok}
use fincart.Database.{within_transaction}
use fincart.Database.Atomic.{SameTables, within_transaction-atomic, within_transaction-eq-ok}
use fincart.Goods.{stock_of, held, units}
use fincart.Goods.Laws.{any_order, in_order}
use fincart.Goods.Transactions.{Result-cases, guarded}
use fincart.Cart.Model.{Cart, Item, of_row}
use fincart.Cart.Repository
use fincart.Cart.Repository.{is_draft, is_draft_of, join, set_pending}
use fincart.Cart.Service.{require_draft, on_no_rows}
use fincart.Cart.Checkout.{
  product_ids, assign_quantities, price_cart, fix_prices, decrease_all, checked_out, checkout_body,
  checkout,
}
use fincart.Cart.Totals.{rows_of, get_items-eq-ok, update_total-eq-ok}
use fincart.Cart.Pricing.{Sold, price_cart-eq-ok}
use fincart.Cart.Sale.{set_pending_lem, require_draft-eq-ok}
use fincart.Cart.Quantities.{taken, Stocked}
use fincart.Cart.Conservation.{SameGoods, fix_prices-SameGoods, decrease_all-Leaves}
use fincart.Cart.Moves.{moved, rows_in, sold_there, taken-rows_in, IsOrderly}

-- The writing half of `Checkout`, from the tables d on.
closing-units :
    (env : Env) (id c : ℤ) (o : Order) (items : List Item) (t : ℤ × String) (d : Db)
    (s s5 s6 s7 s8 : Session) (u5 u6 u7 u8 : Unit {0})
    → s.db ≡ d
    → items ≡ rows_of c d
    → find_where (λ o. eqb_ℤ o.id c) d.orders ≡ some o
    → o.status ≡ draft
    → Stocked d.products (rows_in c d)
    → Unlike (λ x y. eqb_ℤ y.product_id x.product_id) (rows_in c d)
    → All (λ k. any_where (λ p. eqb_ℤ p.id k) d.products ≡ true) (sort_ids (product_ids items))
    → fix_prices env c items s ≡ (ok u5, s5)
    → Repository.update_total env c t.0 t.1 s5 ≡ (ok u6, s6)
    → decrease_all env (assign_quantities items []) (sort_ids (product_ids items)) s6 ≡ (ok u7, s7)
    → set_pending c s7.db ≡ (ok u8, s8.db)
    → units id s8.db ≡ units id d
closing-units env id c o items t d s s5 s6 s7 s8 u5 u6 u7 u8 start listed found state stocked once
      there e5 e6 e7 e8 =
    let m = assign_quantities items [] in
    let ids = sort_ids (product_ids items) in
    let n = stock_of id d.products -ℤ taken id m ids in
    let fixed : SameGoods d s5.db =
      (fix_prices-SameGoods env d c items).holds s s5 u5
        (subst (SameGoods d) (sym start) (refl, refl, λ id t. refl)) e5 in
    let d6 = update_total-eq-ok env c t.0 t.1 s5 s6 u6 e6 in
    let same_products : s6.db.products ≡ d.products = ap (λ (x : Db). x.products) d6 ∙ fixed.0 in
    let left =
      (decrease_all-Leaves env s6.db id n m ids).holds s6 s7 u7
        (
          refl,
          refl,
          ap (stock_of id) same_products ∙ omega int_laws,
          subst (λ ps. All (λ k. any_where (λ p. eqb_ℤ p.id k) ps ≡ true) ids) (sym same_products)
              there,
        )
        e7 in
    let d8 = set_pending_lem c s7.db s8.db u8 e8 in
    let all_taken : taken id m ids ≡ held id any_order (rows_in c d) =
      ap (λ is. taken id (assign_quantities is []) (sort_ids (product_ids is))) listed
      ∙ taken-rows_in id c d stocked once in
    moved id c t.0 n t.1 o d s8.db found state (rw (← all_taken) (omega int_laws))
      (ap (λ (x : Db). stock_of id x.products) d8 ∙ left.2)
      (ap (λ (x : Db). x.orders) d8
        ∙ ap (update_where (is_draft c) (λ (r : Order). record r { status = pending })) (
            left.0
            ∙ ap (λ (x : Db). x.orders) d6
            ∙ ap
                (update_where (is_draft c)
                  (λ (r : Order). record r { total_amount = t.0; currency = t.1 }))
                fixed.1))
      (λ f.
        ap (λ (x : Db). held id f x.items) d8
        ∙ ap (held id f) (left.1 ∙ ap (λ (x : Db). x.items) d6)
        ∙ fixed.2 id f)

-- The same half as one function, which ends with the order r.
closing : Env → ℤ → List Item → ℤ × String → Order → M Order
closing env c items t r =
    fix_prices env c items
    >> (Repository.update_total env c t.0 t.1
        >> (decrease_all env (assign_quantities items []) (sort_ids (product_ids items))
            >> (map_error (on_no_rows (cart_error CartError.cart_not_found))
                  (Repository.checkout env c)
                >> pure r)))

-- What the reading half has found in the tables d.
record IsPriced (c : ℤ) (o : Order) (items : List Item) (d : Db) : Type 0 where
  listed : items ≡ rows_of c d
  found : find_where (λ o. eqb_ℤ o.id c) d.orders ≡ some o
  state : o.status ≡ draft
  stocked : Stocked d.products (rows_in c d)
  once : Unlike (λ x y. eqb_ℤ y.product_id x.product_id) (rows_in c d)
  there : All (λ k. any_where (λ p. eqb_ℤ p.id k) d.products ≡ true) (sort_ids (product_ids items))

closing_lem :
    (env : Env) (id c : ℤ) (o r r' : Order) (items : List Item) (t : ℤ × String) (d : Db)
    (s s' : Session)
    → s.db ≡ d
    → IsPriced c o items d
    → closing env c items t r s ≡ (ok r', s')
    → units id s'.db ≡ units id d
unfolding closing Repository.checkout
closing_lem env id c o r r' items t d s s' start k h4 =
    let m = assign_quantities items [] in
    let ids = sort_ids (product_ids items) in
    let (u5, s5, e5, h5) = >>=-eq-ok (fix_prices env c items) _ s s' r' h4 in
    let (u6, s6, e6, h6) = >>=-eq-ok (Repository.update_total env c t.0 t.1) _ s5 s' r' h5 in
    let (u7, s7, e7, h7) = >>=-eq-ok (decrease_all env m ids) _ s6 s' r' h6 in
    let (u8, s8, e8, h8) = >>=-eq-ok (map_error _ (Repository.checkout env c)) _ s7 s' r' h7 in
    let (_, same) = pure-eq-ok r r' s8 s' h8 in
    let (written, _) =
      statement-eq-ok env (set_pending c) s7 s8 u8 (map_error-eq-ok _ _ s7 s8 u8 e8) in
    subst (λ (x : Session). units id x.db ≡ units id d) same
      (closing-units env id c o items t d s s5 s6 s7 s8 u5 u6 u7 u8 start k.listed k.found k.state
        k.stocked k.once k.there e5 e6 e7 written)

draft-status : (user_id : ℤ) (x : Order) → is_draft_of user_id x ≡ true → x.status ≡ draft
draft-status user_id x h = ground (arith, status_eq_iff x.status draft)

-- The reading half leaves the tables alone, and finds what the other half needs.
read_lem :
    (user_id c total : ℤ) (o : Order) (items : List Item) (d : Db)
    → IsOrderly user_id d
    → find_where (is_draft_of user_id) d.orders ≡ some o
    → o.id ≡ c
    → items ≡ rows_of c d
    → Sold (assign_quantities items []) (sort_ids (product_ids items)) (pos 0) total d
    → IsPriced c o items d
read_lem user_id c total o items d orderly row ec rows (ps, names, priced_, _) = record {
  listed = rows;
  found =
      subst (λ k. find_where (λ o. eqb_ℤ o.id k) d.orders ≡ some o) ec
        (find_where_by_key (is_draft_of user_id) (λ (x : Order). x.id) d.orders o orderly.distinct
          row);
  state = draft-status user_id o (find_where_passes (is_draft_of user_id) d.orders o row);
  stocked =
      All-select_where (λ i. any_where (λ p. eqb_ℤ p.id i.product_id) d.products ≡ true)
        (in_order c) d.items orderly.stocked;
  once =
      subst (λ k. Unlike (λ x y. eqb_ℤ y.product_id x.product_id) (rows_in k d)) ec
        (orderly.once o row);
  there =
      subst (All (λ k. any_where (λ p. eqb_ℤ p.id k) d.products ≡ true)) names
        (sold_there (assign_quantities items []) d ps priced_);
}

checkout_body-units :
    (env : Env) (id user_id : ℤ) (s s' : Session) (o : Order)
    → checkout_body env user_id s ≡ (ok o, s')
    → IsOrderly user_id s.db
    → units id s'.db ≡ units id s.db
unfolding checkout_body of_row closing
checkout_body-units env id user_id s s' o h orderly =
    let (cart, s1, e1, h1) = >>=-eq-ok (require_draft env user_id) _ s s' o h in
    let (items, s2, e2, h2) = >>=-eq-ok (Repository.get_items env cart.id) _ s1 s' o h1 in
    let (_, s3, e3, h3) = >>=-eq-ok (return_if (is_empty items) _) _ s2 s' o h2 in
    let m = assign_quantities items [] in
    let ids = sort_ids (product_ids items) in
    let (t, s4, e4, h4) = >>=-eq-ok (price_cart env m ids (pos 0) "") _ s3 s' o h3 in
    let (draft_, row, ec, d1) = require_draft-eq-ok env user_id s s1 cart e1 in
    let (rows, d2) = get_items-eq-ok env cart.id s1 s2 items e2 in
    let (_, d3) = return_if-eq-ok _ _ s2 s3 _ e3 in
    let before : s3.db ≡ s.db = ap (λ (x : Session). x.db) d3 ∙ d2 ∙ d1 in
    let (found, d4) = price_cart-eq-ok env m ids (pos 0) "" t s3 s4 (omega arith) e4 in
    closing_lem env id cart.id draft_ (checked_out cart user_id t.0 t.1) o items t s.db s4 s'
      (d4 ∙ before)
      (read_lem user_id cart.id t.0 draft_ items s.db orderly row (ap (λ (x : Cart). x.id) ec)
        (sym rows ∙ ap (rows_of cart.id) d1) (subst (Sold m ids (pos 0) t.0) before found))
      h4

-- Whatever Checkout returns, the units of each product, on stock and in the orders that have taken
-- them, are as many as before, if the ids of the orders are distinct, the products of the items are
-- there, and the cart of the user has each product once.
pub checkout-units :
    (env : Env) (id user_id : ℤ) (s : Session)
    → IsOrderly user_id s.db
    → units id (checkout env user_id s).1.db ≡ units id s.db
unfolding checkout
checkout-units env id user_id s orderly =
    guarded (λ d. units id d ≡ units id s.db) (is_nonpositive user_id) (cart_error invalid_cart)
      body s refl run
  where
    body : M Order
    body = within_transaction env (checkout_body env user_id)

    same_units : SameTables s.db (body s).1.db → units id (body s).1.db ≡ units id s.db
    same_units same = unfold units in rw (same.products, same.orders, same.items)

    run : units id (body s).1.db ≡ units id s.db
    run = elim (Result-cases (body s).0) [
      | inl (o, e) ↦
          let (t, h, d, _) =
            within_transaction-eq-ok env (checkout_body env user_id) s (body s).1 o
              (λ i. (e i, (body s).1)) in
          ap (units id) d
          ∙ checkout_body-units env id user_id (record s { calls = suc s.calls }) t o h orderly
      | inr (x, e) ↦
          elim (within_transaction-atomic env (checkout_body env user_id) s (body s).1 x
            (λ i. (e i, (body s).1))) [
              | inl same ↦ same_units same
              | inr (o, t, h, d) ↦
                  ap (units id) d
                  ∙ checkout_body-units env id user_id (record s { calls = suc s.calls }) t o h
                      orderly
            ]
    ]
