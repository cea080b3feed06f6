-- ===== src/Cart/Sale.antt =====
-- The order that `Checkout` makes of a draft.
use fincart.Prelude.{
  List, [], ◌∷◌, ◌≡◌, refl, sym, ap, ◌∙◌, subst, Option, some, none, suc, true, false, arith,
}
use fincart.Prelude.Lists.{is_empty}
use fincart.Prelude.Int.{ℤ, pos, ◌-ℤ◌, eqb_ℤ, is_nonpositive}
use fincart.Order.Status.{pending}
use fincart.Order.Quantities.{Quantities, quantity_of, sort_ids}
use fincart.Order.Pricing.{map_error-eq-ok}
use fincart.Store.Schema.{Order, Db}
use fincart.Store.Rows.{find_where, update_where}
use fincart.Store.Monad.{ok, Env, Session, M, return_if, map_error}
use fincart.Store.Hoare.{>>=-eq-ok, Triple, Triple-pure, Triple->>=, Triple-statement, Triple-query}
use fincart.Store.Inversion.{pure-eq-ok, query-eq-ok, statement-eq-ok, return_if-eq-ok, guard-eq-ok}
use fincart.Database.{within_transaction}
use fincart.Database.Atomic.{within_transaction-eq-ok}
use fincart.Product.Repository as Products
use fincart.Goods.Statements.{set_stock_lem}
use fincart.Cart.Model.{Cart, Item, of_row, zero_cart}
use fincart.Cart.Repository
use fincart.Cart.Repository.{is_draft, is_draft_of, draft_or_zero, set_item_price, set_pending}
use fincart.Cart.Service.{require_draft}
use fincart.Cart.Checkout.{
  product_ids, assign_quantities, price_cart, fix_prices, decrease_all, checked_out, checkout_body,
  checkout,
}
use fincart.Cart.Totals.{rows_of, with_total, get_items-eq-ok, update_total-eq-ok}
use fincart.Cart.Pricing.{Sold, price_cart-eq-ok}

-- The loops that follow write no order.
abbrev KeepsOrders : {A : Type 0} → List Order → M A → Type 0
KeepsOrders os m = Triple (λ d. d.orders ≡ os) m (λ _ d. d.orders ≡ os)

fix_prices-orders :
    (env : Env) (id : ℤ) (os : List Order) (items : List Item)
    → KeepsOrders os (fix_prices env id items)
unfolding fix_prices Products.get_by_id_for_update Repository.update_item_price set_item_price
fix_prices-orders env id os [] = Triple-pure tt (λ d p. p)
fix_prices-orders env id os (item ∷ items) = Triple->>= (Triple-query env _) (λ product.
    Triple->>= {Q = λ _ d. d.orders ≡ os} (Triple-statement env _ (λ d d' u h e. ground arith))
      (λ _. fix_prices-orders env id os items))

decrease_all-orders :
    (env : Env) (m : Quantities) (os : List Order) (ids : List ℤ)
    → KeepsOrders os (decrease_all env m ids)
unfolding decrease_all Products.decrease_stock
decrease_all-orders env m os [] = Triple-pure tt (λ d p. p)
decrease_all-orders env m os (id ∷ ids) =
    Triple->>= {Q = λ _ d. d.orders ≡ os}
      (Triple-statement env _ (λ d d' u h e.
        ap (λ (x : Db). x.orders)
          (set_stock_lem id (quantity_of id m) (λ stock. stock -ℤ quantity_of id m) d d' e)
        ∙ h))
      (λ _. decrease_all-orders env m os ids)

drafted :
    (r : Option Order) (c : Cart)
    → draft_or_zero r ≡ ok c
    → eqb_ℤ c.id (pos 0) ≡ false
    → (o : Order) × (r ≡ some o) × (of_row o ≡ c)
unfolding draft_or_zero zero_cart eqb_ℤ
drafted none c h n =
    let e : zero_cart ≡ c = cc in
    let zero : true ≡ false = ap (λ (x : Cart). eqb_ℤ x.id (pos 0)) e ∙ n in cc
drafted (some o) c h n = (o, refl, cc)

pub require_draft-eq-ok :
    (env : Env) (user_id : ℤ) (s s' : Session) (c : Cart)
    → require_draft env user_id s ≡ (ok c, s')
    → (o : Order) × (find_where (is_draft_of user_id) s.db.orders ≡ some o)
      × (of_row o ≡ c)
      × (s'.db ≡ s.db)
unfolding require_draft Repository.get_draft
require_draft-eq-ok env user_id s s' c h =
    let (cart, s1, e1, h1) = >>=-eq-ok (Repository.get_draft env user_id) _ s s' c h in
    let (_, s2, e2, h2) = >>=-eq-ok (return_if (eqb_ℤ cart.id (pos 0)) _) _ s1 s' c h1 in
    let (ec, d3) = pure-eq-ok cart c s2 s' h2 in
    let (there, d2) = return_if-eq-ok _ _ s1 s2 _ e2 in
    let (answer, d1, _) =
      query-eq-ok env (λ d. draft_or_zero (find_where (is_draft_of user_id) d.orders)) s s1 cart
        e1 in
    let (o, row, eo) = drafted _ cart answer there in
    (o, row, eo ∙ ec, ap (λ (x : Session). x.db) (sym d3 ∙ d2) ∙ d1)

-- The draft, now pending.
abbrev pub with_pending : ℤ → Db → Db
with_pending id db = record db {
  orders = update_where (is_draft id) (λ o. record o { status = pending }) db.orders;
}

pub set_pending_lem :
    (id : ℤ) (d d' : Db) (u : Unit {0}) → set_pending id d ≡ (ok u, d') → d' ≡ with_pending id d
unfolding set_pending
set_pending_lem id d d' u h = ground arith

-- The order that comes of a draft, the tables before and the orders after.
abbrev pub IsSale : ℤ → Order → Db → Order → Db → Type 0
IsSale user_id draft db o db' =
    let items = rows_of draft.id db in
    let m = assign_quantities items [] in
    (o ≡ record draft {
      user_id = user_id;
      status = pending;
      total_amount = o.total_amount;
      currency = o.currency;
    })
    × (is_empty items ≡ false)
    × Sold m (sort_ids (product_ids items)) (pos 0) o.total_amount db
    × (db'.orders ≡ (with_pending o.id (with_total o.id o.total_amount o.currency db)).orders)

checkout_body-eq-ok :
    (env : Env) (user_id : ℤ) (s s' : Session) (o : Order)
    → checkout_body env user_id s ≡ (ok o, s')
    → (draft : Order) × (find_where (is_draft_of user_id) s.db.orders ≡ some draft)
      × IsSale user_id draft s.db o s'.db
unfolding checkout_body Repository.checkout of_row checked_out
checkout_body-eq-ok env user_id s s' o h =
    let (cart, s1, e1, h1) = >>=-eq-ok (require_draft env user_id) _ s s' o h in
    let (items, s2, e2, h2) = >>=-eq-ok (Repository.get_items env cart.id) _ s1 s' o h1 in
    let (_, s3, e3, h3) = >>=-eq-ok (return_if (is_empty items) _) _ s2 s' o h2 in
    let m = assign_quantities items [] in
    let ids = sort_ids (product_ids items) in
    let (t, s4, e4, h4) = >>=-eq-ok (price_cart env m ids (pos 0) "") _ s3 s' o h3 in
    let (u5, s5, e5, h5) = >>=-eq-ok (fix_prices env cart.id items) _ s4 s' o h4 in
    let (u6, s6, e6, h6) = >>=-eq-ok (Repository.update_total env cart.id t.0 t.1) _ s5 s' o h5 in
    let (u7, s7, e7, h7) = >>=-eq-ok (decrease_all env m ids) _ s6 s' o h6 in
    let (u8, s8, e8, h8) = >>=-eq-ok (map_error _ (Repository.checkout env cart.id)) _ s7 s' o h7 in
    let (eo, same) = pure-eq-ok (checked_out cart user_id t.0 t.1) o s8 s' h8 in
    let (draft, row, ec, d1) = require_draft-eq-ok env user_id s s1 cart e1 in
    let (rows, d2) = get_items-eq-ok env cart.id s1 s2 items e2 in
    let (filled, d3) = return_if-eq-ok _ _ s2 s3 _ e3 in
    let before : s3.db ≡ s.db = ap (λ (x : Session). x.db) d3 ∙ d2 ∙ d1 in
    let (sold, d4) = price_cart-eq-ok env m ids (pos 0) "" t s3 s4 (omega arith) e4 in
    let d5 = (fix_prices-orders env cart.id s4.db.orders items).holds s4 s5 u5 refl e5 in
    let d6 = update_total-eq-ok env cart.id t.0 t.1 s5 s6 u6 e6 in
    let d7 = (decrease_all-orders env m s6.db.orders ids).holds s6 s7 u7 refl e7 in
    let (written, _) =
      statement-eq-ok env (set_pending cart.id) s7 s8 u8 (map_error-eq-ok _ _ s7 s8 u8 e8) in
    let d8 = set_pending_lem cart.id s7.db s8.db u8 written in
    let listed : rows_of draft.id s.db ≡ items = (λ i. rows_of (ec i).id (sym d1 i)) ∙ rows in
    let pend = update_where (is_draft cart.id) (λ (r : Order). record r { status = pending }) in
    let total =
      update_where (is_draft cart.id)
        (λ (r : Order). record r { total_amount = t.0; currency = t.1 }) in
    (
      draft,
      row,
      subst (λ x. IsSale user_id draft s.db x s'.db) eo
          (
            (λ i. checked_out (sym ec i) user_id t.0 t.1),
            ap is_empty listed ∙ filled,
            subst (λ x. Sold (assign_quantities x []) (sort_ids (product_ids x)) (pos 0) t.0 s.db)
                (sym listed) (subst (Sold m ids (pos 0) t.0) before sold),
            ap (λ (x : Session). x.db.orders) (sym same)
                ∙ ap (λ (x : Db). x.orders) d8
                ∙ ap pend (d7 ∙ ap (λ (x : Db). x.orders) d6)
                ∙ ap (λ os. pend (total os)) (d5 ∙ ap (λ (x : Db). x.orders) (d4 ∙ before)),
          ),
    )

-- Checkout returns without error only an order made of the user's draft: same id, now pending, and
-- so in the table of orders. The draft had items; each product was there, with at least the quantity
-- in the cart; and the total amount is the price that the products have now, cut to 64 bits.
pub checkout_lem :
    (env : Env) (user_id : ℤ) (s s' : Session) (o : Order)
    → checkout env user_id s ≡ (ok o, s')
    → (draft : Order) × (find_where (is_draft_of user_id) s.db.orders ≡ some draft)
      × IsSale user_id draft s.db o s'.db
unfolding checkout
checkout_lem env user_id s s' o h =
    let (_, h0) =
      guard-eq-ok (is_nonpositive user_id) _ (within_transaction env (checkout_body env user_id)) s
        s' o h in
    let (t, e, d, _) = within_transaction-eq-ok env (checkout_body env user_id) s s' o h0 in
    let (draft, row, sale) =
      checkout_body-eq-ok env user_id (record s { calls = suc s.calls }) t o e in
    (draft, row, subst (IsSale user_id draft s.db o) (sym d) sale)
