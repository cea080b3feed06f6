-- ===== src/Order/Pricing.antt =====
-- The prices that `CreateOrder` reads: the loop over the products in the order of their ids.
use fincart.Prelude.{List, [], ◌∷◌, ◌≡◌, refl, sym, ap, ◌∙◌, subst, Option, some, none, arith, map}
use fincart.Prelude.Lists.{All}
use fincart.Prelude.Int.{
  ℤ, pos, ◌+ℤ◌, ◌*ℤ◌, ◌≤ℤ◌, ltb_ℤ, ltb_ℤ_false, eqb_ℤ, IsInt64, wrap64, add64-IsInt64,
  wrap64_of_IsInt64, +ℤ_zero_right,
}
use fincart.Prelude.Wrap.{add64-mul64}
use fincart.Store.Schema.{Product, Db}
use fincart.Store.Rows.{find_where}
use fincart.Store.Rows.Laws.{find_where-key}
use fincart.Store.Monad.{Error, ok, Env, Session, M, return_if, map_error}
use fincart.Store.Hoare.{>>=-eq-ok}
use fincart.Store.Inversion.{pure-eq-ok, query-eq-ok, return_if-eq-ok}
use fincart.Product.Repository as Products
use fincart.Order.Quantities.{Quantities, quantity_of}
use fincart.Order.Service.{Priced, own_product_error, price_products}

-- The exact price of the products in the quantities asked for.
unfoldable pub cost : Quantities → List Product → ℤ
cost m [] = pos 0
cost m (p ∷ ps) = p.price *ℤ quantity_of p.id m +ℤ cost m ps

-- The product is the row with its id, and there is enough of it.
abbrev pub InStock : Quantities → Db → Product → Type 0
InStock m db p =
    (find_where (λ x. eqb_ℤ x.id p.id) db.products ≡ some p) × (quantity_of p.id m ≤ℤ p.stock)

found_lem : (r : Option Product) (p : Product) → Products.found r ≡ ok p → r ≡ some p
unfolding Products.found
found_lem none p h = cc
found_lem (some x) p h = cc

pub map_error-eq-ok :
    {A : Type 0} (g : Error → Error) (m : M A) (s s' : Session) (p : A)
    → map_error g m s ≡ (ok p, s')
    → m s ≡ (ok p, s')
unfolding map_error
map_error-eq-ok g m s s' p h = ground arith

pub locked_product :
    (g : Error → Error) (env : Env) (id : ℤ) (s s' : Session) (p : Product)
    → map_error g (Products.get_by_id_for_update env id) s ≡ (ok p, s')
    → (find_where (λ x. eqb_ℤ x.id id) s.db.products ≡ some p) × (p.id ≡ id) × (s'.db ≡ s.db)
unfolding Products.get_by_id_for_update
locked_product g env id s s' p h =
    let (answer, same, _) =
      query-eq-ok env (λ d. Products.found (find_where (λ x. eqb_ℤ x.id id) d.products)) s s' p
        (map_error-eq-ok g _ s s' p h) in
    let row = found_lem _ p answer in
    (row, find_where-key (λ (x : Product). x.id) id s.db.products p row, same)

-- What the pricing loop has added to its variables.
abbrev pub Adds : Quantities → List ℤ → Db → Priced → Priced → Type 0
Adds m ids db before after =
    (ps : List Product) × (map (λ (p : Product). p.id) ps ≡ ids)
    × All (InStock m db) ps
    × (after.total_amount ≡ wrap64 (before.total_amount +ℤ cost m ps))

pub price_products-eq-ok :
    (env : Env) (m : Quantities) (ids : List ℤ) (acc priced : Priced) (s s' : Session)
    → IsInt64 acc.total_amount
    → price_products env m ids acc s ≡ (ok priced, s')
    → Adds m ids s.db acc priced × (s'.db ≡ s.db)
unfolding price_products cost
price_products-eq-ok env m [] acc priced s s' small h =
    let (e, same) = pure-eq-ok acc priced s s' h in
    (
      (
        [],
        refl,
        tt,
        ap (λ (x : Priced). x.total_amount) (sym e)
            ∙ sym (wrap64_of_IsInt64 acc.total_amount small)
            ∙ ap wrap64 (sym (+ℤ_zero_right acc.total_amount)),
      ),
      ap (λ (x : Session). x.db) (sym same),
    )
price_products-eq-ok env m (id ∷ ids) acc priced s s' small h =
    let (p, s1, e1, h1) =
      >>=-eq-ok (map_error own_product_error (Products.get_by_id_for_update env id)) _ s s' priced
        h in
    let (_, s2, e2, h2) =
      >>=-eq-ok (return_if (ltb_ℤ p.stock (quantity_of id m)) _) _ s1 s' priced h1 in
    let (_, s3, e3, h3) = >>=-eq-ok (return_if _ _) _ s2 s' priced h2 in
    let (row, key, d1) = locked_product own_product_error env id s s1 p e1 in
    let (enough, d2) = return_if-eq-ok _ _ s1 s2 _ e2 in
    let (_, d3) = return_if-eq-ok _ _ s2 s3 _ e3 in
    let d = ap (λ (x : Session). x.db) (d3 ∙ d2) ∙ d1 in
    let ((ps, names, stocked, total), same) =
      price_products-eq-ok env m ids _ priced s3 s' (add64-IsInt64 _ _) h3 in
    let plenty : quantity_of p.id m ≤ℤ p.stock =
      subst (λ k. quantity_of k m ≤ℤ p.stock) (sym key)
        (ltb_ℤ_false p.stock (quantity_of id m) enough) in
    (
      (
        p ∷ ps,
        (λ i. key i ∷ names i),
        (
          (ap (λ k. find_where (λ x. eqb_ℤ x.id k) s.db.products) key ∙ row, plenty),
          subst (λ x. All (InStock m x) ps) d stocked,
        ),
        total
            ∙ add64-mul64 acc.total_amount p.price (quantity_of id m) (cost m ps)
            ∙ ap (λ k. wrap64 (acc.total_amount +ℤ (p.price *ℤ quantity_of k m +ℤ cost m ps)))
                (sym key),
      ),
      same ∙ d,
    )
