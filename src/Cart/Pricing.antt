-- ===== src/Cart/Pricing.antt =====
-- The prices that `Checkout` reads: its loop over the products in the order of their ids.
use fincart.Prelude.{String, List, [], ◌∷◌, ◌≡◌, refl, sym, ap, ◌∙◌, subst, map}
use fincart.Prelude.Lists.{All}
use fincart.Prelude.Int.{
  ℤ, ◌+ℤ◌, ◌*ℤ◌, ◌≤ℤ◌, ltb_ℤ, ltb_ℤ_false, eqb_ℤ, IsInt64, wrap64, add64-IsInt64, wrap64_of_IsInt64,
  +ℤ_zero_right,
}
use fincart.Prelude.Wrap.{add64-mul64}
use fincart.Order.Quantities.{Quantities, quantity_of}
use fincart.Order.Pricing.{cost, InStock, locked_product}
use fincart.Store.Schema.{Product, Db}
use fincart.Store.Rows.{find_where}
use fincart.Store.Monad.{ok, Env, Session, return_if, map_error}
use fincart.Store.Hoare.{>>=-eq-ok}
use fincart.Store.Inversion.{pure-eq-ok, return_if-eq-ok}
use fincart.Product.Repository as Products
use fincart.Cart.Service.{own_product_error}
use fincart.Cart.Checkout.{price_cart}

-- What the pricing loop of `Checkout` has found.
abbrev pub Sold : Quantities → List ℤ → ℤ → ℤ → Db → Type 0
Sold m ids before after db =
    (ps : List Product) × (map (λ (p : Product). p.id) ps ≡ ids)
    × All (InStock m db) ps
    × (after ≡ wrap64 (before +ℤ cost m ps))

pub price_cart-eq-ok :
    (env : Env) (m : Quantities) (ids : List ℤ) (total : ℤ) (currency : String) (t : ℤ × String)
    (s s' : Session)
    → IsInt64 total
    → price_cart env m ids total currency s ≡ (ok t, s')
    → Sold m ids total t.0 s.db × (s'.db ≡ s.db)
unfolding price_cart cost
price_cart-eq-ok env m [] total currency t s s' small h =
    let (e, same) = pure-eq-ok (total, currency) t s s' h in
    (
      (
        [],
        refl,
        tt,
        ap (λ (x : ℤ × String). x.0) (sym e)
            ∙ sym (wrap64_of_IsInt64 total small)
            ∙ ap wrap64 (sym (+ℤ_zero_right total)),
      ),
      ap (λ (x : Session). x.db) (sym same),
    )
price_cart-eq-ok env m (id ∷ ids) total currency t s s' small h =
    let (p, s1, e1, h1) =
      >>=-eq-ok (map_error own_product_error (Products.get_by_id_for_update env id)) _ s s' t h in
    let (_, s2, e2, h2) = >>=-eq-ok (return_if (ltb_ℤ p.stock (quantity_of id m)) _) _ s1 s' t h1 in
    let (_, s3, e3, h3) = >>=-eq-ok (return_if _ _) _ s2 s' t h2 in
    let (row, key, d1) = locked_product own_product_error env id s s1 p e1 in
    let (enough, d2) = return_if-eq-ok _ _ s1 s2 _ e2 in
    let (_, d3) = return_if-eq-ok _ _ s2 s3 _ e3 in
    let d = ap (λ (x : Session). x.db) (d3 ∙ d2) ∙ d1 in
    let ((ps, names, stocked, sum), same) =
      price_cart-eq-ok env m ids _ _ t s3 s' (add64-IsInt64 _ _) h3 in
    let plenty : quantity_of p.id m ≤ℤ p.stock =
      subst (λ k. quantity_of k m ≤ℤ p.stock) (sym key)
        (ltb_ℤ_false p.stock (quantity_of id m) enough) in
    (
      (
        p ∷ ps,
        (λ i. key i ∷ names i),
        (
          (ap (λ k. find_where (λ x. eqb_ℤ x.id k) s.db.products) key ∙ row, plenty),
          subst (λ x. All (InStock m x) ps) d stocked,
        ),
        sum
            ∙ add64-mul64 total p.price (quantity_of id m) (cost m ps)
            ∙ ap (λ k. wrap64 (total +ℤ (p.price *ℤ quantity_of k m +ℤ cost m ps))) (sym key),
      ),
      same ∙ d,
    )
