-- ===== src/Product/Catalog.antt =====
-- What every product of the shop looks like, whatever the administrators ask for.
use fincart.Prelude.{suc, [], ◌∷◌, ◌≡◌, refl, sym, ap, subst, Bool, true, false, inl, inr}
use fincart.Prelude.Tests.{if◌then◌else◌}
use fincart.Prelude.Lists.{All, All-append}
use fincart.Prelude.Int.{ℤ, pos, is_nonpositive}
use fincart.Prelude.Texts.{Letters}
use fincart.Store.Schema.{Product, Db}
use fincart.Store.Rows.{find_where}
use fincart.Store.Rows.Keys.{All-delete_where}
use fincart.Store.Rows.Laws.{All-update_where}
use fincart.Store.Monad.{Error, Result, ok, err, Env, Session, M, fail, statement}
use fincart.Store.Hoare.{
  Triple, Triple-pure, Triple->>=, Triple-statement, Triple-query, Triple-weaken,
}
use fincart.Database.{within_transaction}
use fincart.Database.Atomic.{within_transaction-atomic, Triple-within_transaction}
use fincart.Product.Repository as Repository
use fincart.Product.Repository.{insert_product, found, has_id, with_columns, blank_padded}
use fincart.Store.Insert.{fits_currency}
use fincart.Product.Service.{
  ProductRequest, requested, is_refused, create_product, update_body, update_product,
  delete_product,
}
use fincart.Product.Listing.{
  IsListed, IsCatalog, requested-IsListed, stored, insert_product_lem, insert_product_fits,
  update_product_lem, update_product_fits, delete_product_lem,
}

-- A statement that succeeds leaves what its lemma says.
statement_keeps :
    {A : Type 0} (env : Env) (f : Db → Result A × Db)
    → ((d : Db) (a : A) → IsCatalog d → (f d).0 ≡ ok a → IsCatalog (f d).1)
    → Triple IsCatalog (statement env f) (λ a. IsCatalog)
statement_keeps env f h = Triple-statement env f (λ d d' a p e.
    subst IsCatalog (ap (λ (x : Result _ × Db). x.1) e)
      (h d a p (ap (λ (x : Result _ × Db). x.0) e)))

create-keeps :
    (env : Env) (row : Product)
    → (fits_currency row.currency ≡ true → IsListed (with_columns row))
    → Triple IsCatalog (Repository.create env row) (λ p. IsCatalog)
unfolding Repository.create
create-keeps env row fit = statement_keeps env (insert_product row) (λ d p h e.
    subst IsCatalog (sym (insert_product_lem row d p e)) (
      All-append IsListed d.products (stored row d ∷ []) h
        (fit (insert_product_fits row d p e), tt)))

update-keeps :
    (env : Env) (row : Product)
    → (fits_currency row.currency ≡ true → IsListed (with_columns row))
    → Triple IsCatalog (Repository.update env row) (λ u. IsCatalog)
unfolding Repository.update
update-keeps env row fit = statement_keeps env (Repository.update_product row) (λ d u h e.
    subst IsCatalog (sym (update_product_lem row d u e)) (
      All-update_where (λ (p : Product). p.id) IsListed (λ p. with_columns row) (has_id row.id)
        d.products (λ p q. fit (update_product_fits row d u e)) h))

delete-keeps : (env : Env) (id : ℤ) → Triple IsCatalog (Repository.delete env id) (λ u. IsCatalog)
unfolding Repository.delete
delete-keeps env id = statement_keeps env (Repository.delete_product id) (λ d u h e.
    subst IsCatalog (sym (delete_product_lem id d u e))
      (All-delete_where IsListed (has_id id) d.products h))

update_body-keeps :
    (env : Env) (id : ℤ) (p : Product)
    → (fits_currency p.currency ≡ true → IsListed (with_columns p))
    → Triple IsCatalog (update_body env id p) (λ u. IsCatalog)
unfolding update_body Repository.get_by_id_for_update with_columns
update_body-keeps env id p fit =
    Triple->>=
      (Triple-weaken (λ d h. h) (λ a d h. h.0)
        (Triple-query env (λ d. found (find_where (has_id id) d.products))))
      (λ current.
        Triple->>= (update-keeps env (record p { id = current.id }) fit)
          (λ u. Triple-pure (record p { id = current.id }) (λ d h. h)))

-- Whether a transaction returns or fails, the catalog is as sound as before.
after_transaction :
    {A : Type 0} (env : Env) (body : M A) (s t : Session) (r : Result A)
    → Triple IsCatalog body (λ a. IsCatalog)
    → IsCatalog s.db
    → within_transaction env body s ≡ (r, t)
    → IsCatalog t.db
after_transaction env body s t (ok a) keeps h e =
    (Triple-within_transaction env keeps).holds s t a h e
after_transaction env body s t (err x) keeps h e =
    elim (within_transaction-atomic env body s t x e) [
      | inl same ↦ subst (All IsListed) (sym same.products) h
      | inr (a, u, went, d) ↦
          subst IsCatalog (sym d) (keeps.holds (record s { calls = suc s.calls }) u a h went)
    ]

guarded :
    {A : Type 0} (c : Bool) (e : Error) (m : M A) (s : Session)
    → IsCatalog s.db
    → (c ≡ false → IsCatalog (m s).1.db)
    → IsCatalog ((if c then fail e else m) s).1.db
unfolding fail
guarded true e m s h go = h
guarded false e m s h go = go refl

-- What an administrator can ask of the products.
pub data ProductCall : Type 0 where
  create : ProductRequest → ProductCall
  update : ℤ → ProductRequest → ProductCall
  delete : ℤ → ProductCall

unfoldable pub run : Env → Letters → ProductCall → Session → Session
run env letters (ProductCall.create request) s = (create_product env letters request s).1
run env letters (ProductCall.update id request) s = (update_product env letters id request s).1
run env letters (ProductCall.delete id) s = (delete_product env id s).1

-- Creating, updating or deleting a product, with any request and any failure of the connection,
-- leaves every product with a name of 1 to 255 bytes, a price and a stock that are not negative, a
-- currency of three characters (a text of three bytes, filled up with spaces) and a trimmed name and
-- description, if every product was so before.
pub run-IsCatalog :
    (env : Env) (letters : Letters) (call : ProductCall) (s : Session)
    → IsCatalog s.db
    → IsCatalog (run env letters call s).db
unfolding run create_product update_product delete_product
run-IsCatalog env letters (ProductCall.create request) s h =
    let row = requested letters (pos 0) request in
    guarded (is_refused row) _ (within_transaction env (Repository.create env row)) s h (λ fit.
      after_transaction env (Repository.create env row) s _ _
        (create-keeps env row (requested-IsListed letters (pos 0) request fit)) h refl)
run-IsCatalog env letters (ProductCall.update id request) s h =
    let row = requested letters id request in
    guarded (is_nonpositive id) _ _ s h (λ good.
      guarded (is_refused row) _ (within_transaction env (update_body env id row)) s h (λ fit.
        after_transaction env (update_body env id row) s _ _
          (update_body-keeps env id row (requested-IsListed letters id request fit)) h refl))
run-IsCatalog env letters (ProductCall.delete id) s h =
    guarded (is_nonpositive id) _ (within_transaction env (Repository.delete env id)) s h
      (λ good. after_transaction env (Repository.delete env id) s _ _ (delete-keeps env id) h refl)
