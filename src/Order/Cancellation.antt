-- ===== src/Order/Cancellation.antt =====
-- Cancelling gives back to the stock what the order's items hold.
use fincart.Prelude.{true, some, List, [], ◌∷◌, ◌≡◌, refl, sym, ◌∙◌, inl, inr, ap}
use fincart.Prelude.Tests.{true_of_not, if◌then◌else◌, Bool-cases}
use fincart.Prelude.Lists.{All, All-map}
use fincart.Prelude.Int.{ℤ, pos, ◌+ℤ◌, eqb_ℤ, eqb_ℤ_iff, +ℤ_cancel_right, int_laws}
use fincart.Order.Status.{pending, cancelled}
use fincart.Order.Lifecycle.{status_eq_iff}
use fincart.Store.Schema.{Order, OrderItem, Db}
use fincart.Store.Rows.{find_where, select_where, any_where}
use fincart.Store.Rows.Laws.{All-select_where}
use fincart.Store.Monad.{Result, ok, Env}
use fincart.Store.Hoare.{
  Triple, Triple-pure, Triple->>=, Triple-weaken, Triple-frame, Triple-statement, Triple-query,
  Triple-return_if,
}
use fincart.Product.Repository as Products
use fincart.Order.Repository
use fincart.Order.Payments.{found_lem}
use fincart.Order.Service.{return_stock, own_pending, cancel_body}
use fincart.Goods.{takes_stock, is_taken, stock_of, item_units, held, units, HasUnits}
use fincart.Goods.Laws.{any_order, in_order}
use fincart.Goods.Statements.{set_stock-units, set_stock-any_where}
use fincart.Goods.Statuses.{set_status-IsSound, set_status-release}
use fincart.Order.Conservation.{item_units_any}

-- The row that a query for one order returned.
abbrev pub Finds : ℤ → Order → Db → Type 0
Finds order_id o db = find_where (λ o. eqb_ℤ o.id order_id) db.orders ≡ some o

pub get_by_id_for_update-Finds :
    {P : Db → Type 0} (env : Env) (id : ℤ)
    → Triple P (Repository.get_by_id_for_update env id) (λ o d. P d × Finds id o d)
unfolding Repository.get_by_id_for_update
get_by_id_for_update-Finds env id =
    Triple-weaken (λ d p. p)
      (λ o d q. (q.0, found_lem (find_where (λ o. eqb_ℤ o.id id) d.orders) o q.1))
      (Triple-query env _)

-- The order is the user's own, and pending.
pub own_pending_lem :
    {P : Db → Type 0} (env : Env) (user_id order_id : ℤ)
    → Triple P
        (own_pending env user_id order_id)
        (λ o d. P d × Finds order_id o d × (o.user_id ≡ user_id) × (o.status ≡ pending))
unfolding own_pending
own_pending_lem {P} env user_id order_id =
    Triple->>= (get_by_id_for_update-Finds env order_id) (λ o.
      Triple->>= {Q = λ _ d. P d × Finds order_id o d × (o.user_id ≡ user_id)}
        (Triple-return_if _
          (λ d q c. (q.0, q.1, (eqb_ℤ_iff o.user_id user_id).0 (true_of_not _ c))))
        (λ _.
          Triple->>=
            {Q = λ _ d. P d × Finds order_id o d × (o.user_id ≡ user_id) × (o.status ≡ pending)}
            (Triple-return_if _
              (λ d q c. (q.0, q.1, q.2, (status_eq_iff o.status pending).0 (true_of_not _ c))))
            (λ _. Triple-pure o (λ d q. q))))

-- The products of the items are in the table.
abbrev Stocked : List OrderItem → Db → Type 0
Stocked items db = All (λ i. any_where (λ p. eqb_ℤ p.id i.product_id) db.products ≡ true) items

module _ (id order_id : ℤ) (o : Order) (items : List OrderItem) (env : Env) where
  -- The order and its items, and the units of the product so far.
  abbrev Returning : ℤ → List OrderItem → Db → Type 0
  Returning n rest db =
      HasUnits id n db
      × Finds order_id o db
      × (items ≡ select_where (in_order order_id) db.items)
      × Stocked rest db

  given_back :
      (target quantity : ℤ) (d : Db)
      → (if eqb_ℤ id target then stock_of id d.products +ℤ quantity else stock_of id d.products)
          +ℤ held id (is_taken d.orders) d.items
        ≡ units id d +ℤ (if eqb_ℤ id target then quantity else pos 0)
  unfolding units
  given_back target quantity d = elim (Bool-cases (eqb_ℤ id target)) [
    | inl same ↦ rw same (omega int_laws)
    | inr other ↦ rw other (omega int_laws)
  ]

  return_one :
      (n : ℤ) (i : OrderItem) (rest : List OrderItem)
      → Triple
          (Returning n (i ∷ rest))
          (Products.increase_stock env i.product_id i.quantity)
          (λ _ d. Returning (n +ℤ item_units id any_order i) rest d)
  unfolding Products.increase_stock
  return_one n i rest = Triple-statement env _ (λ d d' u p e.
      let (sound, moved, orders, same) =
        set_stock-units id i.product_id i.quantity (λ stock. stock +ℤ i.quantity) d d' p.0.0 e
          p.3.0 in
      let there =
        set_stock-any_where i.product_id i.quantity (λ stock. stock +ℤ i.quantity) d d' e in
      (
        (sound, moved ∙ given_back i.product_id i.quantity d ∙ rw (← item_units_any id i, p.0.1)),
        rw orders p.1,
        rw same p.2,
        All-map (λ x. any_where (λ p. eqb_ℤ p.id x.product_id) d.products ≡ true)
            (λ x. any_where (λ p. eqb_ℤ p.id x.product_id) d'.products ≡ true) rest
            (λ x q. there x.product_id ∙ q) p.3.1,
      ))

  return_all :
      (n : ℤ) (rest : List OrderItem)
      → Triple
          (Returning n rest)
          (return_stock env rest)
          (λ _ d. Returning (n +ℤ held id any_order rest) [] d)
  unfolding return_stock held
  return_all n [] = Triple-pure tt (λ d p. ((p.0.0, p.0.1 ∙ omega int_laws), p.1, p.2, tt))
  return_all n (i ∷ rest) = Triple->>= (return_one n i rest) (λ _.
      Triple-weaken (λ d p. p) (λ u d p. ((p.0.0, p.0.1 ∙ omega int_laws), p.1, p.2, tt))
        (return_all (n +ℤ item_units id any_order i) rest))

select_ok : {A : Type 0} (xs ys : List A) → ◌≡◌ {A = Result (List A)} (ok xs) (ok ys) → ys ≡ xs
select_ok xs ys h = cc

release_items :
    (id n order_id : ℤ) (o : Order) (items : List OrderItem) (env : Env)
    → Triple
        (λ d.
          Returning id order_id o items env (n +ℤ held id any_order items) [] d
          × (o.status ≡ pending))
        (Repository.update_status env order_id cancelled)
        (λ _ d. HasUnits id n d)
unfolding Repository.update_status takes_stock
release_items id n order_id o items env = Triple-statement env _ (λ d d' u p e.
    let freed = set_status-release id order_id cancelled o d d' e p.0.1 (ap takes_stock p.1) refl in
    let total : units id d' +ℤ held id any_order items ≡ n +ℤ held id any_order items =
      rw p.0.2 (sym freed) ∙ p.0.0.1 in
    (
      set_status-IsSound order_id cancelled d d' p.0.0.0 e,
      +ℤ_cancel_right (units id d') n (held id any_order items) total,
    ))

-- What a cancelled order held is on stock again.
pub cancel_body-keeps :
    (id n user_id order_id : ℤ) (env : Env)
    → Triple (HasUnits id n) (cancel_body env user_id order_id) (λ _ d. HasUnits id n d)
unfolding cancel_body Repository.get_items Repository.update_status takes_stock
cancel_body-keeps id n user_id order_id env =
    Triple->>= (own_pending_lem env user_id order_id) (λ o.
      Triple->>= {Q = λ items d. Returning id order_id o items env n items d × (o.status ≡ pending)}
        (Triple-weaken (λ d p. p)
          (λ items d q.
            let e = select_ok _ items q.1 in
            (
              (
                q.0.0,
                q.0.1,
                e,
                rw e (
                    All-select_where
                      (λ i. any_where (λ p. eqb_ℤ p.id i.product_id) d.products ≡ true)
                      (in_order order_id) d.items q.0.0.0.items_stocked),
              ),
              q.0.3,
            ))
          (Triple-query env _))
        (λ items.
          Triple->>= (Triple-frame (return_all id order_id o items env n items))
            (λ _. release_items id n order_id o items env)))
