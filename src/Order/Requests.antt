-- ===== src/Order/Requests.antt =====
-- The order service over time: any requests, each in an environment of its own.
use fincart.Prelude.{String, List, [], ◌∷◌, ◌≡◌, refl, ◌≢◌, none, some, not, Option, ◌||◌}
use fincart.Prelude.Tests.{if◌then◌else◌}
use fincart.Prelude.Lists.{All, is_empty}
use fincart.Prelude.Int.{ℤ, is_nonpositive}
use fincart.Order.Status.{cancelled, of_string, is_valid}
use fincart.Order.Quantities.{Quantities, CreateOrderItem, collect}
use fincart.Store.Monad.{
  Env, Session, PaymentService, fail, order_error, invalid_order, invalid_order_state,
}
use fincart.Store.Hoare.{
  Triple, Triple->>=, Triple-query, Triple-return_if, Triple-pure, Triple-weaken,
}
use fincart.Database.{within_transaction}
use fincart.Goods.{units, IsSound, HasUnits}
use fincart.Order.Service.{
  create_order, cancel_order, get_order, list_orders, update_order_status, pay_order,
}
use fincart.Goods.Transactions.{within_transaction-goods, guarded}
use fincart.Order.Service.{
  place_collected, cancel_body, get_order_body, update_status_body, pay_body,
}
use fincart.Order.Repository
use fincart.Order.Conservation.{place_order-keeps}
use fincart.Order.Cancellation.{cancel_body-keeps}
use fincart.Order.Progress.{pay_body-keeps, update_status_body-keeps}
use fincart.Order.Sequences.{
  place_order-Advances, cancel_body-Advances, get_order_body-Advances, update_status_body-Advances,
  pay_body-Advances, list-Advances,
}

-- A request to the order service.
pub data OrderRequest : Type 0 where
  create : ℤ → List CreateOrderItem → OrderRequest
  cancel : ℤ → ℤ → OrderRequest
  get : ℤ → ℤ → OrderRequest
  list : OrderRequest
  set_status : ℤ → String → OrderRequest
  pay : PaymentService → ℤ → ℤ → OrderRequest

-- The session after a request, whatever was answered.
unfoldable pub serve : Env → OrderRequest → Session → Session
serve env (create user_id items) s = (create_order env user_id items s).1
serve env (cancel user_id order_id) s = (cancel_order env user_id order_id s).1
serve env (get user_id order_id) s = (get_order env user_id order_id s).1
serve env list s = (list_orders env s).1
serve env (set_status order_id status) s = (update_order_status env order_id status s).1
serve env (pay service user_id order_id) s = (pay_order env service user_id order_id s).1

unfoldable pub serve_all : List (Env × OrderRequest) → Session → Session
serve_all [] s = s
serve_all ((env, request) ∷ rest) s = serve_all rest (serve env request s)

-- The one request that moves goods out of the books: an administrator's `cancelled`.
abbrev pub KeepsGoods : OrderRequest → Type 0
KeepsGoods (set_status order_id status) = of_string status ≢ cancelled
KeepsGoods _ = Unit

-- An order that is read, and a list of them, leave the goods where they are.
get_order_body-keeps :
    (id n user_id order_id : ℤ) (env : Env)
    → Triple (HasUnits id n) (get_order_body env user_id order_id) (λ _ d. HasUnits id n d)
unfolding get_order_body Repository.get_by_id Repository.get_items
get_order_body-keeps id n user_id order_id env = Triple->>= (Triple-query env _) (λ o.
    Triple->>= (Triple-return_if _ (λ d p _. p.0))
      (λ _. Triple->>= (Triple-query env _) (λ items. Triple-pure (o, items) (λ d p. p.0))))

list-keeps :
    (id n : ℤ) (env : Env) → Triple (HasUnits id n) (Repository.list env) (λ _ d. HasUnits id n d)
unfolding Repository.list
list-keeps id n env = Triple-weaken (λ d p. p) (λ r d p. p.0) (Triple-query env _)

place_collected-goods :
    (id n : ℤ) (env : Env) (user_id : ℤ) (quantities : Option Quantities) (s : Session)
    → HasUnits id n s.db
    → HasUnits id n (place_collected env user_id quantities s).1.db
unfolding place_collected fail
place_collected-goods id n env user_id none s h = h
place_collected-goods id n env user_id (some quantities) s h =
    within_transaction-goods id n env _ s (place_order-Advances env user_id quantities)
      (place_order-keeps id n user_id env quantities) h

-- One request, whatever it is and however it ends.
serve-goods :
    (id n : ℤ) (env : Env) (request : OrderRequest) (s : Session)
    → KeepsGoods request
    → HasUnits id n s.db
    → HasUnits id n (serve env request s).db
unfolding serve create_order cancel_order get_order list_orders update_order_status pay_order
serve-goods id n env (create user_id items) s keep h =
    guarded (HasUnits id n) (is_nonpositive user_id || is_empty items) (order_error invalid_order)
      (place_collected env user_id (collect items [])) s h
      (place_collected-goods id n env user_id (collect items []) s h)
serve-goods id n env (cancel user_id order_id) s keep h =
    guarded (HasUnits id n) (is_nonpositive user_id || is_nonpositive order_id)
      (order_error invalid_order) (within_transaction env (cancel_body env user_id order_id)) s h
      (within_transaction-goods id n env _ s (cancel_body-Advances env user_id order_id)
        (cancel_body-keeps id n user_id order_id env) h)
serve-goods id n env (get user_id order_id) s keep h =
    guarded (HasUnits id n) (is_nonpositive user_id || is_nonpositive order_id)
      (order_error invalid_order) (within_transaction env (get_order_body env user_id order_id)) s h
      (within_transaction-goods id n env _ s (get_order_body-Advances env user_id order_id)
        (get_order_body-keeps id n user_id order_id env) h)
serve-goods id n env list s keep h =
    within_transaction-goods id n env _ s (list-Advances env) (list-keeps id n env) h
serve-goods id n env (set_status order_id status) s keep h =
    let body = within_transaction env (update_status_body env order_id (of_string status)) in
    guarded (HasUnits id n) (is_nonpositive order_id) (order_error invalid_order)
      (if not (is_valid (of_string status)) then fail (order_error invalid_order_state) else body) s
      h
      (guarded (HasUnits id n) (not (is_valid (of_string status))) (order_error invalid_order_state)
        body s h
        (within_transaction-goods id n env _ s (update_status_body-Advances env order_id _)
          (update_status_body-keeps id n order_id (of_string status) env keep) h))
serve-goods id n env (pay service user_id order_id) s keep h =
    guarded (HasUnits id n) (is_nonpositive user_id || is_nonpositive order_id)
      (order_error invalid_order) (within_transaction env (pay_body env service user_id order_id)) s
      h
      (within_transaction-goods id n env _ s (pay_body-Advances env service user_id order_id)
        (pay_body-keeps id n user_id order_id env service) h)

-- However many requests the order service gets, in any order, with any database calls failing and
-- any payments refused: the units of each product, on stock and in orders, stay the same, and the
-- rows stay sound, as long as no administrator sets the status to `cancelled`.
pub serve_all-goods :
    (id : ℤ) (requests : List (Env × OrderRequest)) (s : Session)
    → IsSound s.db
    → All (λ r. KeepsGoods r.1) requests
    → IsSound (serve_all requests s).db × (units id (serve_all requests s).db ≡ units id s.db)
unfolding serve_all
serve_all-goods id requests s sound keep = go requests s keep (sound, refl)
  where
    go :
        (requests : List (Env × OrderRequest)) (t : Session)
        → All (λ r. KeepsGoods r.1) requests
        → HasUnits id (units id s.db) t.db
        → HasUnits id (units id s.db) (serve_all requests t).db
    go [] t keep h = h
    go ((env, request) ∷ rest) t keep h =
        go rest (serve env request t) keep.1 (serve-goods id (units id s.db) env request t keep.0 h)
