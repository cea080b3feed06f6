-- ===== src/Order/Progress.antt =====
-- Paying moves no goods, and neither does an administrator who does not cancel.
use fincart.Prelude.{true, ◌≡◌, sym, ◌∙◌, arith, ap, ◌≢◌, subst}
use fincart.Prelude.Int.{ℤ}
use fincart.Order.Status.{OrderStatus, pending, paid, cancelled, can_transition}
use fincart.Payment.{PaymentResult, success, failed, timeout}
use fincart.Store.Schema.{Order, Db}
use fincart.Store.Monad.{ok, Env, Session, PaymentService}
use fincart.Store.Hoare.{
  Triple, Triple-fail, Triple->>=, Triple-weaken, Triple-statement, Triple-return_if,
}
use fincart.Order.Repository
use fincart.Order.Service.{pay_body, settle, pay, update_status_body}
use fincart.Goods.{takes_stock, HasUnits}
use fincart.Goods.Statuses.{set_status-IsSound, set_status-keep}
use fincart.Order.Cancellation.{Finds, get_by_id_for_update-Finds, own_pending_lem}
use fincart.Prelude.Tests.{true_of_not}

-- A status that holds the items as the one before it did moves nothing.
keep_status :
    (id n order_id : ℤ) (status : OrderStatus) (o : Order) (env : Env)
    → Triple
        (λ d. HasUnits id n d × Finds order_id o d × (takes_stock status ≡ takes_stock o.status))
        (Repository.update_status env order_id status)
        (λ _ d. HasUnits id n d)
unfolding Repository.update_status
keep_status id n order_id status o env = Triple-statement env _ (λ d d' u p e. (
  set_status-IsSound order_id status d d' p.0.0 e,
  set_status-keep id order_id status o d d' e p.1 p.2 ∙ p.0.1,
))

pay-db :
    (service : PaymentService) (o : Order) (s s' : Session) (r : PaymentResult)
    → pay service o s ≡ (ok r, s')
    → s.db ≡ s'.db
unfolding pay
pay-db service o s s' r e = ground arith

pay-keeps :
    {P : Db → Type 0} (service : PaymentService) (o : Order) → Triple P (pay service o) (λ _ d. P d)
pay-keeps {P} service o = record { holds = λ s s' r p e. subst P (pay-db service o s s' r e) p }

settle-keeps :
    (id n user_id order_id : ℤ) (o : Order) (env : Env) (result : PaymentResult)
    → Triple
        (λ d. HasUnits id n d × Finds order_id o d × (o.user_id ≡ user_id) × (o.status ≡ pending))
        (settle env order_id result)
        (λ _ d. HasUnits id n d)
unfolding settle takes_stock
settle-keeps id n user_id order_id o env success =
    Triple-weaken (λ d p. (p.0, p.1, sym (ap takes_stock p.3))) (λ u d q. q)
      (keep_status id n order_id paid o env)
settle-keeps id n user_id order_id o env failed = Triple-fail _
settle-keeps id n user_id order_id o env timeout = Triple-fail _
settle-keeps id n user_id order_id o env (PaymentResult.unknown s) = Triple-fail _

step_takes :
    (a b : OrderStatus) → can_transition a b ≡ true → b ≢ cancelled → takes_stock b ≡ takes_stock a
unfolding takes_stock can_transition
step_takes a b h ne = ground arith

-- A payment moves no goods.
pub pay_body-keeps :
    (id n user_id order_id : ℤ) (env : Env) (service : PaymentService)
    → Triple (HasUnits id n) (pay_body env service user_id order_id) (λ _ d. HasUnits id n d)
unfolding pay_body takes_stock
pay_body-keeps id n user_id order_id env service =
    Triple->>= (own_pending_lem env user_id order_id) (λ o.
      Triple->>= (pay-keeps service o) (λ result. settle-keeps id n user_id order_id o env result))

pub update_status_body-keeps :
    (id n order_id : ℤ) (status : OrderStatus) (env : Env)
    → status ≢ cancelled
    → Triple (HasUnits id n) (update_status_body env order_id status) (λ _ d. HasUnits id n d)
unfolding update_status_body
update_status_body-keeps id n order_id status env ne =
    Triple->>= (get_by_id_for_update-Finds env order_id) (λ o.
      Triple->>=
        {Q = λ _ d.
          HasUnits id n d × Finds order_id o d × (takes_stock status ≡ takes_stock o.status)}
        (Triple-return_if _ (λ d q c. (q.0, q.1, step_takes o.status status (true_of_not _ c) ne)))
        (λ _. keep_status id n order_id status o env))
