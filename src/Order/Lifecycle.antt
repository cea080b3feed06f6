-- ===== src/Order/Lifecycle.antt =====
-- The life cycle that `CanTransition` allows, and the texts of the statuses.
use fincart.Prelude.{ℕ, suc, ap, ◌+◌, ◌≤◌, ◌<◌, ◌≡◌, refl, ◌↔◌, true, arith, str_eq_iff}
use fincart.Order.Status.{
  OrderStatus, pending, paid, processing, shipped, completed, cancelled, status_eq, can_transition,
}

-- The edges of the life cycle.
pub data Transition : OrderStatus → OrderStatus → Type 0 where
  pay : Transition pending paid
  cancel : Transition pending cancelled
  process : Transition paid processing
  ship : Transition processing shipped
  complete : Transition shipped completed

pub status_eq_iff : (a b : OrderStatus) → (status_eq a b ≡ true) ↔ (a ≡ b)
unfolding status_eq
status_eq_iff (OrderStatus.unknown s) (OrderStatus.unknown t) = ground (arith, str_eq_iff s t)
status_eq_iff _ _ = ground arith

pub status_eq_refl : (a : OrderStatus) → status_eq a a ≡ true
status_eq_refl a = (status_eq_iff a a).1 refl

Transition-can_transition : {a b : OrderStatus} → Transition a b → can_transition a b ≡ true
unfolding can_transition
Transition-can_transition pay = refl
Transition-can_transition cancel = refl
Transition-can_transition process = refl
Transition-can_transition ship = refl
Transition-can_transition complete = refl

can_transition-Transition : (a b : OrderStatus) → can_transition a b ≡ true → Transition a b
unfolding can_transition
can_transition-Transition pending paid h = pay
can_transition-Transition pending cancelled h = cancel
can_transition-Transition paid processing h = process
can_transition-Transition processing shipped h = ship
can_transition-Transition shipped completed h = complete
can_transition-Transition _ _ h = cc

-- `CanTransition` is true on the five edges of the life cycle, and on no other pair of statuses,
-- unknown texts included.
pub can_transition_iff : (a b : OrderStatus) → (can_transition a b ≡ true) ↔ Transition a b
can_transition_iff a b = (can_transition-Transition a b, Transition-can_transition)

-- A chain of n changes that `CanTransition` allows.
pub data Chain : OrderStatus → OrderStatus → ℕ → Type 0 where
  here : {s : OrderStatus} → Chain s s 0
  step : {s t u : OrderStatus} {n : ℕ} → can_transition s t ≡ true → Chain t u n → Chain s u (suc n)

-- How far an order has come.
unfoldable pub rank : OrderStatus → ℕ
rank pending = 1
rank paid = 2
rank processing = 3
rank shipped = 4
rank completed = 5
rank cancelled = 5
rank _ = 0

rank-can_transition :
    (a b : OrderStatus) → can_transition a b ≡ true → (1 ≤ rank a) × (rank a < rank b)
unfolding rank
rank-can_transition a b h = rank-Transition (can_transition-Transition a b h)
  where
    rank-Transition : {a b : OrderStatus} → Transition a b → (1 ≤ rank a) × (rank a < rank b)
    rank-Transition pay = omega arith
    rank-Transition cancel = omega arith
    rank-Transition process = omega arith
    rank-Transition ship = omega arith
    rank-Transition complete = omega arith

rank-le : (a : OrderStatus) → rank a ≤ 5
unfolding rank
rank-le a = ground arith

rank-Chain : {a b : OrderStatus} {n : ℕ} → Chain a b n → rank a + n ≤ rank b
rank-Chain here = omega arith
rank-Chain (step {s} {t} h c) = omega (arith, rank-can_transition s t h, rank-Chain c)

-- No status comes back, and no order changes its status more than four times.
pub Chain-bounded : {a b : OrderStatus} {n : ℕ} → Chain a b n → (n ≤ 4) × (a ≡ b → n ≡ 0)
Chain-bounded {b} here = (omega arith, λ e. refl)
Chain-bounded {b} (step {s} {t} h c) = (
  omega (arith, rank-can_transition s t h, rank-Chain c, rank-le b),
  λ e. absurd (omega (arith, rank-can_transition s t h, rank-Chain c, ap rank e)),
)
