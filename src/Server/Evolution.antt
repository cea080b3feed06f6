-- ===== src/Server/Evolution.antt =====
-- How an order, and the table of orders, may change over time.
use fincart.Prelude.{
  Bool, true, List, Option, [], ◌∷◌, ◌++◌, ◌≡◌, ◌≢◌, refl, ◌∙◌, ap, subst, some, inl, inr,
}
use fincart.Prelude.Tests.{Bool-cases}
use fincart.Prelude.Lists.{All}
use fincart.Prelude.Int.{ℤ, eqb_ℤ}
use fincart.Order.Status.{OrderStatus, draft, pending}
use fincart.Order.Lifecycle.{Transition, pay, cancel, process, ship, complete}
use fincart.Store.Schema.{Order}
use fincart.Store.Rows.{find_where, update_where}
use fincart.Store.Rows.Keys.{updated-cases}

-- The statuses that an order can come to: a cart is checked out, or the life cycle takes an edge.
pub data Reaches (a : OrderStatus) : OrderStatus → Type 0 where
  here : Reaches a a
  check_out : Reaches a draft → Reaches a pending
  advance : {b c : OrderStatus} → Reaches a b → Transition b c → Reaches a c

Reaches-trans : {a b c : OrderStatus} → Reaches a b → Reaches b c → Reaches a c
Reaches-trans h here = h
Reaches-trans h (check_out r) = check_out (Reaches-trans h r)
Reaches-trans h (advance r t) = advance (Reaches-trans h r) t

Transition-not_draft : {a b : OrderStatus} → Transition a b → b ≢ draft
Transition-not_draft pay = λ e. cc
Transition-not_draft cancel = λ e. cc
Transition-not_draft process = λ e. cc
Transition-not_draft ship = λ e. cc
Transition-not_draft complete = λ e. cc

-- Nothing becomes a cart again.
pub Reaches-not_draft : {a b : OrderStatus} → Reaches a b → a ≢ draft → b ≢ draft
Reaches-not_draft here h = h
Reaches-not_draft (check_out r) h = λ e. cc
Reaches-not_draft (advance r t) h = Transition-not_draft t

-- What an order keeps, and where its status has gone. The price stands from the checkout on.
pub record Evolves (o p : Order) : Type 0 where
  pub same_id : p.id ≡ o.id
  pub same_owner : p.user_id ≡ o.user_id
  pub same_time : p.created_at ≡ o.created_at
  pub reached : Reaches o.status p.status
  pub priced : o.status ≢ draft → (p.total_amount ≡ o.total_amount) × (p.currency ≡ o.currency)

Evolves-refl : (o : Order) → Evolves o o
Evolves-refl o = record {
  same_id = refl;
  same_owner = refl;
  same_time = refl;
  reached = here;
  priced = λ h. (refl, refl);
}

Evolves-trans : {o p q : Order} → Evolves o p → Evolves p q → Evolves o q
Evolves-trans f g = record {
  same_id = g.same_id ∙ f.same_id;
  same_owner = g.same_owner ∙ f.same_owner;
  same_time = g.same_time ∙ f.same_time;
  reached = Reaches-trans f.reached g.reached;
  priced = λ h.
      let (a, b) = f.priced h in
      let (c, d) = g.priced (Reaches-not_draft f.reached h) in (c ∙ a, d ∙ b);
}

-- The rows of a table, each further on, and rows after them.
abbrev pub Follows : List Order → List Order → Type 0
Follows [] ys = Unit
Follows (x ∷ xs) [] = ⊥
Follows (x ∷ xs) (y ∷ ys) = Evolves x y × Follows xs ys

pub Follows-refl : (xs : List Order) → Follows xs xs
Follows-refl [] = tt
Follows-refl (x ∷ xs) = (Evolves-refl x, Follows-refl xs)

pub Follows-trans : (xs ys zs : List Order) → Follows xs ys → Follows ys zs → Follows xs zs
Follows-trans [] ys zs h k = tt
Follows-trans (x ∷ xs) [] zs h k = absurd h
Follows-trans (x ∷ xs) (y ∷ ys) [] h k = absurd k
Follows-trans (x ∷ xs) (y ∷ ys) (z ∷ zs) h k =
    (Evolves-trans h.0 k.0, Follows-trans xs ys zs h.1 k.1)

pub Follows-append : (xs ys : List Order) → Follows xs (xs ++ ys)
Follows-append [] ys = tt
Follows-append (x ∷ xs) ys = (Evolves-refl x, Follows-append xs ys)

pub Follows-update_where :
    (p : Order → Bool) (f : Order → Order) (xs : List Order)
    → All (λ x. p x ≡ true → Evolves x (f x)) xs
    → Follows xs (update_where p f xs)
Follows-update_where p f [] h = tt
Follows-update_where p f (x ∷ xs) h =
    (updated-cases (Evolves x) p f x (Evolves-refl x) h.0, Follows-update_where p f xs h.1)

-- The order that a query finds is found again.
pub Follows-found :
    (id : ℤ) (xs ys : List Order) (o : Order)
    → Follows xs ys
    → find_where (λ o. eqb_ℤ o.id id) xs ≡ some o
    → (p : Order) × (find_where (λ o. eqb_ℤ o.id id) ys ≡ some p) × Evolves o p
Follows-found id [] ys o h found = cc
Follows-found id (x ∷ xs) [] o h found = absurd h
Follows-found id (x ∷ xs) (y ∷ ys) o h found =
    let same : eqb_ℤ y.id id ≡ eqb_ℤ x.id id = ap (λ n. eqb_ℤ n id) h.0.same_id in
    elim (Bool-cases (eqb_ℤ x.id id)) [
      | inl this ↦
          let f : ◌≡◌ {A = Option Order} (some x) (some o) = rw this at found in
          let e : x ≡ o = cc in (y, rw (same, this) refl, subst (λ o. Evolves o y) e h.0)
      | inr other ↦
          let (p, there, k) = Follows-found id xs ys o h.1 (rw other at found) in
          (p, rw (same, other) there, k)
    ]
