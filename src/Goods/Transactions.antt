-- ===== src/Goods/Transactions.antt =====
-- A transaction moves no goods if its function does not, also when it fails.
use fincart.Prelude.{suc, ◌⊎◌, Bool, true, false, ◌≡◌, refl, ◌≤◌, inl, inr, arith, subst, sym}
use fincart.Prelude.Tests.{if◌then◌else◌, Bool-cases}
use fincart.Prelude.Lists.{All-map}
use fincart.Prelude.Int.{ℤ, pos, ◌≤ℤ◌}
use fincart.Store.Schema.{Order, OrderItem, Db}
use fincart.Store.Monad.{Error, Result, ok, err, Env, Session, M, fail}
use fincart.Store.Hoare.{Triple}
use fincart.Store.Advances.{Advances}
use fincart.Database.{restore, finish, within_transaction}
use fincart.Database.Atomic.{SameTables, within_transaction-atomic, Triple-within_transaction}
use fincart.Goods.{units, HasUnits}

-- With the same tables and no lower sequence the rows are as sound, and the goods where they were.
same_goods :
    (id n : ℤ) (d d' : Db)
    → HasUnits id n d
    → SameTables d d'
    → d.order_seq ≤ d'.order_seq
    → HasUnits id n d'
unfolding units
same_goods id n d d' h same le = (
  record {
    orders_numbered = rw same.orders (
        All-map (λ (o : Order). o.id ≤ℤ pos d.order_seq) (λ o. o.id ≤ℤ pos d'.order_seq) d.orders
          (λ o p. omega arith) h.0.orders_numbered);
    items_numbered = rw same.items (
        All-map (λ (i : OrderItem). i.order_id ≤ℤ pos d.order_seq)
          (λ i. i.order_id ≤ℤ pos d'.order_seq) d.items (λ i p. omega arith) h.0.items_numbered);
    items_stocked = rw (same.items, same.products) h.0.items_stocked;
  },
  rw (same.products, same.orders, same.items) h.1,
)

finish-grows :
    {A : Type 0} (env : Env) (before : Db) (r : Result A) (s : Session)
    → (finish env before r s).1.db.order_seq ≡ s.db.order_seq
unfolding finish restore
finish-grows env before (ok a) s = ground arith
finish-grows env before (err e) s = ground arith

Advances-within_transaction :
    {A : Type 0} (env : Env) {body : M A} → Advances body → Advances (within_transaction env body)
unfolding within_transaction
Advances-within_transaction env {body} h = record {
  grows = λ s.
      let begun : Session = record s { calls = suc s.calls } in
      elim (Bool-cases (env.fault s.calls)) [
        | inl broken ↦ rw broken (omega arith)
        | inr fine ↦ rw (fine, finish-grows env s.db (body begun).0 (body begun).1) (h.grows begun)
      ];
}

pub Result-cases :
    {A : Type 0} (r : Result A) → ((a : A) × (r ≡ ok a)) ⊎ ((e : Error) × (r ≡ err e))
Result-cases (ok a) = inl (a, refl)
Result-cases (err e) = inr (e, refl)

-- A transaction whose function keeps the goods on success keeps them on failure too.
pub within_transaction-goods :
    {A : Type 0} (id n : ℤ) (env : Env) (body : M A) (s : Session)
    → Advances body
    → Triple (HasUnits id n) body (λ _ d. HasUnits id n d)
    → HasUnits id n s.db
    → HasUnits id n (within_transaction env body s).1.db
within_transaction-goods id n env body s grows keeps h =
    let after = within_transaction env body s in
    elim (Result-cases after.0) [
      | inl (a, e) ↦ (Triple-within_transaction env keeps).holds s after.1 a h (λ i. (e i, after.1))
      | inr (x, e) ↦ elim (within_transaction-atomic env body s after.1 x (λ i. (e i, after.1))) [
        | inl same ↦
            same_goods id n s.db after.1.db h same ((Advances-within_transaction env grows).grows s)
        | inr (a, t, went, d) ↦
            subst (HasUnits id n) (sym d)
              (keeps.holds (record s { calls = suc s.calls }) t a h went)
      ]
    ]

-- An early return changes nothing.
pub guarded :
    {A : Type 0} (P : Db → Type 0) (c : Bool) (e : Error) (m : M A) (s : Session)
    → P s.db
    → P (m s).1.db
    → P ((if c then fail e else m) s).1.db
unfolding fail
guarded P true e m s p q = p
guarded P false e m s p q = q
