-- ===== src/Database/Atomic.antt =====
-- How a transaction ends: with what its function has written, or with the tables as they were.
use fincart.Prelude.{ℕ, ◌≡◌, refl, false, suc, inl, inr, subst, arith, ◌⊎◌}
use fincart.Prelude.Tests.{Bool-cases}
use fincart.Store.Schema.{Db}
use fincart.Store.Monad.{Error, Result, ok, err, driver, Env, Session, M}
use fincart.Store.Hoare.{Triple}
use fincart.Database.{restore, finish, within_transaction}

-- The tables hold the same rows. (The sequences may differ.)
pub record SameTables (d d' : Db) : Type 0 where
  pub products : d'.products ≡ d.products
  pub orders : d'.orders ≡ d.orders
  pub items : d'.items ≡ d.items
  pub users : d'.users ≡ d.users
  pub tokens : d'.tokens ≡ d.tokens

pub SameTables-refl : (d : Db) → SameTables d d
SameTables-refl d = record {
  products = refl;
  orders = refl;
  items = refl;
  users = refl;
  tokens = refl;
}

-- What a transaction that returns an error leaves: the tables as they were, or what its function has
-- written, if that went through and the answer to COMMIT was lost.
abbrev pub Ended : {A : Type 0} → M A → Session → Db → Type 0
Ended {A} body s d =
    SameTables s.db d
    ⊎ ((a : A) × (t : Session) × (body (record s { calls = suc s.calls }) ≡ (ok a, t)) × (d ≡ t.db))

finish-Ended :
    {A : Type 0} (env : Env) (before : Db) (r : Result A) (s s' : Session) (e : Error)
    → finish env before r s ≡ (err e, s')
    → SameTables before s'.db ⊎ ((a : A) × (r ≡ ok a) × (s'.db ≡ s.db))
unfolding finish restore
finish-Ended env before (ok a) s s' e h = elim (Bool-cases (env.carried_out s.calls)) [
  | inl done ↦ inr (a, refl, ground (arith, h, done))
  | inr lost ↦ inl (ground (arith, h, lost))
]
finish-Ended env before (err x) s s' e h = inl (ground arith)

-- A transaction that returns an error has changed no table, unless its function went through and
-- COMMIT was carried out without an answer.
pub within_transaction-atomic :
    {A : Type 0} (env : Env) (body : M A) (s s' : Session) (e : Error)
    → within_transaction env body s ≡ (err e, s')
    → Ended body s s'.db
unfolding within_transaction
within_transaction-atomic env body s s' e h =
    let begun : Session = record s { calls = suc s.calls } in
    elim (Bool-cases (env.fault s.calls)) [
      | inl broken ↦ inl (ground (arith, SameTables-refl s.db))
      | inr fine ↦ elim (finish-Ended env s.db (body begun).0 (body begun).1 s' e (rw fine at h)) [
        | inl same ↦ inl same
        | inr (a, r, d) ↦ inr (a, (body begun).1, (λ i. (r i, (body begun).1)), d)
      ]
    ]

finish-eq-ok :
    {A : Type 0} (env : Env) (before : Db) (r : Result A) (s s' : Session) (a : A)
    → finish env before r s ≡ (ok a, s')
    → (r ≡ ok a) × (s.db ≡ s'.db)
unfolding finish
finish-eq-ok env before (ok x) s s' a h = ground arith
finish-eq-ok env before (err x) s s' a h = ground arith

-- What holds at the end of the function holds after the transaction.
pub Triple-within_transaction :
    {A : Type 0} {P : Db → Type 0} {Q : A → Db → Type 0} (env : Env) {body : M A}
    → Triple P body Q
    → Triple P (within_transaction env body) Q
unfolding within_transaction
Triple-within_transaction {Q} env {body} h = record {
  holds = λ s s' a p e.
      let begun : Session = record s { calls = suc s.calls } in
      elim (Bool-cases (env.fault s.calls)) [
        | inl broken ↦ ground arith
        | inr fine ↦
            let (r, same) =
              finish-eq-ok env s.db (body begun).0 (body begun).1 s' a (rw fine at e) in
            subst (Q a) same (h.holds begun (body begun).1 a p (λ i. (r i, (body begun).1)))
      ];
}

finish-eq-ok_session :
    {A : Type 0} (env : Env) (before : Db) (r : Result A) (s s' : Session) (a : A)
    → finish env before r s ≡ (ok a, s')
    → (r ≡ ok a) × (s'.db ≡ s.db) × (s'.charges ≡ s.charges)
unfolding finish
finish-eq-ok_session env before (ok x) s s' a h = ground arith
finish-eq-ok_session env before (err x) s s' a h = ground arith

unbegun :
    {A : Type 0} (env : Env) (s s' : Session) (a : A)
    → ¬ ◌≡◌ {A = Result A × Session} (err driver, record s { calls = suc s.calls }) (ok a, s')
unbegun env s s' a h = cc

-- A transaction that returns a value has run its function, and has kept all that it wrote.
pub within_transaction-eq-ok :
    {A : Type 0} (env : Env) (body : M A) (s s' : Session) (a : A)
    → within_transaction env body s ≡ (ok a, s')
    → (t : Session) × (body (record s { calls = suc s.calls }) ≡ (ok a, t))
      × (s'.db ≡ t.db)
      × (s'.charges ≡ t.charges)
unfolding within_transaction
within_transaction-eq-ok env body s s' a h =
    let begun : Session = record s { calls = suc s.calls } in
    elim (Bool-cases (env.fault s.calls)) [
      | inl broken ↦ absurd (unbegun env s s' a (rw broken at h))
      | inr fine ↦
          let (r, d, c) =
            finish-eq-ok_session env s.db (body begun).0 (body begun).1 s' a (rw fine at h) in
          ((body begun).1, (λ i. (r i, (body begun).1)), d, c)
    ]

-- With nothing failing on the wire a transaction returns what its function returns.
pub within_transaction_of_ok :
    {A : Type 0} (env : Env) (body : M A) (s t : Session) (a : A)
    → ((n : ℕ) → env.fault n ≡ false)
    → body (record s { calls = suc s.calls }) ≡ (ok a, t)
    → within_transaction env body s ≡ (ok a, record t { calls = suc t.calls })
unfolding within_transaction finish
within_transaction_of_ok env body s t a fine h = rw (fine s.calls, h, fine t.calls)

pub within_transaction_of_err :
    {A : Type 0} (env : Env) (body : M A) (s t : Session) (e : Error)
    → ((n : ℕ) → env.fault n ≡ false)
    → body (record s { calls = suc s.calls }) ≡ (err e, t)
    → (within_transaction env body s).0 ≡ err e
unfolding within_transaction finish
within_transaction_of_err env body s t e fine h = rw (h, fine s.calls, fine t.calls)

-- and takes back what its function has written.
pub within_transaction_of_err-SameTables :
    {A : Type 0} (env : Env) (body : M A) (s t : Session) (e : Error)
    → ((n : ℕ) → env.fault n ≡ false)
    → body (record s { calls = suc s.calls }) ≡ (err e, t)
    → SameTables s.db (within_transaction env body s).1.db
unfolding within_transaction finish restore
within_transaction_of_err-SameTables env body s t e fine h =
    rw (h, fine s.calls, fine t.calls)
      (record { products = refl; orders = refl; items = refl; users = refl; tokens = refl })
