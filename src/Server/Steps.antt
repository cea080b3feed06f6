-- ===== src/Server/Steps.antt =====
-- What a function does to the database, however it ends: one rule for each way to build a function.
use fincart.Prelude.{List, ◌≡◌, subst, sym, Bool, true, false, suc, inl, inr}
use fincart.Prelude.Tests.{if◌then◌else◌, Bool-cases}
use fincart.Store.Schema.{Order, Db}
use fincart.Store.Monad.{
  Error, Result, ok, err, Env, Session, M, pure, fail, ◌>>=◌, return_if, map_error, statement,
}
use fincart.Store.Hoare.{Triple}
use fincart.Database.{restore, finish, within_transaction}

-- Steps can be put after one another, and a transaction can take its tables back.
pub record IsStep (R : Db → Db → Type 0) : Type 0 where
  pub same : (d : Db) → R d d
  pub next : (a b c : Db) → R a b → R b c → R a c
  pub restored : (d d' : Db) → R d d' → R d (restore d d')

-- `m` makes a step, whether it returns a value or an error.
pub record Steps {A : Type 0} (R : Db → Db → Type 0) (m : M A) : Type 0 where
  pub at : (s : Session) → R s.db (m s).1.db

-- The same, from a database with `P`.
pub record StepsFrom {A : Type 0} (R : Db → Db → Type 0) (P : Db → Type 0) (m : M A) : Type 0 where
  pub from : (s : Session) → P s.db → R s.db (m s).1.db

module _ {A : Type 0} {R : Db → Db → Type 0} {m : M A} where
  pub Steps-StepsFrom : {P : Db → Type 0} → Steps R m → StepsFrom R P m
  Steps-StepsFrom h = record { from = λ s k. h.at s }

  pub StepsFrom-Steps : StepsFrom R (λ d. Unit) m → Steps R m
  StepsFrom-Steps h = record { at = λ s. h.from s tt }

module _ {R : Db → Db → Type 0} (p : IsStep R) {A : Type 0} where
  -- What leaves the database alone.
  pub Steps-still : {m : M A} → ((s : Session) → (m s).1.db ≡ s.db) → Steps R m
  Steps-still {m} h = record { at = λ s. subst (λ d. R s.db d) (sym (h s)) (p.same s.db) }

  pub Steps-pure : (a : A) → Steps R (pure a)
  unfolding pure
  Steps-pure a = record { at = λ s. p.same s.db }

  pub Steps-fail : (e : Error) → Steps R (fail {A = A} e)
  unfolding fail
  Steps-fail e = record { at = λ s. p.same s.db }

  pub Steps-statement :
      (env : Env) (f : Db → Result A × Db) → ((d : Db) → R d (f d).1) → Steps R (statement env f)
  unfolding statement
  Steps-statement env f h = record {
    at = λ s. elim (Bool-cases (env.fault s.calls)) [
      | inl broken ↦ rw broken (p.same s.db)
      | inr fine ↦ rw fine (h s.db)
    ];
  }

  pub StepsFrom-statement :
      {P : Db → Type 0} (env : Env) (f : Db → Result A × Db)
      → ((d : Db) → P d → R d (f d).1)
      → StepsFrom R P (statement env f)
  unfolding statement
  StepsFrom-statement env f h = record {
    from = λ s k. elim (Bool-cases (env.fault s.calls)) [
      | inl broken ↦ rw broken (p.same s.db)
      | inr fine ↦ rw fine (h s.db k)
    ];
  }

  pub StepsFrom-weaken :
      {m : M A} {P Q : Db → Type 0} → ((d : Db) → P d → Q d) → StepsFrom R Q m → StepsFrom R P m
  StepsFrom-weaken weaker h = record { from = λ s k. h.from s (weaker s.db k) }

  -- A query.
  pub Steps-query : (env : Env) (f : Db → Result A) → Steps R (statement env (λ d. (f d, d)))
  Steps-query env f = Steps-statement env (λ d. (f d, d)) (λ d. p.same d)

  pub Steps-map_error : {m : M A} (g : Error → Error) → Steps R m → Steps R (map_error g m)
  unfolding map_error
  Steps-map_error {m} g h = record { at = λ s. split (m s).0 (m s).1 s (h.at s) }
    where
      split :
          (r : Result A) (t s : Session)
          → R s.db t.db
          → R s.db
              (let x : Result A × Session = elim r [ ok a ↦ (ok a, t) | err e ↦ (err (g e), t) ] in
                x).1.db
      split (ok a) t s k = k
      split (err e) t s k = k

  pub Steps-if : (c : Bool) {m n : M A} → Steps R m → Steps R n → Steps R (if c then m else n)
  Steps-if true hm hn = hm
  Steps-if false hm hn = hn

  finish-step :
      (env : Env) (before : Db) (r : Result A) (s : Session)
      → R before s.db
      → R before (finish env before r s).1.db
  unfolding finish
  finish-step env before (ok a) s h = elim (Bool-cases (env.fault s.calls)) [
    | inl broken ↦ elim (Bool-cases (env.carried_out s.calls)) [
      | inl done ↦ rw (broken, done) h
      | inr lost ↦ rw (broken, lost) (p.restored before s.db h)
    ]
    | inr fine ↦ rw fine h
  ]
  finish-step env before (err e) s h = elim (Bool-cases (env.fault s.calls)) [
    | inl broken ↦ rw broken (p.restored before s.db h)
    | inr fine ↦ rw fine (p.restored before s.db h)
  ]

  pub Steps-within_transaction :
      (env : Env) {body : M A} → Steps R body → Steps R (within_transaction env body)
  unfolding within_transaction
  Steps-within_transaction env {body} h = record {
    at = λ s.
        let begun : Session = record s { calls = suc s.calls } in
        elim (Bool-cases (env.fault s.calls)) [
          | inl broken ↦ rw broken (p.same s.db)
          | inr fine ↦ rw fine (finish-step env s.db (body begun).0 (body begun).1 (h.at begun))
        ];
  }

module _ {R : Db → Db → Type 0} (p : IsStep R) {A B : Type 0} where
  rest_split :
      (f : A → M B) (r : Result A) (s t : Session)
      → R s.db t.db
      → ((a : A) → ◌≡◌ {A = Result A} r (ok a) → R t.db (f a t).1.db)
      → R s.db (let x : Result B × Session = elim r [ ok a ↦ f a t | err e ↦ (err e, t) ] in x).1.db
  rest_split f (ok a) s t h k = p.next s.db t.db (f a t).1.db h (k a (λ i. ok a))
  rest_split f (err e) s t h k = h

  pub Steps->>= :
      {m : M A} {f : A → M B} → Steps R m → ((a : A) → Steps R (f a)) → Steps R (m >>= f)
  unfolding ◌>>=◌
  Steps->>= {m} {f} hm hf = record {
    at = λ s. rest_split f (m s).0 s (m s).1 (hm.at s) (λ a e. (hf a).at (m s).1);
  }

  -- The rest may rely on what is known of a value that the first part returned.
  pub StepsFrom-chain :
      {m : M A} {f : A → M B} {P : Db → Type 0} {Q : A → Db → Type 0}
      → Triple P m Q
      → StepsFrom R P m
      → ((a : A) → StepsFrom R (Q a) (f a))
      → StepsFrom R P (m >>= f)
  unfolding ◌>>=◌
  StepsFrom-chain {m} {f} known hm hf = record {
    from = λ s k.
        rest_split f (m s).0 s (m s).1 (hm.from s k)
          (λ a e. (hf a).from (m s).1 (known.holds s (m s).1 a k (λ i. (e i, (m s).1))));
  }

  pub StepsFrom->>= :
      {m : M A} {f : A → M B} {P : Db → Type 0} {Q : A → Db → Type 0}
      → Triple P m Q
      → Steps R m
      → ((a : A) → StepsFrom R (Q a) (f a))
      → StepsFrom R P (m >>= f)
  StepsFrom->>= known hm hf = StepsFrom-chain known (Steps-StepsFrom hm) hf

  -- Nothing is asked of the database after the first part.
  pub StepsFrom-first :
      {m : M A} {f : A → M B} {P : Db → Type 0}
      → StepsFrom R P m
      → ((a : A) → Steps R (f a))
      → StepsFrom R P (m >>= f)
  StepsFrom-first hm hf =
      StepsFrom-chain {Q = λ _ _. Unit {0}} (record { holds = λ s s' a k e. tt }) hm
        (λ a. Steps-StepsFrom (hf a))

-- What is known of the orders is still known after a function that leaves the orders alone.
pub Triple-orders :
    {A : Type 0} {m : M A} (K : List Order → Type 0)
    → Steps (λ d d'. d'.orders ≡ d.orders) m
    → Triple (λ d. K d.orders) m (λ _ d. K d.orders)
Triple-orders {A} K h = record {
  holds = λ s s' a k e.
      subst (λ (x : Result A × Session). K x.1.db.orders) e (subst K (sym (h.at s)) k);
}

pub Steps-return_if :
    {R : Db → Db → Type 0} (p : IsStep R) (c : Bool) (e : Error) → Steps R (return_if c e)
unfolding return_if
Steps-return_if p c e = record { at = λ s. p.same s.db }
