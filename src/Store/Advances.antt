-- ===== src/Store/Advances.antt =====
-- No sequence ever goes back, however a function ends.
use fincart.Prelude.{◌≤◌, Bool, arith}
use fincart.Store.Schema.{Db}
use fincart.Store.Monad.{
  Error, Result, ok, err, Env, Session, M, pure, fail, ◌>>=◌, return_if, map_error, statement,
}

-- The orders' sequence is no lower after the call than before.
pub record Advances {A : Type 0} (m : M A) : Type 0 where
  pub grows : (s : Session) → s.db.order_seq ≤ (m s).1.db.order_seq

module _ {A : Type 0} where
  pub Advances-pure : (a : A) → Advances (pure a)
  unfolding pure
  Advances-pure a = record { grows = λ s. omega arith }

  pub Advances-fail : (e : Error) → Advances {A = A} (fail e)
  unfolding fail
  Advances-fail e = record { grows = λ s. omega arith }

  bind_split :
      {B : Type 0} (f : A → M B) (r : Result A) (t : Session)
      → ((a : A) → Advances (f a))
      → t.db.order_seq
        ≤ (let x : Result B × Session = elim r [ ok a ↦ f a t | err e ↦ (err e, t) ] in
            x).1.db.order_seq
  bind_split f (ok a) t h = (h a).grows t
  bind_split f (err e) t h = omega arith

  pub Advances->>= :
      {B : Type 0} {m : M A} {f : A → M B}
      → Advances m
      → ((a : A) → Advances (f a))
      → Advances (m >>= f)
  unfolding ◌>>=◌
  Advances->>= {m} {f} hm hf = record {
    grows = λ s. omega (arith, hm.grows s, bind_split f (m s).0 (m s).1 hf);
  }

  pub Advances-map_error : {m : M A} (g : Error → Error) → Advances m → Advances (map_error g m)
  unfolding map_error
  Advances-map_error {m} g h = record { grows = λ s. ground (arith, h.grows s) }

  pub Advances-statement :
      (env : Env) (f : Db → Result A × Db)
      → ((d : Db) → d.order_seq ≤ (f d).1.order_seq)
      → Advances (statement env f)
  unfolding statement
  Advances-statement env f h = record { grows = λ s. ground (arith, h s.db) }

pub Advances-return_if : (c : Bool) (e : Error) → Advances (return_if c e)
unfolding return_if
Advances-return_if c e = record { grows = λ s. omega arith }
