-- ===== src/Store/Inversion.antt =====
-- What a function that returned a value has done: one lemma for each part of a body.
use fincart.Prelude.{◌≡◌, refl, Bool, true, false, arith, ap, suc}
use fincart.Prelude.Tests.{if◌then◌else◌}
use fincart.Store.Schema.{Db}
use fincart.Store.Monad.{
  Error, Result, ok, err, Env, Session, M, pure, fail, ◌>>=◌, return_if, statement,
}

module _ {A : Type 0} where
  pub pure-eq-ok : (a b : A) (s s' : Session) → pure a s ≡ (ok b, s') → (a ≡ b) × (s ≡ s')
  unfolding pure
  pure-eq-ok a b s s' h = (cc, cc)

  pub statement-eq-ok :
      (env : Env) (f : Db → Result A × Db) (s s' : Session) (a : A)
      → statement env f s ≡ (ok a, s')
      → (f s.db ≡ (ok a, s'.db)) × (s'.charges ≡ s.charges)
  unfolding statement
  statement-eq-ok env f s s' a h = ground arith

  pub ok_value : (a b : A) → ◌≡◌ {A = Result A} (ok a) (ok b) → a ≡ b
  ok_value a b h = cc

  query_answer :
      (r : Result A) (a : A) (d d' : Db)
      → ◌≡◌ {A = Result A × Db} (r, d) (ok a, d')
      → (r ≡ ok a) × (d' ≡ d)
  query_answer r a d d' h = (cc, cc)

  pub query-eq-ok :
      (env : Env) (f : Db → Result A) (s s' : Session) (a : A)
      → statement env (λ d. (f d, d)) s ≡ (ok a, s')
      → (f s.db ≡ ok a) × (s'.db ≡ s.db) × (s'.charges ≡ s.charges)
  query-eq-ok env f s s' a h =
      let (e, c) = statement-eq-ok env (λ d. (f d, d)) s s' a h in
      let (r, d) = query_answer (f s.db) a s.db s'.db e in (r, d, c)

  pub guard-eq-ok :
      (c : Bool) (e : Error) (m : M A) (s s' : Session) (a : A)
      → (if c then fail e else m) s ≡ (ok a, s')
      → (c ≡ false) × (m s ≡ (ok a, s'))
  unfolding fail
  guard-eq-ok true e m s s' a h = cc
  guard-eq-ok false e m s s' a h = (refl, h)

pub return_if-eq-ok :
    (c : Bool) (e : Error) (s s' : Session) (u : Unit {0})
    → return_if c e s ≡ (ok u, s')
    → (c ≡ false) × (s' ≡ s)
unfolding return_if
return_if-eq-ok true e s s' u h = cc
return_if-eq-ok false e s s' u h = (refl, cc)

-- The session after a statement that the connection has carried.
abbrev pub carried : Session → Db → Session
carried s d = record s { db = d; calls = suc s.calls }

-- The other way round: how a function goes on when its parts return.
module _ {A : Type 0} where
  pub >>=_of_ok :
      {B : Type 0} (m : M A) (f : A → M B) (s t : Session) (a : A)
      → m s ≡ (ok a, t)
      → (m >>= f) s ≡ f a t
  unfolding ◌>>=◌
  >>=_of_ok {B} m f s t a h = ap (next f) h
    where
      next : (A → M B) → Result A × Session → Result B × Session
      next f x = elim x.0 [ ok a ↦ f a x.1 | err e ↦ (err e, x.1) ]

  pub statement_of_ok :
      (env : Env) (f : Db → Result A × Db) (s : Session) (a : A) (d : Db)
      → env.fault s.calls ≡ false
      → f s.db ≡ (ok a, d)
      → statement env f s ≡ (ok a, carried s d)
  unfolding statement
  statement_of_ok env f s a d fine h = rw (fine, h)

  pub >>=_of_err :
      {B : Type 0} (m : M A) (f : A → M B) (s t : Session) (e : Error)
      → m s ≡ (err e, t)
      → (m >>= f) s ≡ (err e, t)
  unfolding ◌>>=◌
  >>=_of_err {B} m f s t e h = ap (next f) h
    where
      next : (A → M B) → Result A × Session → Result B × Session
      next f x = elim x.0 [ ok a ↦ f a x.1 | err e ↦ (err e, x.1) ]

  pub statement_of_err :
      (env : Env) (f : Db → Result A × Db) (s : Session) (e : Error) (d : Db)
      → env.fault s.calls ≡ false
      → f s.db ≡ (err e, d)
      → statement env f s ≡ (err e, carried s d)
  unfolding statement
  statement_of_err env f s e d fine h = rw (fine, h)

  pub guard_of_false :
      (c : Bool) (e : Error) (m : M A) (s : Session) → c ≡ false → (if c then fail e else m) s ≡ m s
  guard_of_false c e m s h = rw h

pub return_if_of_false :
    (c : Bool) (e : Error) (s : Session) → c ≡ false → return_if c e s ≡ (ok tt, s)
unfolding return_if
return_if_of_false c e s h = rw h

pub return_if_of_true :
    {A : Type 0} (c : Bool) (e : Error) (k : Unit {0} → M A) (s : Session)
    → c ≡ true
    → (return_if c e >>= k) s ≡ (err e, s)
unfolding return_if ◌>>=◌
return_if_of_true c e k s h = rw h
