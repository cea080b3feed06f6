-- ===== src/Store/Stepping.antt =====
-- What a function has done up to a given session: one lemma for each kind of first part.
use fincart.Prelude.{◌≡◌, sym, subst, Bool, false, arith, ap}
use fincart.Store.Schema.{Db}
use fincart.Store.Monad.{
  Error, Result, ok, err, Env, Session, M, ◌>>=◌, return_if, map_error, statement,
}
use fincart.Store.Hoare.{>>=-eq-ok}
use fincart.Store.Inversion.{return_if-eq-ok, carried}

module _ {A : Type 0} where
  pub map_error-eq-ok :
      (f : Error → Error) (m : M A) (s s' : Session) (a : A)
      → map_error f m s ≡ (ok a, s')
      → m s ≡ (ok a, s')
  unfolding map_error
  map_error-eq-ok f m s s' a h = split (m s).0 (m s).1 h
    where
      split :
          (r : Result A) (t : Session)
          → ◌≡◌ {A = Result A × Session}
              (elim r [ ok a ↦ (ok a, t) | err e ↦ (err (f e), t) ])
              (ok a, s')
          → ◌≡◌ {A = Result A × Session} (r, t) (ok a, s')
      split (ok x) t e = e
      split (err x) t e = cc

  pub map_error_of_ok :
      (f : Error → Error) (m : M A) (s t : Session) (a : A)
      → m s ≡ (ok a, t)
      → map_error f m s ≡ (ok a, t)
  unfolding map_error
  map_error_of_ok f m s t a h = ap answer h
    where
      answer : Result A × Session → Result A × Session
      answer x = elim x.0 [ ok a ↦ (ok a, x.1) | err e ↦ (err (f e), x.1) ]

  pub map_error_of_err :
      (f : Error → Error) (m : M A) (s t : Session) (e : Error)
      → m s ≡ (err e, t)
      → map_error f m s ≡ (err (f e), t)
  unfolding map_error
  map_error_of_err f m s t e h = ap answer h
    where
      answer : Result A × Session → Result A × Session
      answer x = elim x.0 [ ok a ↦ (ok a, x.1) | err e ↦ (err (f e), x.1) ]

  pub statement-carried :
      (env : Env) (f : Db → Result A × Db) (s s' : Session) (a : A)
      → statement env f s ≡ (ok a, s')
      → ((f s.db).0 ≡ ok a) × (s' ≡ carried s (f s.db).1)
  unfolding statement
  statement-carried env f s s' a h = ground arith

  -- What goes on after the first part, which is known to leave the session u.
  pub >>=-step :
      {B : Type 0} (P : A → Type 0) (u : Session) (m : M A) (k : A → M B) (s s' : Session) (b : B)
      → ((a : A) (t : Session) → m s ≡ (ok a, t) → P a × (t ≡ u))
      → (m >>= k) s ≡ (ok b, s')
      → (a : A) × P a × (k a u ≡ (ok b, s'))
  >>=-step P u m k s s' b first h =
      let (a, t, e, rest) = >>=-eq-ok m k s s' b h in
      let (p, same) = first a t e in (a, p, subst (λ t. k a t ≡ (ok b, s')) same rest)

  pub >>=-statement :
      {B : Type 0} (env : Env) (f : Db → Result A × Db) (k : A → M B) (s s' : Session) (b : B)
      → (statement env f >>= k) s ≡ (ok b, s')
      → (a : A) × ((f s.db).0 ≡ ok a) × (k a (carried s (f s.db).1) ≡ (ok b, s'))
  >>=-statement env f k s s' b h =
      >>=-step (λ a. (f s.db).0 ≡ ok a) (carried s (f s.db).1) (statement env f) k s s' b
        (λ a t e. statement-carried env f s t a e) h

  -- A part that answers without a call to the database.
  pub >>=-answer :
      {B : Type 0} (g : Session → Result A) (k : A → M B) (s s' : Session) (b : B)
      → ((λ s. (g s, s)) >>= k) s ≡ (ok b, s')
      → (a : A) × (g s ≡ ok a) × (k a s ≡ (ok b, s'))
  >>=-answer g k s s' b h =
      >>=-step (λ a. g s ≡ ok a) s (λ s. (g s, s)) k s s' b
        (λ a t e.
          (ap (λ (x : Result A × Session). x.0) e, ap (λ (x : Result A × Session). x.1) (sym e)))
        h

pub >>=-return_if :
    {B : Type 0} (c : Bool) (e : Error) (k : Unit {0} → M B) (s s' : Session) (b : B)
    → (return_if c e >>= k) s ≡ (ok b, s')
    → (c ≡ false) × (k tt s ≡ (ok b, s'))
>>=-return_if c e k s s' b h =
    let (_, t, first, rest) = >>=-eq-ok (return_if c e) k s s' b h in
    let (off, same) = return_if-eq-ok c e s t tt first in
    (off, subst (λ t. k tt t ≡ (ok b, s')) same rest)
