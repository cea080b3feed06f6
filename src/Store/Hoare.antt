-- ===== src/Store/Hoare.antt =====
-- What holds of the database when a function returns without an error: rules for its parts.
use fincart.Prelude.{◌≡◌, refl, Bool, true, false, arith, ap, subst}
use fincart.Store.Schema.{Db}
use fincart.Store.Monad.{
  Error, Result, ok, err, Env, Session, M, pure, fail, ◌>>=◌, return_if, map_error, statement,
}

-- From a database with `P`, a result `a` comes with a database that has `Q a`.
pub record Triple {A : Type 0} (P : Db → Type 0) (m : M A) (Q : A → Db → Type 0) : Type 0 where
  pub holds : (s s' : Session) (a : A) → P s.db → m s ≡ (ok a, s') → Q a s'.db

>>=_split :
    {A B : Type 0} (f : A → M B) (r : Result A) (t s' : Session) (b : B)
    → ◌≡◌ {A = Result B × Session} (elim r [ ok a ↦ f a t | err e ↦ (err e, t) ]) (ok b, s')
    → (a : A) × (r ≡ ok a) × (f a t ≡ (ok b, s'))
>>=_split f (ok a) t s' b h = (a, refl, h)
>>=_split f (err e) t s' b h = cc

-- A result of a sequence comes from a result of each part.
pub >>=-eq-ok :
    {A B : Type 0} (m : M A) (f : A → M B) (s s' : Session) (b : B)
    → (m >>= f) s ≡ (ok b, s')
    → (a : A) × (t : Session) × (m s ≡ (ok a, t)) × (f a t ≡ (ok b, s'))
unfolding ◌>>=◌
>>=-eq-ok m f s s' b h =
    let (a, e, g) = >>=_split f (m s).0 (m s).1 s' b h in (a, (m s).1, λ i. (e i, (m s).1), g)

module _ {A : Type 0} where
  -- Two answers that are equal have equal values and sessions.
  pub ok_injective :
      (P : A → Db → Type 0) (s s' : Session) (a b : A)
      → ◌≡◌ {A = Result A × Session} (ok a, s) (ok b, s')
      → P a s.db
      → P b s'.db
  ok_injective P s s' a b e p =
      let ea : a ≡ b = cc in
      let es : s ≡ s' = cc in subst (λ x. P x s'.db) ea (subst (λ t. P a t.db) es p)

  pub Triple-pure :
      {P : Db → Type 0} {Q : A → Db → Type 0} (a : A)
      → ((d : Db) → P d → Q a d)
      → Triple P (pure a) Q
  unfolding pure
  Triple-pure {P} {Q} a h = record { holds = λ s s' b p e. ok_injective Q s s' a b e (h s.db p) }

  pub Triple-fail : {P : Db → Type 0} {Q : A → Db → Type 0} (e : Error) → Triple P (fail e) Q
  unfolding fail
  Triple-fail e = record { holds = λ s s' b p eq. cc }

  pub Triple->>= :
      {B : Type 0} {P : Db → Type 0} {Q : A → Db → Type 0} {R : B → Db → Type 0} {m : M A}
      {f : A → M B}
      → Triple P m Q
      → ((a : A) → Triple (Q a) (f a) R)
      → Triple P (m >>= f) R
  Triple->>= {m} {f} hm hf = record {
    holds = λ s s' b p e.
        let (a, t, em, ef) = >>=-eq-ok m f s s' b e in (hf a).holds t s' b (hm.holds s t a p em) ef;
  }

  pub Triple-weaken :
      {P P' : Db → Type 0} {Q Q' : A → Db → Type 0} {m : M A}
      → ((d : Db) → P' d → P d)
      → ((a : A) (d : Db) → Q a d → Q' a d)
      → Triple P m Q
      → Triple P' m Q'
  Triple-weaken hp hq h = record { holds = λ s s' a p e. hq a s'.db (h.holds s s' a (hp s.db p) e) }

  -- What does not speak of the database holds afterwards too.
  pub Triple-frame :
      {P : Db → Type 0} {Q : A → Db → Type 0} {R : Type 0} {m : M A}
      → Triple P m Q
      → Triple (λ d. P d × R) m (λ a d. Q a d × R)
  Triple-frame h = record { holds = λ s s' a p e. (h.holds s s' a p.0 e, p.1) }

  pub Triple-statement :
      {P : Db → Type 0} {Q : A → Db → Type 0} (env : Env) (f : Db → Result A × Db)
      → ((d d' : Db) (a : A) → P d → f d ≡ (ok a, d') → Q a d')
      → Triple P (statement env f) Q
  unfolding statement
  Triple-statement env f h = record { holds = λ s s' a p e. h s.db s'.db a p (ground arith) }

  -- A query changes nothing.
  pub Triple-query :
      {P : Db → Type 0} (env : Env) (f : Db → Result A)
      → Triple P (statement env (λ d. (f d, d))) (λ a d. P d × (f d ≡ ok a))
  unfolding statement
  Triple-query {P} env f =
      Triple-statement env (λ d. (f d, d))
        (λ d d' a p e.
          let same : d ≡ d' = ap (λ (x : Result A × Db). x.1) e in
          let answer : f d ≡ ok a = ap (λ (x : Result A × Db). x.0) e in
          subst (λ x. P x × (f x ≡ ok a)) same (p, answer))

  pub Triple-map_error :
      {P : Db → Type 0} {Q : A → Db → Type 0} {m : M A} (g : Error → Error)
      → Triple P m Q
      → Triple P (map_error g m) Q
  unfolding map_error
  Triple-map_error {m} g h = record { holds = λ s s' a p e. h.holds s s' a p (ground arith) }

pub Triple-return_if :
    {P : Db → Type 0} {Q : Unit {0} → Db → Type 0} {c : Bool} (e : Error)
    → ((d : Db) → P d → c ≡ false → Q tt d)
    → Triple P (return_if c e) Q
unfolding return_if
Triple-return_if {Q} {c = true} e h = record { holds = λ s s' a p eq. cc }
Triple-return_if {Q} {c = false} e h = record {
  holds = λ s s' a p eq. ok_injective Q s s' tt a eq (h s.db p refl);
}
