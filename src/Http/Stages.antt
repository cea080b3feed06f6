-- ===== src/Http/Stages.antt =====
-- What a handler answers, from what its stages give: one lemma for each.
use fincart.Prelude.{◌≡◌, refl, Option, none, some}
use fincart.Store.Monad.{Error, Result, ok, err, Session, M}
use fincart.Http.Message.{Response, require, respond}

module _ {A : Type 0} (P : Response × Session → Type 0) where
  pub require-cases :
      (o : Option A) (response : Response) (next : A → Session → Response × Session) (s : Session)
      → (o ≡ none → P (response, s))
      → ((a : A) → o ≡ some a → P (next a s))
      → P (require o response next s)
  unfolding require
  require-cases none response next s missing found = missing refl
  require-cases (some a) response next s missing found = found a refl

  respond_split :
      (m : M A) (good : A → Response) (bad : Error → Response) (s t : Session) (x : Result A)
      → m s ≡ (x, t)
      → ((a : A) → m s ≡ (ok a, t) → P (good a, t))
      → ((e : Error) → m s ≡ (err e, t) → P (bad e, t))
      → P (elim x [ ok a ↦ good a | err e ↦ bad e ], t)
  respond_split m good bad s t (ok a) h f g = f a h
  respond_split m good bad s t (err e) h f g = g e h

  pub respond-cases :
      (m : M A) (good : A → Response) (bad : Error → Response) (s : Session)
      → ((a : A) (t : Session) → m s ≡ (ok a, t) → P (good a, t))
      → ((e : Error) (t : Session) → m s ≡ (err e, t) → P (bad e, t))
      → P (respond m good bad s)
  unfolding respond
  respond-cases m good bad s f g =
      respond_split m good bad s (m s).1 (m s).0 refl (λ a. f a (m s).1) (λ e. g e (m s).1)

module _ {A : Type 0} where
  pub require_of_some :
      (o : Option A) (response : Response) (next : A → Session → Response × Session) (s : Session)
      (a : A)
      → o ≡ some a
      → require o response next s ≡ next a s
  unfolding require
  require_of_some o response next s a h = rw h refl

  pub respond_of_ok :
      (m : M A) (good : A → Response) (bad : Error → Response) (s : Session) (a : A)
      → (m s).0 ≡ ok a
      → (respond m good bad s).0 ≡ good a
  unfolding respond
  respond_of_ok m good bad s a h = rw h refl
