-- ===== src/Http/Guards.antt =====
-- Which requests reach the handlers: the admin routes and the routes of a user.
use fincart.Prelude.{
  String, List, [], ◌∷◌, ◌≡◌, refl, subst, sym, ◌∙◌, ◌⊎◌, inl, inr, Option, none, some, Bool, true,
  false, str_eq,
}
use fincart.Prelude.Tests.{Option-cases}
use fincart.Store.Monad.{Session}
use fincart.Auth.Tokens.{Claims}
use fincart.Auth.Access.{authenticate}
use fincart.Http.Message.{World, Request, Response, Handler, nothing, text, require}
use fincart.Http.Middleware.{middleware, require_role, with_claims}
use fincart.Http.Mux.{split_path, match, select}
use fincart.Http.Router.{for_admins, new_router, serve}
use fincart.Http.Selecting.{Each, done, ◌▹◌, Answers, serve_each}

-- What a response shows of the shop: nothing.
unfoldable pub is_bare : Response → Bool
is_bare response = elim response.content [ nothing ↦ true | text t ↦ true | _ ↦ false ]

-- The request was turned away, with the shop as it was.
abbrev pub TurnedAway : Session → Response × Session → Type 0
TurnedAway s (response, s') = (is_bare response ≡ true) × (s' ≡ s)

middleware-TurnedAway :
    (w : World) (next : Handler) (r : Request) (s : Session)
    → ((claims : Claims)
        → authenticate w.auth.jwt (w.auth.clock s.calls) r.authorization ≡ some claims
        → TurnedAway s (next (with_claims r claims) s))
    → TurnedAway s (middleware w next r s)
unfolding middleware require is_bare
middleware-TurnedAway w next r s h =
    elim (Option-cases (authenticate w.auth.jwt (w.auth.clock s.calls) r.authorization)) [
      | inl unknown ↦ rw unknown (refl, refl)
      | inr (claims, known) ↦ rw known (h claims known)
    ]

-- Without the role of an administrator nothing behind `for_admins` is reached.
for_admins-TurnedAway :
    (w : World) (next : Handler) (r : Request) (s : Session)
    → ((claims : Claims)
        → authenticate w.auth.jwt (w.auth.clock s.calls) r.authorization ≡ some claims
        → str_eq claims.role "admin" ≡ false)
    → TurnedAway s (for_admins w next r s)
unfolding for_admins require_role require with_claims is_bare
for_admins-TurnedAway w next r s denied =
    middleware-TurnedAway w (require_role "admin" next) r s
      (λ claims known. rw (denied claims known) (refl, refl))

-- Nor is anything behind the middleware reached without a valid token.
unauthenticated :
    (w : World) (next : Handler) (r : Request) (s : Session)
    → authenticate w.auth.jwt (w.auth.clock s.calls) r.authorization ≡ none
    → TurnedAway s (middleware w next r s)
unauthenticated w next r s unknown = middleware-TurnedAway w next r s (λ claims known.
    let clash : ◌≡◌ {A = Option Claims} none (some claims) = sym unknown ∙ known in cc)

other_routes :
    (parts : List String) (r : Request) (s : Session) (status : Bool)
    → TurnedAway s (select [] parts status r s)
unfolding select is_bare
other_routes parts r s true = (refl, refl)
other_routes parts r s false = (refl, refl)

-- Nothing is reached on a path whose entries all turn the request away.
serve-TurnedAway :
    (w : World) (r : Request) (s : Session) (parts : List String)
    → split_path r.path ≡ parts
    → Each (Answers (TurnedAway s) parts r s) (new_router w)
    → TurnedAway s (serve w r s)
unfolding is_bare
serve-TurnedAway w r s parts under h =
    serve_each (TurnedAway s) w r s (λ options. (refl, refl)) (refl, refl)
      (other_routes (split_path r.path) r s)
      (subst (λ parts. Each (Answers (TurnedAway s) parts r s) (new_router w)) (sym under) h)

-- The paths below /api/v1, by their next segment.
abbrev pub below : String → List String → List String
below area rest = "" ∷ "api" ∷ "v1" ∷ area ∷ rest

module _ (w : World) (r : Request) (s : Session) (rest : List String) where
  admin_entries :
      ((claims : Claims)
        → authenticate w.auth.jwt (w.auth.clock s.calls) r.authorization ≡ some claims
        → str_eq claims.role "admin" ≡ false)
      → Each (Answers (TurnedAway s) (below "admin" rest) r s) (new_router w)
  unfolding new_router match
  admin_entries denied =
      let guarded = λ (next : Handler) (values : List (String × String)).
        for_admins-TurnedAway w next (record r { path_values = values }) s denied in
      (λ v e m. (cc))
      ▹ (λ v e m. (cc))
      ▹ (λ v e m. (cc))
      ▹ (λ v e m. (cc))
      ▹ (λ v e m. (cc))
      ▹ (λ v e m. (cc))
      ▹ (λ v e m. guarded _ v)
      ▹ (λ v e m. guarded _ v)
      ▹ (λ v e m. guarded _ v)
      ▹ (λ v e m. (cc))
      ▹ (λ v e m. (cc))
      ▹ (λ v e m. (cc))
      ▹ (λ v e m. (cc))
      ▹ (λ v e m. guarded _ v)
      ▹ (λ v e m. guarded _ v)
      ▹ (λ v e m. (cc))
      ▹ (λ v e m. (cc))
      ▹ (λ v e m. (cc))
      ▹ (λ v e m. (cc))
      ▹ (λ v e m. (cc))
      ▹ done

  order_entries :
      authenticate w.auth.jwt (w.auth.clock s.calls) r.authorization ≡ none
      → Each (Answers (TurnedAway s) (below "orders" rest) r s) (new_router w)
  unfolding new_router match
  order_entries unknown =
      let guarded = λ (next : Handler) (values : List (String × String)).
        unauthenticated w next (record r { path_values = values }) s unknown in
      (λ v e m. (cc))
      ▹ (λ v e m. (cc))
      ▹ (λ v e m. (cc))
      ▹ (λ v e m. (cc))
      ▹ (λ v e m. (cc))
      ▹ (λ v e m. (cc))
      ▹ (λ v e m. (cc))
      ▹ (λ v e m. (cc))
      ▹ (λ v e m. (cc))
      ▹ (λ v e m. guarded _ v)
      ▹ (λ v e m. guarded _ v)
      ▹ (λ v e m. guarded _ v)
      ▹ (λ v e m. guarded _ v)
      ▹ (λ v e m. (cc))
      ▹ (λ v e m. (cc))
      ▹ (λ v e m. (cc))
      ▹ (λ v e m. (cc))
      ▹ (λ v e m. (cc))
      ▹ (λ v e m. (cc))
      ▹ (λ v e m. (cc))
      ▹ done

  cart_entries :
      authenticate w.auth.jwt (w.auth.clock s.calls) r.authorization ≡ none
      → Each (Answers (TurnedAway s) (below "cart" rest) r s) (new_router w)
  unfolding new_router match
  cart_entries unknown =
      let guarded = λ (next : Handler) (values : List (String × String)).
        unauthenticated w next (record r { path_values = values }) s unknown in
      (λ v e m. (cc))
      ▹ (λ v e m. (cc))
      ▹ (λ v e m. (cc))
      ▹ (λ v e m. (cc))
      ▹ (λ v e m. (cc))
      ▹ (λ v e m. (cc))
      ▹ (λ v e m. (cc))
      ▹ (λ v e m. (cc))
      ▹ (λ v e m. (cc))
      ▹ (λ v e m. (cc))
      ▹ (λ v e m. (cc))
      ▹ (λ v e m. (cc))
      ▹ (λ v e m. (cc))
      ▹ (λ v e m. (cc))
      ▹ (λ v e m. (cc))
      ▹ (λ v e m. guarded _ v)
      ▹ (λ v e m. guarded _ v)
      ▹ (λ v e m. guarded _ v)
      ▹ (λ v e m. guarded _ v)
      ▹ (λ v e m. guarded _ v)
      ▹ done

-- Under /api/v1/admin/ a request without a valid token that names the role `admin` is turned away:
-- the response shows nothing of the shop, and no call to the database is made.
pub admin_routes-TurnedAway :
    (w : World) (r : Request) (s : Session) (rest : List String)
    → split_path r.path ≡ below "admin" rest
    → ((claims : Claims)
        → authenticate w.auth.jwt (w.auth.clock s.calls) r.authorization ≡ some claims
        → str_eq claims.role "admin" ≡ false)
    → TurnedAway s (serve w r s)
admin_routes-TurnedAway w r s rest under denied =
    serve-TurnedAway w r s (below "admin" rest) under (admin_entries w r s rest denied)

-- Under /api/v1/orders and /api/v1/cart a request without a valid token is turned away: the response
-- shows nothing of the shop, and no call to the database is made.
pub user_routes-TurnedAway :
    (w : World) (r : Request) (s : Session) (rest : List String)
    → (split_path r.path ≡ below "orders" rest) ⊎ (split_path r.path ≡ below "cart" rest)
    → authenticate w.auth.jwt (w.auth.clock s.calls) r.authorization ≡ none
    → TurnedAway s (serve w r s)
user_routes-TurnedAway w r s rest (inl under) unknown =
    serve-TurnedAway w r s (below "orders" rest) under (order_entries w r s rest unknown)
user_routes-TurnedAway w r s rest (inr under) unknown =
    serve-TurnedAway w r s (below "cart" rest) under (cart_entries w r s rest unknown)
