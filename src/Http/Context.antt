-- ===== src/Http/Context.antt =====
-- The context keys of internal/auth/context.go, and `AdminMiddleware` (internal/auth/admin.go) that
-- reads one of them. The router uses neither.
use fincart.Prelude.{String, Option, none, some, ◌≡◌, ◌⊎◌, refl, inl, inr, not, str_eq}
use fincart.Prelude.Tests.{if◌then◌else◌}
use fincart.Prelude.Int.{ℤ}
use fincart.Store.Monad.{Session}
use fincart.Auth.Access.{authenticate}
use fincart.Http.Message.{World, Request, Handler}
use fincart.Http.Stages.{require-cases}
use fincart.Http.Middleware.{unauthorized, forbidden, middleware, with_claims}

-- `WithUserID` and `WithRole`
unfoldable pub with_user_id : Request → ℤ → Request
with_user_id r user_id = record r { user_id = some user_id }

unfoldable pub with_role : Request → String → Request
with_role r role = record r { role = some role }

-- `UserIDFromContext` and `RoleFromContext`
unfoldable pub user_id_from_context : Request → Option ℤ
user_id_from_context r = r.user_id

unfoldable pub role_from_context : Request → Option String
role_from_context r = r.role

-- `role, ok := ...; if !ok || role != "admin"`
unfoldable pub admin_middleware : Handler → Handler
unfolding role_from_context
admin_middleware next r s = elim (role_from_context r) [
  | none ↦ (forbidden, s)
  | some role ↦ if not (str_eq role "admin") then (forbidden, s) else next r s
]

-- What the middleware passes on has claims, and no role under the key of context.go.
admin_middleware_closed :
    (next : Handler) (r : Request) (s : Session)
    → r.role ≡ none
    → admin_middleware next r s ≡ (forbidden, s)
unfolding admin_middleware
admin_middleware_closed next r s h = rw h refl

-- Behind `Middleware`, `AdminMiddleware` turns every request away that came with no role in its
-- context, whatever its token says and whichever handler stands behind: the answer is 401 or 403, and
-- the session is as it was.
pub middleware-admin_middleware :
    (w : World) (next : Handler) (r : Request) (s : Session)
    → r.role ≡ none
    → (middleware w (admin_middleware next) r s ≡ (unauthorized, s))
      ⊎ (middleware w (admin_middleware next) r s ≡ (forbidden, s))
unfolding middleware with_claims
middleware-admin_middleware w next r s h =
    require-cases (λ x. (x ≡ (unauthorized, s)) ⊎ (x ≡ (forbidden, s)))
      (authenticate w.auth.jwt (w.auth.clock s.calls) r.authorization) unauthorized
      (λ claims. admin_middleware next (with_claims r claims)) s (λ missing. inl refl)
      (λ claims known. inr (admin_middleware_closed next (with_claims r claims) s h))
