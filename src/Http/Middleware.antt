-- ===== src/Http/Middleware.antt =====
-- What stands between the router and the handlers: `JWTManager.Middleware` (internal/auth/jwt.go),
-- `RequireRole` (internal/auth/middleware.go) and `CORS` (internal/httpserver/cors.go).
use fincart.Prelude.{String, some, not, str_eq}
use fincart.Prelude.Tests.{if◌then◌else◌}
use fincart.Auth.Tokens.{Claims}
use fincart.Auth.Access.{authenticate}
use fincart.Http.Message.{World, Request, Response, Handler, nothing, text, reply, require}

abbrev pub unauthorized : Response
unauthorized = reply 401 (text "unauthorized")

abbrev pub forbidden : Response
forbidden = reply 403 (text "forbidden")

-- The claims that go into the context: the user and the role, and nothing else.
unfoldable pub context_claims : Claims → Claims
context_claims claims = record {
  user_id = claims.user_id;
  role = claims.role;
  expires_at = 0;
  issued_at = 0;
  not_before = 0;
}

unfoldable pub with_claims : Request → Claims → Request
unfolding context_claims
with_claims r claims = record r { claims = some (context_claims claims) }

unfoldable pub middleware : World → Handler → Handler
middleware w next r s =
    require (authenticate w.auth.jwt (w.auth.clock s.calls) r.authorization) unauthorized
      (λ claims. next (with_claims r claims)) s

unfoldable pub require_role : String → Handler → Handler
require_role role next r =
    require r.claims unauthorized
      (λ claims s. if not (str_eq claims.role role) then (forbidden, s) else next r s)

-- The headers that CORS sets are left out.
unfoldable pub cors : Handler → Handler
cors next r s = if str_eq r.method "OPTIONS" then (reply 204 nothing, s) else next r s
