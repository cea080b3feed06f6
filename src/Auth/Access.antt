-- ===== src/Auth/Access.antt =====
-- `JWTManager.ParseToken` and what the middleware makes of a header (internal/auth/jwt.go).
use fincart.Prelude.{ℕ, String, List, [], ◌∷◌, Option, none, some, not, ◌||◌}
use fincart.Prelude.Tests.{if◌then◌else◌}
use fincart.Prelude.Int.{is_nonpositive}
use fincart.Prelude.Texts.{is_nil, fields, equal_fold}
use fincart.Auth.Tokens.{Jwt, Claims, Unverified}

-- The tests of `ParseToken` on the claims of a token.
unfoldable pub checked : Claims → Option Claims
checked claims = if is_nonpositive claims.user_id || is_nil claims.role then none else some claims

-- The key function asks for HS256; then the library tests the signature and the times.
unfoldable pub accepted : Jwt → ℕ → String → Option Unverified → Option Claims
unfolding checked
accepted jwt now token none = none
accepted jwt now token (some unverified) =
    if not unverified.is_hs256
      || not (jwt.verifies token)
      || not (jwt.is_current now unverified.claims)
    then none
    else checked unverified.claims

-- `ParseToken`; `none` is ErrInvalidToken.
unfoldable pub parse_token : Jwt → ℕ → String → Option Claims
unfolding accepted
parse_token jwt now token = accepted jwt now token (jwt.read token)

-- Two words, the first of them "Bearer" in any case.
unfoldable pub bearer : Jwt → ℕ → List String → Option Claims
unfolding parse_token
bearer jwt now (scheme ∷ token ∷ []) =
    if not (equal_fold scheme "Bearer") then none else parse_token jwt now token
bearer jwt now _ = none

-- Who the Authorization header says is asking.
unfoldable pub authenticate : Jwt → ℕ → String → Option Claims
unfolding bearer
authenticate jwt now header = if is_nil header then none else bearer jwt now (fields header)
