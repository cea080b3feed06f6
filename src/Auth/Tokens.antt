-- ===== src/Auth/Tokens.antt =====
-- What package internal/auth takes from the libraries: random bytes, SHA-256 and base64, the clock,
-- and the JWT library. Times are counted in microseconds, as the columns are.
use fincart.Prelude.{ℕ, String, Bool, Option, ◌+◌}
use fincart.Prelude.Int.{ℤ}
use fincart.Store.Monad.{Result, M}

-- `auth.Claims`; the last three are the registered claims.
pub record Claims : Type 0 where
  pub user_id : ℤ
  pub role : String
  pub expires_at : ℕ
  pub issued_at : ℕ
  pub not_before : ℕ

-- What the JWT library finds in a text: whether its header names HS256, and its claims.
pub record Unverified : Type 0 where
  pub is_hs256 : Bool
  pub claims : Claims

-- `sign` and `verifies` have the secret; `is_current` is the library's test of exp and nbf.
pub record Jwt : Type 0 where
  pub sign : Claims → Result String
  pub read : String → Option Unverified
  pub verifies : String → Bool
  pub is_current : ℕ → Claims → Bool

-- The random source and the clock answer by the number of calls made before. `random` is 32 random
-- bytes in base64, `digest` SHA-256 in base64.
pub record AuthEnv : Type 0 where
  pub random : ℕ → Result String
  pub clock : ℕ → ℕ
  pub digest : String → String
  pub jwt : Jwt

-- `time.Now()`, `generateRefreshToken` and `hashRefreshToken`
unfoldable pub time_now : AuthEnv → M ℕ
time_now auth s = (Result.ok (auth.clock s.calls), s)

unfoldable pub generate_refresh_token : AuthEnv → M String
generate_refresh_token auth s = (auth.random s.calls, s)

unfoldable pub hash_refresh_token : AuthEnv → String → String
hash_refresh_token auth token = auth.digest token

-- `refreshTokenLifetime` and the 15 minutes of an access token.
abbrev pub refresh_token_lifetime : ℕ
refresh_token_lifetime = 2592000000000

abbrev pub access_token_lifetime : ℕ
access_token_lifetime = 900000000

-- `GenerateToken`
unfoldable pub claims_for : ℤ → String → ℕ → Claims
claims_for user_id role now = record {
  user_id = user_id;
  role = role;
  expires_at = now + access_token_lifetime;
  issued_at = now;
  not_before = now;
}

unfoldable pub generate_token : AuthEnv → ℤ → String → M String
unfolding claims_for
generate_token auth user_id role s =
    (auth.jwt.sign (claims_for user_id role (auth.clock s.calls)), s)
