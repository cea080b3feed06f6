-- ===== src/Auth/Service.antt =====
-- `auth.RefreshService` (internal/auth/refresh_service.go): refresh tokens and their rotation.
use fincart.Prelude.{String, Bool, true, false, none, some, not, ◌||◌, ◌+◌}
use fincart.Prelude.Tests.{ltb, if◌then◌else◌}
use fincart.Prelude.Int.{ℤ, is_nonpositive}
use fincart.Prelude.Texts.{is_nil}
use fincart.Store.Schema.{RefreshToken}
use fincart.Store.Monad.{
  Error, auth_error, AuthError, Env, M, pure, fail, ◌>>=◌, ◌>>◌, return_if, map_error,
}
use fincart.Database.{within_transaction}
use fincart.User.Repository as Users
use fincart.Auth.Tokens.{
  AuthEnv, time_now, generate_refresh_token, hash_refresh_token, generate_token,
  refresh_token_lifetime,
}
use fincart.Auth.Repository

-- `errors.Is(err, ErrRefreshTokenNotFound)` becomes ErrInvalidRefreshToken.
abbrev pub hide_unknown : Error → Error
hide_unknown (auth_error AuthError.refresh_token_not_found) =
    auth_error AuthError.invalid_refresh_token
hide_unknown e = e

-- A row for a new token of the user, which lives for 30 days.
unfoldable pub store_token : Env → AuthEnv → ℤ → String → M (Unit {0})
store_token env auth user_id refresh_token = do
  now ← time_now auth
  Repository.create env user_id (hash_refresh_token auth refresh_token)
      (now + refresh_token_lifetime)

-- The function that `Create` runs in the transaction.
unfoldable pub create_body : Env → AuthEnv → ℤ → String → String → M String
create_body env auth user_id role refresh_token = do
  store_token env auth user_id refresh_token
  generate_token auth user_id role

unfoldable pub create : Env → AuthEnv → ℤ → String → M (String × String)
create env auth user_id role =
    if is_nonpositive user_id || is_nil role
    then fail (auth_error AuthError.invalid_refresh_token)
    else do
      refresh_token ← generate_refresh_token auth
      access_token ← within_transaction env (create_body env auth user_id role refresh_token)
      pure (access_token, refresh_token)

-- `storedToken.RevokedAt != nil`
unfoldable pub is_revoked : RefreshToken → Bool
is_revoked t = elim t.revoked_at [ none ↦ false | some at ↦ true ]

-- The token that is stored under the hash.
unfoldable pub stored_token : Env → AuthEnv → String → M RefreshToken
stored_token env auth refresh_token =
    map_error hide_unknown (Repository.get_by_hash env (hash_refresh_token auth refresh_token))

-- The end of `Refresh`, for a token that has passed its tests.
unfoldable pub exchange : Env → AuthEnv → RefreshToken → M (String × String)
exchange env auth stored = do
  role ← Users.get_role_by_id env stored.user_id
  Repository.revoke env stored.id
  new_refresh_token ← generate_refresh_token auth
  store_token env auth stored.user_id new_refresh_token
  access_token ← generate_token auth stored.user_id role
  pure (access_token, new_refresh_token)

-- The function that `Refresh` runs in the transaction.
unfoldable pub refresh_body : Env → AuthEnv → String → M (String × String)
refresh_body env auth refresh_token = do
  stored ← stored_token env auth refresh_token
  return_if (is_revoked stored) (auth_error AuthError.refresh_token_revoked)
  now ← time_now auth
  return_if (not (ltb now stored.expires_at)) (auth_error AuthError.refresh_token_expired)
  exchange env auth stored

unfoldable pub refresh : Env → AuthEnv → String → M (String × String)
refresh env auth refresh_token =
    if is_nil refresh_token
    then fail (auth_error AuthError.invalid_refresh_token)
    else within_transaction env (refresh_body env auth refresh_token)

-- The function that `Revoke` runs in the transaction.
unfoldable pub revoke_body : Env → AuthEnv → String → M (Unit {0})
revoke_body env auth refresh_token = do
  token ← stored_token env auth refresh_token
  if is_revoked token then pure tt else Repository.revoke env token.id

unfoldable pub revoke : Env → AuthEnv → String → M (Unit {0})
revoke env auth refresh_token =
    if is_nil refresh_token
    then fail (auth_error AuthError.invalid_refresh_token)
    else within_transaction env (revoke_body env auth refresh_token)
