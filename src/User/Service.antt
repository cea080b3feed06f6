-- ===== src/User/Service.antt =====
-- `user.Service` (internal/user/service.go).
use fincart.Prelude.{String, not, ◌||◌}
use fincart.Prelude.Tests.{if◌then◌else◌}
use fincart.Prelude.Texts.{Letters, to_lower, trim, is_nil}
use fincart.Store.Monad.{
  Error, Result, ok, err, user_error, UserError, Env, M, pure, fail, ◌>>=◌, ◌>>◌, return_if,
  map_error,
}
use fincart.Database.{within_transaction}
use fincart.User.Model.{User, Bcrypt, role_user}
use fincart.User.Repository

-- `strings.TrimSpace(strings.ToLower(email))`
unfoldable pub normal_email : Letters → String → String
normal_email letters email = trim (to_lower letters email)

-- The transaction of `Register`, if bcrypt gave a hash.
unfoldable pub store_user : Env → String → Result String → M User
store_user env email (err e) = fail e
store_user env email (ok password_hash) =
    within_transaction env (Repository.create env email password_hash role_user)

unfoldable pub register : Env → Letters → Bcrypt → String → String → M User
register env letters bcrypt email password s =
    let name = normal_email letters email in
    let stored = store_user env name (bcrypt.generate_from_password s.calls password) s in
    if is_nil name || is_nil password then (err (user_error UserError.invalid_user), s) else stored

-- `errors.Is(err, ErrUserNotFound)` becomes ErrInvalidCredentials.
abbrev pub hide_unknown : Error → Error
hide_unknown (user_error UserError.user_not_found) = user_error UserError.invalid_credentials
hide_unknown e = e

-- The function that `Login` runs in the transaction.
unfoldable pub login_body : Env → Bcrypt → String → String → M User
login_body env bcrypt email password = do
  (user, stored) ← map_error hide_unknown (Repository.get_by_email env email)
  return_if (not (bcrypt.compare_hash_and_password stored password))
      (user_error UserError.invalid_credentials)
  pure user

unfoldable pub login : Env → Letters → Bcrypt → String → String → M User
login env letters bcrypt email password =
    let name = normal_email letters email in
    if is_nil name || is_nil password
    then fail (user_error UserError.invalid_credentials)
    else within_transaction env (login_body env bcrypt name password)
