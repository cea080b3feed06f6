-- ===== src/User/Model.antt =====
-- `user.User` (internal/user/model.go), and what the service asks of bcrypt.
use fincart.Prelude.{ℕ, String, Bool, ◌||◌, str_eq}
use fincart.Prelude.Int.{ℤ}
use fincart.Store.Monad.{Result}

pub record User : Type 0 where
  pub id : ℤ
  pub email : String
  pub password_hash : String
  pub role : String
  pub created_at : ℕ

-- `RoleUser` and `RoleAdmin`
abbrev pub role_user : String
role_user = "user"

abbrev pub role_admin : String
role_admin = "admin"

-- `Role.IsValid`
unfoldable pub role_is_valid : String → Bool
role_is_valid role = str_eq role role_user || str_eq role role_admin

-- The library bcrypt: a hash takes a salt, so it may differ from call to call.
pub record Bcrypt : Type 0 where
  pub generate_from_password : ℕ → String → Result String
  pub compare_hash_and_password : String → String → Bool
