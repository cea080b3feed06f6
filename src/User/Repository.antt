-- ===== src/User/Repository.antt =====
-- `user.PostgresRepository` (internal/user/postgres_repository.go, migrations 002 and 004).
use fincart.Prelude.{ℕ, String, suc, Bool, Option, none, some, [], ◌∷◌, ◌++◌, not, ◌||◌, str_eq}
use fincart.Prelude.Tests.{if◌then◌else◌}
use fincart.Prelude.Int.{ℤ, pos, eqb_ℤ}
use fincart.Store.Schema.{Db}
use fincart.Store.Schema as Schema
use fincart.Store.Rows.{find_where, any_where}
use fincart.Store.Monad.{
  Result, ok, err, user_error, UserError, violation, unique, check, null_column, Env, M, statement,
}
use fincart.User.Model.{User, role_user, role_admin}

abbrev pub has_email : String → Schema.User → Bool
has_email email u = str_eq u.email email

abbrev pub has_id : ℤ → Schema.User → Bool
has_id id u = eqb_ℤ u.id id

-- The columns that the query reads; the password stays in the second result.
unfoldable pub of_row : Schema.User → User
of_row u = record {
  id = u.id;
  email = u.email;
  password_hash = "";
  role = u.role;
  created_at = u.created_at;
}

-- INSERT with the next id; a refused row has used its id up.
unfoldable pub insert_user : ℕ → String → String → String → Db → Result User × Db
unfolding of_row
insert_user now email password_hash role db =
    let row : Schema.User = record {
      id = pos (suc db.user_seq);
      email = email;
      password_hash = some password_hash;
      role = role;
      created_at = now;
    } in
    let counted = record db { user_seq = suc db.user_seq } in
    if not (str_eq role role_user || str_eq role role_admin)
    then (err (violation check), counted)
    else if any_where (has_email email) db.users
    then (err (violation unique), counted)
    else (ok (of_row row), record db { users = db.users ++ row ∷ []; user_seq = suc db.user_seq })

unfoldable pub create : Env → String → String → String → M User
unfolding insert_user
create env email password_hash role = statement env (insert_user env.now email password_hash role)

-- A row without a password cannot be scanned into a string.
unfoldable pub with_password : Schema.User → Option String → Result (User × String)
unfolding of_row
with_password u none = err null_column
with_password u (some password_hash) = ok (of_row u, password_hash)

unfoldable pub credentials : Option Schema.User → Result (User × String)
unfolding with_password
credentials none = err (user_error UserError.user_not_found)
credentials (some u) = with_password u u.password_hash

unfoldable pub get_by_email : Env → String → M (User × String)
unfolding credentials
get_by_email env email =
    statement env (λ db. (credentials (find_where (has_email email) db.users), db))

unfoldable pub role_of : Option Schema.User → Result String
role_of none = err (user_error UserError.user_not_found)
role_of (some u) = ok u.role

unfoldable pub get_role_by_id : Env → ℤ → M String
unfolding role_of
get_role_by_id env id = statement env (λ db. (role_of (find_where (has_id id) db.users), db))
