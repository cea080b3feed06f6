-- ===== src/Auth/Repository.antt =====
-- `auth.PostgresRefreshTokenRepository` (internal/auth/postgres_refresh_repository.go, migration 005).
use fincart.Prelude.{ℕ, String, suc, Bool, Option, none, some, [], ◌∷◌, ◌++◌, ◌&&◌, str_eq}
use fincart.Prelude.Tests.{if◌then◌else◌}
use fincart.Prelude.Int.{ℤ, pos, eqb_ℤ}
use fincart.Store.Schema.{RefreshToken, Db}
use fincart.Store.Rows.{find_where, any_where, update_where}
use fincart.Store.Monad.{
  Result, ok, err, auth_error, AuthError, violation, unique, foreign_key, Env, M, statement,
}

abbrev pub has_hash : String → RefreshToken → Bool
has_hash hash t = str_eq t.token_hash hash

-- WHERE id = ... AND revoked_at IS NULL
abbrev is_null : Option ℕ → Bool
is_null none = Bool.true
is_null (some t) = Bool.false

abbrev pub is_live : ℤ → RefreshToken → Bool
is_live id t = eqb_ℤ t.id id && is_null t.revoked_at

-- The row that an INSERT writes; its id comes from the sequence.
unfoldable pub new_row : ℕ → ℕ → ℤ → String → ℕ → RefreshToken
new_row seq now user_id token_hash expires_at = record {
  id = pos (suc seq);
  user_id = user_id;
  token_hash = token_hash;
  expires_at = expires_at;
  created_at = now;
  revoked_at = none;
}

unfoldable pub insert_token : ℕ → ℤ → String → ℕ → Db → Result (Unit {0}) × Db
unfolding new_row
insert_token now user_id token_hash expires_at db =
    let counted = record db { token_seq = suc db.token_seq } in
    if any_where (has_hash token_hash) db.tokens
    then (err (violation unique), counted)
    else if any_where (λ u. eqb_ℤ u.id user_id) db.users
    then (
      ok tt,
      record db {
        tokens = db.tokens ++ new_row db.token_seq now user_id token_hash expires_at ∷ [];
        token_seq = suc db.token_seq;
      },
    )
    else (err (violation foreign_key), counted)

unfoldable pub create : Env → ℤ → String → ℕ → M (Unit {0})
unfolding insert_token
create env user_id token_hash expires_at =
    statement env (insert_token env.now user_id token_hash expires_at)

unfoldable pub found : Option RefreshToken → Result RefreshToken
found none = err (auth_error AuthError.refresh_token_not_found)
found (some t) = ok t

unfoldable pub get_by_hash : Env → String → M RefreshToken
unfolding found
get_by_hash env hash = statement env (λ db. (found (find_where (has_hash hash) db.tokens), db))

-- UPDATE ... SET revoked_at = NOW(): no row is no error.
unfoldable pub revoke_token : ℕ → ℤ → Db → Result (Unit {0}) × Db
revoke_token now id db = (
  ok tt,
  record db {
    tokens = update_where (is_live id) (λ t. record t { revoked_at = some now }) db.tokens;
  },
)

unfoldable pub revoke : Env → ℤ → M (Unit {0})
unfolding revoke_token
revoke env id = statement env (revoke_token env.now id)
