-- ===== src/User/Login.antt =====
-- Who can sign in.
use fincart.Prelude.{
  ℕ, suc, String, ◌≡◌, refl, sym, ◌∙◌, ap, true, false, Option, none, some, ◌||◌, not, ◌⊎◌, inl,
  inr,
}
use fincart.Prelude.Tests.{true_of_not}
use fincart.Prelude.Texts.{Letters, is_nil}
use fincart.Store.Schema as Schema
use fincart.Store.Schema.{Db}
use fincart.Store.Rows.{find_where}
use fincart.Store.Monad.{
  pure, ◌>>◌, map_error, Result, ok, err, user_error, UserError, Env, Session, return_if,
}
use fincart.Store.Inversion.{
  >>=_of_err, statement_of_err, return_if_of_false, pure-eq-ok, guard-eq-ok, guard_of_false,
  carried, >>=_of_ok, return_if_of_true, statement_of_ok,
}
use fincart.Store.Stepping.{
  map_error_of_ok, map_error_of_err, map_error-eq-ok, statement-carried, >>=-step, >>=-return_if,
}
use fincart.Database.{within_transaction}
use fincart.Database.Atomic.{
  within_transaction-eq-ok, within_transaction_of_err, within_transaction_of_ok,
}
use fincart.User.Model.{User, Bcrypt}
use fincart.User.Repository as Repository
use fincart.User.Repository.{has_email, of_row, insert_user, credentials, with_password}
use fincart.User.Service.{normal_email, hide_unknown, login_body, login}

credentials_lem :
    (o : Option Schema.User) (u : User) (hash : String)
    → credentials o ≡ ok (u, hash)
    → (row : Schema.User) × (o ≡ some row) × (row.password_hash ≡ some hash) × (u ≡ of_row row)
unfolding credentials
credentials_lem none u hash h = cc
credentials_lem (some row) u hash h =
    let (p, e) = scanned row row.password_hash u hash h in (row, refl, p, e)
  where
    scanned :
        (row : Schema.User) (password : Option String) (u : User) (hash : String)
        → with_password row password ≡ ok (u, hash)
        → (password ≡ some hash) × (u ≡ of_row row)
    scanned row none u hash h = cc
    scanned row (some p) u hash h = (cc, cc)

-- The user whom a name and a password sign in.
abbrev pub SignedIn : Letters → Bcrypt → String → String → Db → User → Type 0
SignedIn letters bcrypt email password db u =
    (row : Schema.User) × (hash : String) × (find_where (has_email (normal_email letters email))
        db.users
      ≡ some row)
    × (row.password_hash ≡ some hash)
    × (bcrypt.compare_hash_and_password hash password ≡ true)
    × (u ≡ of_row row)

login_body-eq-ok :
    (env : Env) (bcrypt : Bcrypt) (name password : String) (s s' : Session) (u : User)
    → login_body env bcrypt name password s ≡ (ok u, s')
    → (row : Schema.User) × (hash : String) × (find_where (has_email name) s.db.users ≡ some row)
      × (row.password_hash ≡ some hash)
      × (bcrypt.compare_hash_and_password hash password ≡ true)
      × (u ≡ of_row row)
      × (s'.db ≡ s.db)
unfolding login_body Repository.get_by_email
login_body-eq-ok env bcrypt name password s s' u h =
    let ((x, hash), known, h1) =
      >>=-step (λ p. credentials (find_where (has_email name) s.db.users) ≡ ok p) (carried s s.db) _
        _ s s' u (λ p t e. statement-carried env _ s t p (map_error-eq-ok hide_unknown _ s t p e))
        h in
    let (right, h2) =
      >>=-return_if (not (bcrypt.compare_hash_and_password hash password)) _ _ (carried s s.db) s' u
        h1 in
    let (same, kept) = pure-eq-ok x u (carried s s.db) s' h2 in
    let (row, found, stored, e) =
      credentials_lem (find_where (has_email name) s.db.users) x hash known in
    (
      row,
      hash,
      found,
      stored,
      true_of_not _ right,
      sym same ∙ e,
      ap (λ (s : Session). s.db) (sym kept),
    )

-- `Login` returns a user only if the row of the name, trimmed and in lower case, has a password hash
-- that bcrypt matches with the password. It changes no row.
pub login_lem :
    (env : Env) (letters : Letters) (bcrypt : Bcrypt) (email password : String) (s s' : Session)
    (u : User)
    → login env letters bcrypt email password s ≡ (ok u, s')
    → SignedIn letters bcrypt email password s.db u × (s'.db ≡ s.db)
unfolding login
login_lem env letters bcrypt email password s s' u h =
    let name = normal_email letters email in
    let (_, h0) =
      guard-eq-ok (is_nil name || is_nil password) _
        (within_transaction env (login_body env bcrypt name password)) s s' u h in
    let begun : Session = record s { calls = suc s.calls } in
    let (t, body, same, _) =
      within_transaction-eq-ok env (login_body env bcrypt name password) s s' u h0 in
    let (row, hash, found, stored, right, e, kept) =
      login_body-eq-ok env bcrypt name password begun t u body in
    ((row, hash, found, stored, right, e), same ∙ kept)

get_by_email_succeeds :
    (env : Env) (name : String) (s : Session) (row : Schema.User) (hash : String)
    → env.fault s.calls ≡ false
    → find_where (has_email name) s.db.users ≡ some row
    → row.password_hash ≡ some hash
    → Repository.get_by_email env name s ≡ (ok (of_row row, hash), carried s s.db)
unfolding Repository.get_by_email credentials with_password
get_by_email_succeeds env name s row hash fine found stored =
    statement_of_ok env _ s (of_row row, hash) s.db fine (rw (found, stored) refl)

-- The end of `Login`, once the row is known.
login_body_goes_on :
    (env : Env) (bcrypt : Bcrypt) (name password : String) (s : Session) (row : Schema.User)
    (hash : String)
    → env.fault s.calls ≡ false
    → find_where (has_email name) s.db.users ≡ some row
    → row.password_hash ≡ some hash
    → login_body env bcrypt name password s
      ≡ (return_if
              (not (bcrypt.compare_hash_and_password hash password))
              (user_error UserError.invalid_credentials)
            >> pure (of_row row))
          (carried s s.db)
unfolding login_body
login_body_goes_on env bcrypt name password s row hash fine found stored =
    >>=_of_ok (map_error hide_unknown (Repository.get_by_email env name)) _ s (carried s s.db)
      (of_row row, hash)
      (map_error_of_ok hide_unknown _ s (carried s s.db) (of_row row, hash)
        (get_by_email_succeeds env name s row hash fine found stored))

login_body_unknown :
    (env : Env) (bcrypt : Bcrypt) (name password : String) (s : Session)
    → env.fault s.calls ≡ false
    → find_where (has_email name) s.db.users ≡ none
    → login_body env bcrypt name password s
      ≡ (err (user_error UserError.invalid_credentials), carried s s.db)
unfolding login_body Repository.get_by_email credentials
login_body_unknown env bcrypt name password s fine missing =
    >>=_of_err (map_error hide_unknown (Repository.get_by_email env name)) _ s (carried s s.db)
      (user_error UserError.invalid_credentials)
      (map_error_of_err hide_unknown _ s (carried s s.db) (user_error UserError.user_not_found) (
        statement_of_err env _ s (user_error UserError.user_not_found) s.db fine (rw missing refl)))

login_body_refuses :
    (env : Env) (bcrypt : Bcrypt) (name password : String) (s : Session) (row : Schema.User)
    (hash : String)
    → env.fault s.calls ≡ false
    → find_where (has_email name) s.db.users ≡ some row
    → row.password_hash ≡ some hash
    → bcrypt.compare_hash_and_password hash password ≡ false
    → login_body env bcrypt name password s
      ≡ (err (user_error UserError.invalid_credentials), carried s s.db)
login_body_refuses env bcrypt name password s row hash fine found stored wrong =
    login_body_goes_on env bcrypt name password s row hash fine found stored
    ∙ return_if_of_true (not (bcrypt.compare_hash_and_password hash password))
        (user_error UserError.invalid_credentials) _ (carried s s.db) (rw wrong refl)

login_body_accepts :
    (env : Env) (bcrypt : Bcrypt) (name password : String) (s : Session) (row : Schema.User)
    (hash : String)
    → env.fault s.calls ≡ false
    → find_where (has_email name) s.db.users ≡ some row
    → row.password_hash ≡ some hash
    → bcrypt.compare_hash_and_password hash password ≡ true
    → login_body env bcrypt name password s ≡ (ok (of_row row), carried s s.db)
unfolding pure
login_body_accepts env bcrypt name password s row hash fine found stored right =
    login_body_goes_on env bcrypt name password s row hash fine found stored
    ∙ >>=_of_ok
        (return_if (not (bcrypt.compare_hash_and_password hash password))
          (user_error UserError.invalid_credentials))
        _ (carried s s.db) (carried s s.db) tt
        (return_if_of_false (not (bcrypt.compare_hash_and_password hash password))
          (user_error UserError.invalid_credentials) (carried s s.db) (rw right refl))

login_of_body :
    (env : Env) (letters : Letters) (bcrypt : Bcrypt) (email password : String) (s t : Session)
    (r : Result User)
    → ((n : ℕ) → env.fault n ≡ false)
    → is_nil (normal_email letters email) || is_nil password ≡ false
    → login_body env bcrypt (normal_email letters email) password (record s { calls = suc s.calls })
      ≡ (r, t)
    → (login env letters bcrypt email password s).0 ≡ r
unfolding login
login_of_body env letters bcrypt email password s t (ok u) fine filled h =
    ap (λ (x : Result User × Session). x.0)
      (guard_of_false (is_nil (normal_email letters email) || is_nil password) _
          (within_transaction env (login_body env bcrypt (normal_email letters email) password)) s
          filled
        ∙ within_transaction_of_ok env (login_body env bcrypt (normal_email letters email) password)
            s t u fine h)
login_of_body env letters bcrypt email password s t (err e) fine filled h =
    ap (λ (x : Result User × Session). x.0)
      (guard_of_false (is_nil (normal_email letters email) || is_nil password) _
        (within_transaction env (login_body env bcrypt (normal_email letters email) password)) s
        filled)
    ∙ within_transaction_of_err env (login_body env bcrypt (normal_email letters email) password) s
        t e fine h

-- With the connection up, an email that no user has and a wrong password are answered alike: `Login`
-- returns ErrInvalidCredentials for both.
pub login-denied :
    (env : Env) (letters : Letters) (bcrypt : Bcrypt) (email password : String) (s : Session)
    → ((n : ℕ) → env.fault n ≡ false)
    → is_nil (normal_email letters email) || is_nil password ≡ false
    → (find_where (has_email (normal_email letters email)) s.db.users ≡ none)
      ⊎ ((row : Schema.User) × (hash : String) × (find_where
              (has_email (normal_email letters email))
              s.db.users
            ≡ some row)
          × (row.password_hash ≡ some hash)
          × (bcrypt.compare_hash_and_password hash password ≡ false))
    → (login env letters bcrypt email password s).0 ≡ err (user_error UserError.invalid_credentials)
login-denied env letters bcrypt email password s fine filled (inl missing) =
    login_of_body env letters bcrypt email password s _ _ fine filled (
      login_body_unknown env bcrypt (normal_email letters email) password
        (record s { calls = suc s.calls }) (fine (suc s.calls)) missing)
login-denied env letters bcrypt email password s fine filled
      (inr (row, hash, found, stored, wrong)) =
    login_of_body env letters bcrypt email password s _ _ fine filled (
      login_body_refuses env bcrypt (normal_email letters email) password
        (record s { calls = suc s.calls }) row hash (fine (suc s.calls)) found stored wrong)

-- The other way round: with the connection up, the right password signs its user in.
pub login_succeeds :
    (env : Env) (letters : Letters) (bcrypt : Bcrypt) (email password : String) (s : Session)
    (row : Schema.User) (hash : String)
    → ((n : ℕ) → env.fault n ≡ false)
    → is_nil (normal_email letters email) || is_nil password ≡ false
    → find_where (has_email (normal_email letters email)) s.db.users ≡ some row
    → row.password_hash ≡ some hash
    → bcrypt.compare_hash_and_password hash password ≡ true
    → (login env letters bcrypt email password s).0 ≡ ok (of_row row)
login_succeeds env letters bcrypt email password s row hash fine filled found stored right =
    login_of_body env letters bcrypt email password s _ _ fine filled (
      login_body_accepts env bcrypt (normal_email letters email) password
        (record s { calls = suc s.calls }) row hash (fine (suc s.calls)) found stored right)
