-- ===== src/User/Registration.antt =====
-- Who can register, and that they can sign in afterwards.
use fincart.Prelude.{
  ℕ, suc, String, [], ◌∷◌, ◌++◌, ◌≡◌, refl, sym, ◌∙◌, ap, true, false, some, ◌||◌, inl, inr,
  str_eq_iff,
}
use fincart.Prelude.Tests.{Bool-cases}
use fincart.Prelude.Int.{pos}
use fincart.Prelude.Texts.{Letters, is_nil}
use fincart.Store.Schema as Schema
use fincart.Store.Schema.{Db}
use fincart.Store.Rows.{find_where, any_where}
use fincart.Store.Rows.Laws.{find_where-append_last}
use fincart.Store.Monad.{
  Result, ok, err, user_error, UserError, violation, unique, Env, Session, fail,
}
use fincart.Store.Inversion.{statement-eq-ok, ok_value}
use fincart.Database.Atomic.{within_transaction-eq-ok}
use fincart.User.Model.{User, Bcrypt, role_user}
use fincart.User.Repository as Repository
use fincart.User.Repository.{has_email, of_row, insert_user}
use fincart.User.Service.{normal_email, store_user, register, login}
use fincart.User.Login.{login_succeeds}

-- The row that `Register` writes.
abbrev pub new_user : ℕ → String → String → Db → Schema.User
new_user now name hash db = record {
  id = pos (suc db.user_seq);
  email = name;
  password_hash = some hash;
  role = role_user;
  created_at = now;
}

abbrev pub with_user : Schema.User → Db → Db
with_user row db = record db { users = db.users ++ row ∷ []; user_seq = suc db.user_seq }

insert_user_lem :
    (now : ℕ) (name hash : String) (db d : Db) (u : User)
    → insert_user now name hash role_user db ≡ (ok u, d)
    → (any_where (has_email name) db.users ≡ false)
      × (u ≡ of_row (new_user now name hash db))
      × (d ≡ with_user (new_user now name hash db) db)
unfolding insert_user of_row
insert_user_lem now name hash db d u h = elim (Bool-cases (any_where (has_email name) db.users)) [
  | inl taken ↦
      let clash : ◌≡◌ {A = Result User × Db}
          (err (violation unique), record db { user_seq = suc db.user_seq }) (ok u, d) =
        (rw taken at h) in
      cc
  | inr unused ↦
      let e : ◌≡◌ {A = Result User × Db}
          (ok (of_row (new_user now name hash db)), with_user (new_user now name hash db) db)
          (ok u, d) =
        (rw unused at h) in
      (
        unused,
        ok_value u _ (sym (ap (λ (x : Result User × Db). x.0) e)),
        sym (ap (λ (x : Result User × Db). x.1) e),
      )
]

store_user-eq-ok :
    (env : Env) (name : String) (r : Result String) (s s' : Session) (u : User)
    → store_user env name r s ≡ (ok u, s')
    → (hash : String) × (r ≡ ok hash)
      × (any_where (has_email name) s.db.users ≡ false)
      × (u ≡ of_row (new_user env.now name hash s.db))
      × (s'.db ≡ with_user (new_user env.now name hash s.db) s.db)
unfolding store_user fail Repository.create
store_user-eq-ok env name (err e) s s' u h = cc
store_user-eq-ok env name (ok hash) s s' u h =
    let (t, body, same, _) =
      within_transaction-eq-ok env (Repository.create env name hash role_user) s s' u h in
    let begun : Session = record s { calls = suc s.calls } in
    let (written, _) =
      statement-eq-ok env (insert_user env.now name hash role_user) begun t u body in
    let (unused, e, after) = insert_user_lem env.now name hash s.db t.db u written in
    (hash, refl, unused, e, same ∙ after)

-- What a registration has done.
abbrev pub Registered : Env → Letters → Bcrypt → String → String → Session → User → Db → Type 0
Registered env letters bcrypt email password s u db =
    let name = normal_email letters email in
    (hash : String) × (is_nil name || is_nil password ≡ false)
    × (bcrypt.generate_from_password s.calls password ≡ ok hash)
    × (any_where (has_email name) s.db.users ≡ false)
    × (u ≡ of_row (new_user env.now name hash s.db))
    × (db ≡ with_user (new_user env.now name hash s.db) s.db)

-- `Register` returns a user only for an email, trimmed and in lower case, and a password that are not
-- empty, if no user has that email yet. It has then added one user with the role `user`, that email
-- and bcrypt's hash of the password.
pub register_lem :
    (env : Env) (letters : Letters) (bcrypt : Bcrypt) (email password : String) (s s' : Session)
    (u : User)
    → register env letters bcrypt email password s ≡ (ok u, s')
    → Registered env letters bcrypt email password s u s'.db
unfolding register
register_lem env letters bcrypt email password s s' u h =
    elim (Bool-cases (is_nil (normal_email letters email) || is_nil password)) [
      | inl empty ↦
          let clash : ◌≡◌ {A = Result User × Session} (err (user_error UserError.invalid_user), s)
              (ok u, s') =
            (rw empty at h) in
          cc
      | inr filled ↦
          let (hash, hashed, unused, e, after) =
            store_user-eq-ok env (normal_email letters email)
              (bcrypt.generate_from_password s.calls password) s s' u (rw filled at h) in
          (hash, filled, hashed, unused, e, after)
    ]

-- With the connection up, who has registered can sign in with the same email and password, provided
-- that bcrypt matches its own hashes.
pub login-register :
    (env later : Env) (letters : Letters) (bcrypt : Bcrypt) (email password : String)
    (s s' : Session) (u : User)
    → ((n : ℕ) (hash : String)
        → bcrypt.generate_from_password n password ≡ ok hash
        → bcrypt.compare_hash_and_password hash password ≡ true)
    → register env letters bcrypt email password s ≡ (ok u, s')
    → ((n : ℕ) → later.fault n ≡ false)
    → (login later letters bcrypt email password s').0 ≡ ok u
login-register env later letters bcrypt email password s s' u matches h fine =
    let (hash, filled, hashed, unused, e, after) =
      register_lem env letters bcrypt email password s s' u h in
    let name = normal_email letters email in
    let row = new_user env.now name hash s.db in
    login_succeeds later letters bcrypt email password s' row hash fine filled
      (ap (λ (db : Db). find_where (has_email name) db.users) after
        ∙ find_where-append_last (has_email name) s.db.users row unused
            ((str_eq_iff name name).1 refl))
      refl (matches s.calls hash hashed)
    ∙ ap ok (sym e)
