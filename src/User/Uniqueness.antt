-- ===== src/User/Uniqueness.antt =====
-- What happens to an email that is taken.
use fincart.Prelude.{ℕ, suc, String, ◌≡◌, refl, ◌∙◌, ap, sym, subst, Bool, true, false, ◌||◌}
use fincart.Prelude.Tests.{if◌then◌else◌}
use fincart.Prelude.Texts.{Letters, is_nil}
use fincart.Store.Schema.{Db}
use fincart.Store.Rows.{any_where}
use fincart.Store.Monad.{Result, ok, err, violation, unique, Env, Session}
use fincart.Store.Inversion.{statement_of_err}
use fincart.Database.Atomic.{
  SameTables, within_transaction_of_err, within_transaction_of_err-SameTables,
}
use fincart.User.Model.{User, Bcrypt, role_user}
use fincart.User.Repository as Repository
use fincart.User.Repository.{has_email, insert_user}
use fincart.User.Service.{normal_email, store_user, register}

insert_taken :
    (now : ℕ) (name hash : String) (db : Db)
    → any_where (has_email name) db.users ≡ true
    → insert_user now name hash role_user db
      ≡ (err (violation unique), record db { user_seq = suc db.user_seq })
unfolding insert_user
insert_taken now name hash db taken = rw taken refl

-- The driver's error, and the tables as they were.
abbrev pub IsTaken : Session → Result User × Session → Type 0
IsTaken s after = (after.0 ≡ err (violation unique)) × SameTables s.db after.1.db

store_user-IsTaken :
    (env : Env) (name hash : String) (s : Session)
    → ((n : ℕ) → env.fault n ≡ false)
    → any_where (has_email name) s.db.users ≡ true
    → IsTaken s (store_user env name (ok hash) s)
unfolding store_user Repository.create
store_user-IsTaken env name hash s fine taken =
    let begun : Session = record s { calls = suc s.calls } in
    let create = Repository.create env name hash role_user in
    let refused =
      statement_of_err env (insert_user env.now name hash role_user) begun (violation unique) _
        (fine begun.calls) (insert_taken env.now name hash s.db taken) in
    (
      within_transaction_of_err env create s _ (violation unique) fine refused,
      within_transaction_of_err-SameTables env create s _ (violation unique) fine refused,
    )

-- With the connection up, an email that is taken, with a password that is not empty and that bcrypt
-- hashes, is refused by the unique index: `Register` returns the driver's error and changes no table.
pub register-IsTaken :
    (env : Env) (letters : Letters) (bcrypt : Bcrypt) (email password hash : String) (s : Session)
    → ((n : ℕ) → env.fault n ≡ false)
    → is_nil (normal_email letters email) || is_nil password ≡ false
    → bcrypt.generate_from_password s.calls password ≡ ok hash
    → any_where (has_email (normal_email letters email)) s.db.users ≡ true
    → IsTaken s (register env letters bcrypt email password s)
unfolding register
register-IsTaken env letters bcrypt email password hash s fine filled hashed taken =
    let name = normal_email letters email in
    subst (IsTaken s)
      (sym (
        kept (is_nil name || is_nil password) filled _ _
        ∙ ap (λ r. store_user env name r s) hashed))
      (store_user-IsTaken env name hash s fine taken)
  where
    kept : (c : Bool) → c ≡ false → (x y : Result User × Session) → (if c then x else y) ≡ y
    kept c h x y = rw h refl
