-- ===== src/Http/Taken.antt =====
-- What a registration with an email that is taken is answered.
use fincart.Prelude.{ℕ, String, ◌≡◌, refl, sym, subst, some, false, true, ◌||◌}
use fincart.Prelude.Texts.{is_nil}
use fincart.Store.Rows.{any_where}
use fincart.Store.Monad.{Result, ok, err, violation, unique, Session}
use fincart.Database.Atomic.{SameTables}
use fincart.User.Model.{User}
use fincart.User.Repository.{has_email}
use fincart.User.Service as Service
use fincart.User.Service.{normal_email}
use fincart.User.Uniqueness.{register-IsTaken}
use fincart.Http.Message.{World, Request, Response, user, reply, respond, require, cause}
use fincart.Http.Orders.{internal_error}
use fincart.Http.Users.{register, register_problem}

abbrev answered : (Session → Result User × Session) → Session → Response × Session
answered run = respond run (λ u. reply 201 (user u)) (λ e. register_problem (cause e))

answered_taken :
    (run : Session → Result User × Session) (s : Session)
    → (run s).0 ≡ err (violation unique)
    → SameTables s.db (run s).1.db
    → ((answered run s).0 ≡ internal_error) × SameTables s.db (answered run s).1.db
unfolding respond register_problem cause
answered_taken run s h same = (rw h refl, same)

-- With the connection up, a registration with an email that is taken, normalised as `Register` does,
-- and with a password that bcrypt hashes, is answered 500 and not with an error of its own, and
-- leaves every table as it was.
pub register-internal_error :
    (w : World) (r : Request) (s : Session) (email password hash : String)
    → ((n : ℕ) → w.env.fault n ≡ false)
    → w.decode.credentials r.body ≡ some (email, password)
    → is_nil (normal_email w.letters email) || is_nil password ≡ false
    → w.bcrypt.generate_from_password s.calls password ≡ ok hash
    → any_where (has_email (normal_email w.letters email)) s.db.users ≡ true
    → (register w r s).0 ≡ internal_error × SameTables s.db (register w r s).1.db
register-internal_error w r s email password hash fine read filled hashed taken =
    let run = Service.register w.env w.letters w.bcrypt email password in
    let (answer, same) =
      register-IsTaken w.env w.letters w.bcrypt email password hash s fine filled hashed taken in
    let asked : register w r s ≡ answered run s = unfold register require respond in rw read refl in
    subst (λ (x : Response × Session). (x.0 ≡ internal_error) × SameTables s.db x.1.db) (sym asked)
      (answered_taken run s answer same)
