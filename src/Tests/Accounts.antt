-- ===== src/Tests/Accounts.antt =====
-- The theorems about accounts, tokens and products, at the small shop.
use fincart.Prelude.{List, String, [], ◌∷◌, ◌≡◌, refl, true, some, inr, none, str_eq, subst, arith}
use fincart.Prelude.Int.{pos, eqb_ℤ, ltb_ℤ}
use fincart.Prelude.Texts.{trim, to_lower}
use fincart.Store.Schema.{RefreshToken}
use fincart.Store.Monad.{
  Result, ok, err, auth_error, AuthError, user_error, UserError, Session, statement, ◌>>=◌, pure,
  return_if, fail, map_error,
}
use fincart.Database.{finish, within_transaction}
use fincart.User.Model.{User}
use fincart.User.Repository as Users
use fincart.User.Service as Accounts
use fincart.User.Login.{SignedIn, login_lem, login-denied}
use fincart.Database.Atomic.{SameTables}
use fincart.Http.Orders.{internal_error}
use fincart.Http.Users as Handlers
use fincart.Http.Taken.{register-internal_error}
use fincart.User.Registration.{Registered, register_lem, login-register}
use fincart.Auth.Repository as Tokens
use fincart.Auth.Tokens.{time_now, generate_refresh_token, hash_refresh_token, generate_token}
use fincart.Auth.Service as Refreshing
use fincart.Auth.Rotation.{Accepted, Exchanged, refresh_lem}
use fincart.Server.Tokens.{refresh-once, revoke-ends}
use fincart.Server.Requests.{serve_all}
use fincart.Http.Message.{World, Request}
use fincart.Product.Repository.{blank_padded}
use fincart.Product.Service.{ProductRequest, is_refused}
use fincart.Product.Listing.{IsCatalog}
use fincart.Product.Catalog.{ProductCall, run, run-IsCatalog}
use fincart.Tests.Shop.{session, connected}
use fincart.Tests.World.{
  world, request, ascii, plain, counting, registered, stored_row, signed_in_session,
}

-- The session after the refresh token has been exchanged.
abbrev refreshed_session : Session
refreshed_session = record {
  db = record signed_in_session.db {
    tokens =
        record stored_row { revoked_at = some 100 }
        ∷ record {
          id = pos 2;
          user_id = pos 7;
          token_hash = "fresh";
          expires_at = 2592000000004;
          created_at = 100;
          revoked_at = none;
        }
        ∷ [];
    token_seq = 2;
  };
  calls = 6;
  charges = [];
}

first_refresh :
    Refreshing.refresh connected counting "old" signed_in_session
    ≡ (ok ("signed", "fresh"), refreshed_session)
unfolding Refreshing.refresh within_transaction finish Refreshing.refresh_body
    Refreshing.stored_token Refreshing.is_revoked Refreshing.exchange Refreshing.store_token
    Tokens.get_by_hash Tokens.found Tokens.revoke Tokens.create Users.get_role_by_id time_now
    generate_refresh_token hash_refresh_token generate_token map_error statement ◌>>=◌ pure
    return_if fail eqb_ℤ
first_refresh = refl

refresh_lem_example :
    (t : RefreshToken) × Accepted counting "old" 2 signed_in_session.db t
    × Exchanged connected counting t 2 signed_in_session.db "signed" "fresh" refreshed_session.db
refresh_lem_example =
    refresh_lem connected counting "old" "signed" "fresh" signed_in_session refreshed_session
      first_refresh

-- What comes in before the token is tried again.
abbrev meanwhile : List (World × Request)
meanwhile =
    (world, request "GET" "/api/v1/products" "")
    ∷ (world, request "POST" "/api/v1/auth/login" "")
    ∷ []

refresh-once_example :
    (Refreshing.refresh connected counting "old" (serve_all meanwhile refreshed_session)).0
    ≡ err (auth_error AuthError.refresh_token_revoked)
refresh-once_example =
    refresh-once connected connected counting "old" "signed" "fresh" signed_in_session
      refreshed_session meanwhile first_refresh (λ n. refl)

-- The session after a logout.
abbrev logged_out : Session
logged_out = record {
  db = record signed_in_session.db { tokens = record stored_row { revoked_at = some 100 } ∷ [] };
  calls = 4;
  charges = [];
}

logout : Refreshing.revoke connected counting "old" signed_in_session ≡ (ok tt, logged_out)
unfolding Refreshing.revoke within_transaction finish Refreshing.revoke_body Refreshing.stored_token
    Refreshing.is_revoked Tokens.get_by_hash Tokens.found Tokens.revoke hash_refresh_token map_error
    statement ◌>>=◌ pure fail eqb_ℤ
logout = refl

revoke-ends_example :
    (Refreshing.refresh connected counting "old" (serve_all meanwhile logged_out)).0
    ≡ err (auth_error AuthError.refresh_token_revoked)
revoke-ends_example =
    revoke-ends connected connected counting "old" signed_in_session logged_out meanwhile logout
      (λ n. refl)

sign_in :
    Accounts.login connected ascii plain " Ann@example.org" "secret" signed_in_session
    ≡ (ok (Users.of_row registered), record signed_in_session { calls = 3 })
unfolding Accounts.login Accounts.normal_email to_lower trim within_transaction finish
    Accounts.login_body Users.get_by_email Users.credentials map_error statement ◌>>=◌ pure
    return_if fail
sign_in = refl

login_lem_example :
    SignedIn ascii plain " Ann@example.org" "secret" signed_in_session.db (Users.of_row registered)
    × (signed_in_session.db ≡ signed_in_session.db)
login_lem_example =
    login_lem connected ascii plain " Ann@example.org" "secret" signed_in_session
      (record signed_in_session { calls = 3 }) (Users.of_row registered) sign_in

login-denied_example :
    (Accounts.login connected ascii plain "ann@example.org" "guess" signed_in_session).0
    ≡ err (user_error UserError.invalid_credentials)
unfolding Accounts.normal_email to_lower trim
login-denied_example =
    login-denied connected ascii plain "ann@example.org" "guess" signed_in_session (λ n. refl) refl
      (inr (registered, "secret", refl, refl, refl))

-- The test bcrypt matches its own hashes.
itself :
    (hash : String) → ◌≡◌ {A = Result String} (ok "hidden") (ok hash) → str_eq hash "hidden" ≡ true
itself hash e = let same : "hidden" ≡ hash = cc in subst (λ h. str_eq h "hidden" ≡ true) same refl

-- The session after a second customer has registered.
abbrev bob : User
bob = record {
  id = pos 8;
  email = "bob@example.org";
  password_hash = "";
  role = "user";
  created_at = 100;
}

abbrev bob_session : Session
bob_session = record {
  db = record signed_in_session.db {
    users =
        registered
        ∷ record {
          id = pos 8;
          email = "bob@example.org";
          password_hash = some "hidden";
          role = "user";
          created_at = 100;
        }
        ∷ [];
    user_seq = 8;
  };
  calls = 3;
  charges = [];
}

bob_registers :
    Accounts.register connected ascii plain "Bob@example.org" "hidden" signed_in_session
    ≡ (ok bob, bob_session)
unfolding Accounts.register Accounts.normal_email to_lower trim Accounts.store_user
    within_transaction finish Users.create Users.of_row statement fail
bob_registers = refl

register_lem_example :
    Registered connected ascii plain "Bob@example.org" "hidden" signed_in_session bob bob_session.db
register_lem_example =
    register_lem connected ascii plain "Bob@example.org" "hidden" signed_in_session bob_session bob
      bob_registers

login-register_example :
    (Accounts.login connected ascii plain "Bob@example.org" "hidden" bob_session).0 ≡ ok bob
login-register_example =
    login-register connected connected ascii plain "Bob@example.org" "hidden" signed_in_session
      bob_session bob (λ n hash e. itself hash e) bob_registers (λ n. refl)

-- A new product whose name has spaces around it.
abbrev mouse : ProductRequest
mouse = record {
  name = " Mouse ";
  description = "Wireless mouse";
  price = pos 2500;
  currency = "eur";
  stock = pos 4;
}

shop-IsCatalog : IsCatalog session.db
unfolding is_refused ltb_ℤ trim blank_padded
shop-IsCatalog = (
  (refl, omega arith, omega arith, omega arith, refl, ("EUR", refl, refl), refl, refl),
  ((refl, omega arith, omega arith, omega arith, refl, ("EUR", refl, refl), refl, refl), tt),
)

run-IsCatalog_example : IsCatalog (run connected ascii (ProductCall.create mouse) session).db
run-IsCatalog_example =
    run-IsCatalog connected ascii (ProductCall.create mouse) session shop-IsCatalog

register-internal_error_example :
    let after =
      Handlers.register world (request "POST" "/api/v1/auth/register" "") signed_in_session in
    (after.0 ≡ internal_error) × SameTables signed_in_session.db after.1.db
unfolding Accounts.normal_email to_lower trim
register-internal_error_example =
    register-internal_error world (request "POST" "/api/v1/auth/register" "") signed_in_session
      "Ann@Example.org " "secret" "secret" (λ n. refl) refl refl refl refl
