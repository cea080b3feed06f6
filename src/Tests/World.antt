-- ===== src/Tests/World.antt =====
-- The small shop behind the router: one customer who is signed in, and an administrator.
use fincart.Prelude.{String, true, none, some, Option, [], ◌∷◌, str_eq}
use fincart.Prelude.Tests.{ltb, if◌then◌else◌}
use fincart.Prelude.Int.{pos}
use fincart.Prelude.Texts.{Letters}
use fincart.Payment.{success}
use fincart.Store.Schema.{User, RefreshToken}
use fincart.Store.Monad.{ok, Session, fake_service}
use fincart.User.Model.{Bcrypt}
use fincart.Auth.Tokens.{Claims, Jwt, AuthEnv}
use fincart.Http.Message.{Decoder, World, Request}
use fincart.Tests.Shop.{shop, connected, customer}

abbrev pub ascii : Letters
ascii = record { upper = λ c. c; lower = λ c. c }

-- A hash that is the password itself.
abbrev pub plain : Bcrypt
plain = record {
  generate_from_password = λ n password. ok password;
  compare_hash_and_password = λ hash password. str_eq hash password;
}

abbrev pub ann : Claims
ann = record { user_id = pos 7; role = "user"; expires_at = 50; issued_at = 0; not_before = 0 }

abbrev pub one_token : Jwt
one_token = record {
  sign = λ claims. ok "signed";
  read = λ token.
      if str_eq token "signed" then some (record { is_hs256 = true; claims = ann }) else none;
  verifies = λ token. true;
  is_current = λ now claims. ltb now claims.expires_at;
}

abbrev pub counting : AuthEnv
counting = record {
  random = λ n. ok "fresh";
  clock = λ n. n;
  digest = λ token. token;
  jwt = one_token;
}

abbrev pub sign_in_body : String → Option (String × String)
sign_in_body body = some ("Ann@Example.org ", "secret")

abbrev pub decoder : Decoder
decoder = record {
  create_order = λ body. none;
  update_order_status = λ body. none;
  add_item = λ body. none;
  update_item = λ body. none;
  product = λ body. none;
  credentials = sign_in_body;
  refresh_token = λ body. some body;
}

abbrev pub world : World
world = record {
  env = connected;
  letters = ascii;
  bcrypt = plain;
  auth = counting;
  payment = fake_service success;
  decode = decoder;
}

abbrev pub request : String → String → String → Request
request method path authorization = record {
  method = method;
  path = path;
  authorization = authorization;
  body = "";
  path_values = [];
  claims = none;
  user_id = none;
  role = none;
}

-- The customer with a password, and a refresh token that is good until 90.
abbrev pub registered : User
registered = record customer { password_hash = some "secret" }

abbrev pub stored_row : RefreshToken
stored_row = record {
  id = pos 1;
  user_id = pos 7;
  token_hash = "old";
  expires_at = 90;
  created_at = 0;
  revoked_at = none;
}

abbrev pub signed_in_session : Session
signed_in_session = record {
  db = record shop { users = registered ∷ []; tokens = stored_row ∷ []; token_seq = 1 };
  calls = 0;
  charges = [];
}
