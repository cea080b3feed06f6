-- ===== src/Http/Message.antt =====
-- Requests and responses as the handlers use them, and what the program takes from outside.
use fincart.Prelude.{ℕ, String, List, [], ◌∷◌, Option, none, some, str_eq}
use fincart.Prelude.Tests.{if◌then◌else◌}
use fincart.Prelude.Int.{ℤ, is_nonpositive}
use fincart.Prelude.Texts.{Letters}
use fincart.Prelude.Decimal.{parse_int}
use fincart.Store.Schema.{Product, Order, OrderItem}
use fincart.Store.Monad.{Error, ok, err, rollback_failed, PaymentService, Env, Session, M}
use fincart.Order.Quantities.{CreateOrderItem}
use fincart.Product.Service.{ProductRequest}
use fincart.Cart.Model.{Cart}
use fincart.User.Model.{User, Bcrypt}
use fincart.Auth.Tokens.{Claims, AuthEnv}

-- What `json.Decoder` makes of a body for each request type; `none` is an error.
pub record Decoder : Type 0 where
  pub create_order : String → Option (List CreateOrderItem)
  pub update_order_status : String → Option String
  pub add_item : String → Option (ℤ × ℤ)
  pub update_item : String → Option ℤ
  pub product : String → Option ProductRequest
  pub credentials : String → Option (String × String)
  pub refresh_token : String → Option String

-- What `main` puts together, with what comes from outside of the program.
pub record World : Type 0 where
  pub env : Env
  pub letters : Letters
  pub bcrypt : Bcrypt
  pub auth : AuthEnv
  pub payment : PaymentService
  pub decode : Decoder

-- `http.Request`: the values of the pattern's wildcards and the claims in the context are empty
-- until the router and the middleware fill them in. `user_id` and `role` are what the context has
-- under the two keys of internal/auth/context.go.
pub record Request : Type 0 where
  pub method : String
  pub path : String
  pub authorization : String
  pub body : String
  pub path_values : List (String × String)
  pub claims : Option Claims
  pub user_id : Option ℤ
  pub role : Option String

-- `r.PathValue(name)`
unfoldable pub value_in : String → List (String × String) → String
value_in name [] = ""
value_in name ((n, v) ∷ values) = if str_eq n name then v else value_in name values

abbrev pub path_value : Request → String → String
path_value r name = value_in name r.path_values

-- What a response carries: `problem` is {"error": ...}, `text` what http.Error writes.
pub data Content : Type 0 where
  nothing : Content
  problem text : String → Content
  product : Product → Content
  products : List Product → Content
  order : Order → Content
  order_with_items : Order → List OrderItem → Content
  orders : List Order → Content
  cart : Cart → Content
  user : User → Content
  signed_in : User → String → String → Content
  tokens : String → String → Content

pub record Response : Type 0 where
  pub status : ℕ
  pub content : Content

abbrev pub Handler : Type 0
Handler = Request → Session → Response × Session

abbrev pub reply : ℕ → Content → Response
reply status content = record { status = status; content = content }

-- The service is called, and its value or its error answered.
unfoldable pub respond :
    {A : Type 0} → M A → (A → Response) → (Error → Response) → Session → Response × Session
respond m good bad s = let (r, s') = m s in (elim r [ ok a ↦ good a | err e ↦ bad e ], s')

-- `errors.Is` looks through the error that `WithinTransaction` wraps.
unfoldable pub cause : Error → Error
cause (rollback_failed e) = cause e
cause e = e

-- A value that a handler needs, or the response without it.
unfoldable pub require :
    {A : Type 0}
    → Option A
    → Response
    → (A → Session → Response × Session)
    → Session
    → Response × Session
require none response next s = (response, s)
require (some a) response next s = next a s

-- `strconv.ParseInt`, and the test for `<= 0`.
unfoldable pub positive_id : Option ℤ → Option ℤ
positive_id none = none
positive_id (some n) = if is_nonpositive n then none else some n

unfoldable pub parse_id : String → Option ℤ
unfolding positive_id
parse_id s = positive_id (parse_int s)
