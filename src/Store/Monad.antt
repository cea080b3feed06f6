-- ===== src/Store/Monad.antt =====
-- A Go function that talks to the database: it threads the session and returns a value or an
-- error. Every call may fail on the wire, as the environment says.
use fincart.Prelude.{ℕ, suc, String, List, Bool}
use fincart.Prelude.Int.{ℤ}
use fincart.Payment.{PaymentResult}
use fincart.Prelude.Tests.{if◌then◌else◌}
use fincart.Store.Schema.{Db}

-- The errors of internal/order/service.go.
pub data OrderError : Type 0 where
  invalid_order insufficient_stock product_not_found different_currencies : OrderError
  order_not_found invalid_order_state : OrderError
  payment_failed payment_timeout order_forbidden : OrderError

-- The errors of internal/cart/service.go.
pub data CartError : Type 0 where
  invalid_cart cart_not_found cart_item_not_found invalid_quantity : CartError
  insufficient_stock product_not_found different_currency empty_cart : CartError

-- The errors of internal/product.
pub data ProductError : Type 0 where
  invalid_product product_not_found : ProductError

-- The errors of internal/user.
pub data UserError : Type 0 where
  invalid_credentials invalid_user user_not_found : UserError

-- The errors of internal/auth.
pub data AuthError : Type 0 where
  invalid_refresh_token refresh_token_expired refresh_token_revoked : AuthError
  refresh_token_not_found : AuthError

-- The constraints of the schema that a statement can break.
pub data Constraint : Type 0 where
  check foreign_key unique out_of_range : Constraint

-- `no_rows` is `sql.ErrNoRows`, `driver` any failure of the connection,
-- `null_column` a NULL that Scan cannot store, `library` an error of a library, and `rollback_failed` the
-- error that `WithinTransaction` wraps.
pub data Error : Type 0 where
  order_error : OrderError → Error
  cart_error : CartError → Error
  product_error : ProductError → Error
  user_error : UserError → Error
  auth_error : AuthError → Error
  no_rows driver null_column : Error
  library : String → Error
  violation : Constraint → Error
  rollback_failed : Error → Error

pub data Result (A : Type 0) : Type 0 where
  ok : A → Result A
  err : Error → Result A

-- The interface `payment.Service`: what it answers for an order's id, amount and currency.
pub record PaymentService : Type 0 where
  pub pay : ℤ → ℤ → String → Result PaymentResult

-- `payment.FakeService`
unfoldable pub fake_service : PaymentResult → PaymentService
fake_service r = record { pay = λ order_id amount currency. ok r }

-- Whether the n-th call to the database fails; whether it has been carried out all the same, which
-- only matters for a COMMIT whose answer is lost; and what NOW() returns.
pub record Env : Type 0 where
  pub fault : ℕ → Bool
  pub carried_out : ℕ → Bool
  pub now : ℕ

-- A payment that was asked for, and its outcome.
pub record Charge : Type 0 where
  pub order_id : ℤ
  pub amount : ℤ
  pub currency : String
  pub result : PaymentResult

-- What a request changes: the database, the count of its calls, and the payments made so far, the
-- latest first.
pub record Session : Type 0 where
  pub db : Db
  pub calls : ℕ
  pub charges : List Charge

abbrev pub M : Type 0 → Type 0
M A = Session → Result A × Session

module _ {A : Type 0} where
  unfoldable pub pure : A → M A
  pure a s = (ok a, s)

  unfoldable pub fail : Error → M A
  fail e s = (err e, s)

infixl 5 ◌>>=◌ ◌>>◌
unfoldable pub ◌>>=◌ : {A B : Type 0} → M A → (A → M B) → M B
◌>>=◌ m f s = let (r, s') = m s in elim r [ ok a ↦ f a s' | err e ↦ (err e, s') ]

abbrev pub ◌>>◌ : {A B : Type 0} → M A → M B → M B
m >> k = m >>= λ _. k

-- `if c { return e }`
unfoldable pub return_if : Bool → Error → M (Unit {0})
return_if c e s = (if c then err e else ok tt, s)

-- `x, err := m; if err != nil { return translate(err) }`
unfoldable pub map_error : {A : Type 0} → (Error → Error) → M A → M A
map_error f m s = let (r, s') = m s in elim r [ ok a ↦ (ok a, s') | err e ↦ (err (f e), s') ]

-- One SQL statement: the call fails, or the server runs it.
unfoldable pub statement : {A : Type 0} → Env → (Db → Result A × Db) → M A
statement env f s =
    let (r, d) = f s.db in
    if env.fault s.calls
    then (err driver, record s { calls = suc s.calls })
    else (r, record s { db = d; calls = suc s.calls })
