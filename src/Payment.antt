-- ===== src/Payment.antt =====
-- Package internal/payment: the outcomes of a payment.
use fincart.Prelude.{String}

-- `payment.Result` is a string with three constants; `unknown` is any other text.
pub data PaymentResult : Type 0 where
  success failed timeout : PaymentResult
  unknown : String → PaymentResult
