-- ===== src/Order/Status.antt =====
-- The statuses of an order (internal/order/status.go). The source's type is a string with seven
-- constants; `unknown` is any other text.
use fincart.Prelude.{String, Bool, true, false, ◌||◌, str_eq}
use fincart.Prelude.Tests.{if◌then◌else◌}

pub data OrderStatus : Type 0 where
  draft pending paid processing shipped completed cancelled : OrderStatus
  unknown : String → OrderStatus

-- The text of each constant.
unfoldable pub to_string : OrderStatus → String
to_string draft = "draft"
to_string pending = "pending"
to_string paid = "paid"
to_string processing = "processing"
to_string shipped = "shipped"
to_string completed = "completed"
to_string cancelled = "cancelled"
to_string (unknown s) = s

-- The conversion `OrderStatus(s)`.
unfoldable pub of_string : String → OrderStatus
of_string s =
    if str_eq s "draft"
    then draft
    else if str_eq s "pending"
    then pending
    else if str_eq s "paid"
    then paid
    else if str_eq s "processing"
    then processing
    else if str_eq s "shipped"
    then shipped
    else if str_eq s "completed"
    then completed
    else if str_eq s "cancelled"
    then cancelled
    else unknown s

-- `OrderStatus.IsValid`
unfoldable pub is_valid : OrderStatus → Bool
is_valid (unknown s) = false
is_valid _ = true

-- `==` on statuses.
unfoldable pub status_eq : OrderStatus → OrderStatus → Bool
status_eq draft draft = true
status_eq pending pending = true
status_eq paid paid = true
status_eq processing processing = true
status_eq shipped shipped = true
status_eq completed completed = true
status_eq cancelled cancelled = true
status_eq (unknown s) (unknown t) = str_eq s t
status_eq _ _ = false

-- `CanTransition`
unfoldable pub can_transition : OrderStatus → OrderStatus → Bool
unfolding status_eq
can_transition pending to = status_eq to paid || status_eq to cancelled
can_transition paid to = status_eq to processing
can_transition processing to = status_eq to shipped
can_transition shipped to = status_eq to completed
can_transition _ to = false
