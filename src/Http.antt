-- ===== src/Http.antt =====
-- The HTTP side: requests, the handlers of the packages, and the router.
pub mod Message
pub mod Orders
pub mod Carts
pub mod Products
pub mod Users
pub mod Middleware
pub mod Context
pub mod Mux
pub mod Router
pub mod Stages
pub mod Selecting
pub mod Guards
pub mod Taken
pub mod Paying
pub mod Paid
