-- ===== src/Tests.antt =====
-- A small shop, and the theorems at it.
pub mod Shop
mod Orders
mod Placing
mod Carts
mod Checkouts
pub mod World
pub mod Routes
pub mod Accounts
pub mod Migrations
pub mod Server
