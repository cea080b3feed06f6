-- ===== src/Server.antt =====
-- The whole server over time: what any sequence of HTTP requests does to the database.
pub mod Steps
pub mod Kept
pub mod Products
pub mod Orders
pub mod Carts
pub mod Accounts
pub mod Handlers
pub mod Routes
pub mod Requests
pub mod Evolution
pub mod Lifecycle
pub mod Once
pub mod Roles
pub mod Tokens
pub mod Integrity
