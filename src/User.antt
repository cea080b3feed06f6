-- ===== src/User.antt =====
-- Package internal/user: the statements on users, registration and login.
pub mod Model
pub mod Repository
pub mod Service
pub mod Login
pub mod Registration
pub mod Uniqueness
