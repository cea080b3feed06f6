-- ===== src/Auth.antt =====
-- Package internal/auth: refresh tokens, access tokens, and the middleware that reads them.
pub mod Tokens
pub mod Repository
pub mod Service
pub mod Access
pub mod Identity
pub mod Rotation
pub mod Replay
