-- ===== src/Store.antt =====
-- The database as the repositories see it: its rows, its constraints, and one call after another.
pub mod Schema
pub mod Rows
pub mod Monad
pub mod Insert
pub mod Hoare
pub mod Inversion
pub mod Stepping
pub mod Advances
