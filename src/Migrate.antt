-- ===== src/Migrate.antt =====
-- cmd/migrate: the files of migrations, and the loop that applies them.
pub mod Files
pub mod Runner
pub mod Progress
pub mod Completion
