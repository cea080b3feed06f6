-- ===== src/Migrate/Runner.antt =====
-- `runMigrations` of cmd/migrate/main.go. What the migrations have made of the database is the list
-- of their texts; whether PostgreSQL accepts one more text is a parameter.
use fincart.Prelude.{ℕ, suc, String, List, [], ◌∷◌, ◌++◌, Option, none, some, Bool, not, ◌||◌}
use fincart.Prelude.Tests.{if◌then◌else◌}
use fincart.Prelude.Int.{ℤ, eqb_ℤ}
use fincart.Store.Rows.{any_where}
use fincart.Migrate.Files.{migration_info, sort_files}

-- Whether the n-th call to the database fails, whether it has been carried out all the same (for a
-- COMMIT), what the files hold, and what PostgreSQL accepts.
pub record Runner : Type 0 where
  pub fault : ℕ → Bool
  pub carried_out : ℕ → Bool
  pub read_file : String → Option String
  pub accepts : List String → String → Bool

-- The texts that were committed, the rows of schema_migrations, and the number of calls.
pub record Migrations : Type 0 where
  pub executed : List String
  pub versions : List (ℤ × String)
  pub calls : ℕ

-- The errors that `runMigrations` returns.
pub data Failure : Type 0 where
  invalid_filename query_failed unreadable begin_failed : Failure
  execute_failed record_failed commit_failed : Failure

abbrev pub called : Migrations → Migrations
called s = record s { calls = suc s.calls }

-- SELECT EXISTS (... WHERE version = $1)
unfoldable pub is_applied : ℤ → List (ℤ × String) → Bool
is_applied version = any_where (λ row. eqb_ℤ row.0 version)

-- The transaction of one migration. A rollback is a call too, and its error is ignored.
unfoldable pub apply : Runner → ℤ → String → String → Migrations → Option Failure × Migrations
apply r version name text s =
    let begun = called s in
    let ran = called begun in
    let recorded = called ran in
    let ended = called recorded in
    let migrated = record ended {
      executed = s.executed ++ text ∷ [];
      versions = s.versions ++ (version, name) ∷ [];
    } in
    if r.fault s.calls
    then (some Failure.begin_failed, begun)
    else if r.fault begun.calls || not (r.accepts s.executed text)
    then (some Failure.execute_failed, recorded)
    else if r.fault ran.calls || is_applied version s.versions
    then (some Failure.record_failed, ended)
    else if r.fault recorded.calls
    then (some Failure.commit_failed, if r.carried_out recorded.calls then migrated else ended)
    else (none, migrated)

-- A migration that is not applied yet: its file is read first.
unfoldable pub apply_file :
    Runner → ℤ → String → Option String → Migrations → Option Failure × Migrations
unfolding apply
apply_file r version name none s = (some Failure.unreadable, s)
apply_file r version name (some text) s = apply r version name text s

-- The body of the loop.
unfoldable pub run_info :
    Runner → String → Option (ℤ × String) → Migrations → Option Failure × Migrations
unfolding apply_file
run_info r file none s = (some Failure.invalid_filename, s)
run_info r file (some (version, name)) s =
    if r.fault s.calls
    then (some Failure.query_failed, called s)
    else if is_applied version s.versions
    then (none, called s)
    else apply_file r version name (r.read_file file) (called s)

unfoldable pub run_files : Runner → List String → Migrations → Option Failure × Migrations
unfolding run_info
run_files r [] s = (none, s)
run_files r (file ∷ files) s =
    let (failure, t) = run_info r file (migration_info file) s in
    let rest = run_files r files t in elim failure [ none ↦ rest | some e ↦ (some e, t) ]

-- `runMigrations`, for the files that `filepath.Glob` finds.
unfoldable pub run_migrations : Runner → List String → Migrations → Option Failure × Migrations
run_migrations r found s = run_files r (sort_files found) s
