-- ===== src/Tests/Migrations.antt =====
-- The theorems about migrations, at two files.
use fincart.Prelude.{String, List, [], ◌∷◌, ◌≡◌, refl, none, some, false, true}
use fincart.Prelude.Int.{eqb_ℤ}
use fincart.Prelude.Decimal.{parse_int}
use fincart.Prelude.Lists.{All}
use fincart.Migrate.Files.{migration_info, sort_files}
use fincart.Migrate.Runner.{Runner, Migrations, is_applied, run_info, run_files, run_migrations}
use fincart.Migrate.Progress.{Progress, run_migrations-Progress}
use fincart.Migrate.Completion.{IsRecorded, run_migrations-again}

abbrev runner : Runner
runner = record {
  fault = λ n. false;
  carried_out = λ n. false;
  read_file = λ file. some file;
  accepts = λ executed text. true;
}

abbrev found : List String
found = "migrations/002_create_orders.sql" ∷ "migrations/001_create_products.sql" ∷ []

abbrev empty : Migrations
empty = record { executed = []; versions = []; calls = 0 }

run_migrations-Progress_example : Progress runner empty (run_migrations runner found empty).1
run_migrations-Progress_example = run_migrations-Progress runner found empty

completed : (run_migrations runner found empty).0 ≡ none
unfolding run_migrations run_files run_info sort_files migration_info parse_int is_applied eqb_ℤ
completed = refl

run_migrations-again_example :
    let t = (run_migrations runner found empty).1 in
    let again = run_migrations runner found t in
    All (IsRecorded t) (sort_files found)
    × (again.0 ≡ none)
    × (again.1.executed ≡ t.executed)
    × (again.1.versions ≡ t.versions)
run_migrations-again_example = run_migrations-again runner runner found empty completed (λ n. refl)
