-- ===== src/Migrate/Progress.antt =====
-- What a run of the migrations does, seen from outside: whole migrations, one after another.
use fincart.Prelude.{
  ℕ, suc, String, List, [], ◌∷◌, ◌++◌, ◌≡◌, refl, Option, none, some, Bool, true, false, arith, not,
  ◌||◌,
}
use fincart.Prelude.Tests.{if-cases, true_of_not}
use fincart.Prelude.Int.{ℤ, eqb_ℤ, eqb_ℤ_iff}
use fincart.Store.Rows.Laws.{any_where-append_one}
use fincart.Migrate.Files.{migration_info, sort_files}
use fincart.Migrate.Runner.{
  Runner, Migrations, Failure, called, is_applied, apply, apply_file, run_info, run_files,
  run_migrations,
}

-- A migration as a whole: a file with a version that was not applied, whose text the database
-- accepts after the texts before it.
pub data Progress (r : Runner) : Migrations → Migrations → Type 0 where
  wait : (s : Migrations) (n : ℕ) → Progress r s (record s { calls = n })
  migrate :
      (s : Migrations) (n : ℕ) (file : String) (version : ℤ) (name text : String)
      → migration_info file ≡ some (version, name)
      → r.read_file file ≡ some text
      → is_applied version s.versions ≡ false
      → r.accepts s.executed text ≡ true
      → Progress r s (record {
        executed = s.executed ++ text ∷ [];
        versions = s.versions ++ (version, name) ∷ [];
        calls = n;
      })
  both : {s t u : Migrations} → Progress r s t → Progress r t u → Progress r s u

abbrev Goes : Runner → Migrations → Option Failure × Migrations → Type 0
Goes r s x = Progress r s x.1

or_false : (b c : Bool) → b || c ≡ false → c ≡ false
or_false b c h = ground arith

apply-Progress :
    (r : Runner) (file : String) (version : ℤ) (name text : String) (s : Migrations)
    → migration_info file ≡ some (version, name)
    → r.read_file file ≡ some text
    → is_applied version s.versions ≡ false
    → Goes r s (apply r version name text s)
unfolding apply
apply-Progress r file version name text s info read new =
    if-cases (Goes r s) (r.fault s.calls) _ _ (λ broken. wait s _)
      (λ begun.
        if-cases (Goes r s) (r.fault (suc s.calls) || not (r.accepts s.executed text)) _ _
          (λ refused. wait s _)
          (λ ran.
            if-cases (Goes r s) (r.fault (suc (suc s.calls)) || is_applied version s.versions) _ _
              (λ unrecorded. wait s _)
              (λ recorded.
                let migrated = migrate s _ file version name text info read new (
                  true_of_not (r.accepts s.executed text)
                    (or_false (r.fault (suc s.calls)) _ ran)) in
                if-cases (Goes r s) (r.fault (suc (suc (suc s.calls)))) _ _
                  (λ unanswered.
                    if-cases (Progress r s) (r.carried_out (suc (suc (suc s.calls)))) _ _
                      (λ done. migrated) (λ lost. wait s _))
                  (λ committed. migrated))))

apply_file-Progress :
    (r : Runner) (file : String) (version : ℤ) (name : String) (content : Option String)
    (s : Migrations)
    → migration_info file ≡ some (version, name)
    → r.read_file file ≡ content
    → is_applied version s.versions ≡ false
    → Goes r s (apply_file r version name content s)
unfolding apply_file
apply_file-Progress r file version name none s info read new = wait s s.calls
apply_file-Progress r file version name (some text) s info read new =
    apply-Progress r file version name text s info read new

pub run_info-Progress :
    (r : Runner) (file : String) (info : Option (ℤ × String)) (s : Migrations)
    → migration_info file ≡ info
    → Goes r s (run_info r file info s)
unfolding run_info
run_info-Progress r file none s e = wait s s.calls
run_info-Progress r file (some (version, name)) s e =
    if-cases (Goes r s) (r.fault s.calls) _ _ (λ broken. wait s _)
      (λ asked.
        if-cases (Goes r s) (is_applied version s.versions) _ _ (λ old. wait s _)
          (λ new.
            both (wait s (suc s.calls))
              (apply_file-Progress r file version name (r.read_file file) (called s) e refl new)))

-- The loop goes on with the next file, or stops at a failure.
pub next-cases :
    (P : Option Failure × Migrations → Type 0) (failure : Option Failure) (t : Migrations)
    (rest : Option Failure × Migrations)
    → (failure ≡ none → P rest)
    → ((e : Failure) → P (some e, t))
    → P (elim failure [ none ↦ rest | some e ↦ (some e, t) ])
next-cases P none t rest h k = h refl
next-cases P (some e) t rest h k = k e

pub run_files-Progress :
    (r : Runner) (files : List String) (s : Migrations) → Goes r s (run_files r files s)
unfolding run_files
run_files-Progress r [] s = wait s s.calls
run_files-Progress r (file ∷ files) s =
    let one = run_info r file (migration_info file) s in
    let first = run_info-Progress r file (migration_info file) s refl in
    next-cases (Goes r s) one.0 one.1 (run_files r files one.1)
      (λ on. both first (run_files-Progress r files one.1)) (λ e. first)

-- A run of the migrations, wherever it fails, has committed whole migrations only, one after another,
-- each with a version that was not recorded before and with its row.
pub run_migrations-Progress :
    (r : Runner) (found : List String) (s : Migrations) → Progress r s (run_migrations r found s).1
unfolding run_migrations
run_migrations-Progress r found s = run_files-Progress r (sort_files found) s

-- No version is recorded twice.
abbrev pub IsDistinct : List (ℤ × String) → Type 0
IsDistinct [] = Unit
IsDistinct (row ∷ rows) = (is_applied row.0 rows ≡ false) × IsDistinct rows

append-IsDistinct :
    (version : ℤ) (name : String) (rows : List (ℤ × String))
    → IsDistinct rows
    → is_applied version rows ≡ false
    → IsDistinct (rows ++ (version, name) ∷ [])
unfolding is_applied
append-IsDistinct version name [] h new = (refl, tt)
append-IsDistinct version name (row ∷ rows) h new = (
  ground (
    arith,
    any_where-append_one (λ (x : ℤ × String). eqb_ℤ x.0 row.0) rows (version, name),
    eqb_ℤ_iff version row.0,
    eqb_ℤ_iff row.0 version,
  ),
  append-IsDistinct version name rows h.1 (ground arith),
)

pub Progress-IsDistinct :
    (r : Runner) (s t : Migrations) → Progress r s t → IsDistinct s.versions → IsDistinct t.versions
Progress-IsDistinct r s _ (wait _ n) h = h
Progress-IsDistinct r s _ (migrate _ n file version name text info read new accepted) h =
    append-IsDistinct version name s.versions h new
Progress-IsDistinct r s u (both {t = t} p q) h =
    Progress-IsDistinct r t u q (Progress-IsDistinct r s t p h)

-- What is recorded stays recorded.
pub Progress-is_applied :
    (r : Runner) (s t : Migrations) (version : ℤ)
    → Progress r s t
    → is_applied version s.versions ≡ true
    → is_applied version t.versions ≡ true
unfolding is_applied
Progress-is_applied r s _ version (wait _ n) h = h
Progress-is_applied r s _ version (migrate _ n file v name text info read new accepted) h =
    ground
      (arith, any_where-append_one (λ (x : ℤ × String). eqb_ℤ x.0 version) s.versions (v, name))
Progress-is_applied r s u version (both {t = t} p q) h =
    Progress-is_applied r t u version q (Progress-is_applied r s t version p h)

-- A run of the migrations, wherever it fails, records no version twice if none was before.
pub run_migrations-IsDistinct :
    (r : Runner) (found : List String) (s : Migrations)
    → IsDistinct s.versions
    → IsDistinct (run_migrations r found s).1.versions
run_migrations-IsDistinct r found s h =
    Progress-IsDistinct r s (run_migrations r found s).1 (run_migrations-Progress r found s) h
