-- ===== src/Migrate/Completion.antt =====
-- What a run of the migrations that returns without error has done, and that another changes nothing.
use fincart.Prelude.{
  ℕ, suc, String, List, [], ◌∷◌, ◌≡◌, refl, sym, ◌∙◌, ap, subst, Option, none, some, true, false,
  arith, ◌||◌, not,
}
use fincart.Prelude.Tests.{if-cases}
use fincart.Prelude.Lists.{All}
use fincart.Prelude.Int.{ℤ, eqb_ℤ, eqb_ℤ_iff}
use fincart.Store.Rows.Laws.{any_where-append_one}
use fincart.Migrate.Files.{migration_info, sort_files}
use fincart.Migrate.Runner.{
  Runner, Migrations, Failure, called, is_applied, apply, apply_file, run_info, run_files,
  run_migrations,
}
use fincart.Migrate.Progress.{run_files-Progress, Progress-is_applied, next-cases}

-- The file's version is recorded.
abbrev pub IsRecorded : Migrations → String → Type 0
IsRecorded s file =
    (version : ℤ) × (name : String) × (migration_info file ≡ some (version, name))
    × (is_applied version s.versions ≡ true)

abbrev Records : String → Option Failure × Migrations → Type 0
Records file x = x.0 ≡ none → IsRecorded x.1 file

failed : (e : Failure) → ◌≡◌ {A = Option Failure} (some e) none → ⊥
failed e h = cc

apply-Records :
    (r : Runner) (file : String) (version : ℤ) (name text : String) (s : Migrations)
    → migration_info file ≡ some (version, name)
    → Records file (apply r version name text s)
unfolding apply is_applied
apply-Records r file version name text s info =
    if-cases (Records file) (r.fault s.calls) _ _ (λ e h. absurd (failed _ h))
      (λ begun.
        if-cases (Records file) (r.fault (suc s.calls) || not (r.accepts s.executed text)) _ _
          (λ e h. absurd (failed _ h))
          (λ ran.
            if-cases (Records file) (r.fault (suc (suc s.calls)) || is_applied version s.versions) _
              _ (λ e h. absurd (failed _ h))
              (λ recorded.
                if-cases (Records file) (r.fault (suc (suc (suc s.calls)))) _ _
                  (λ e h. absurd (failed _ h))
                  (λ committed h. (
                    version,
                    name,
                    info,
                    ground (
                      arith,
                      any_where-append_one (λ (x : ℤ × String). eqb_ℤ x.0 version) s.versions
                          (version, name),
                      eqb_ℤ_iff version version,
                    ),
                  )))))

apply_file-Records :
    (r : Runner) (file : String) (version : ℤ) (name : String) (content : Option String)
    (s : Migrations)
    → migration_info file ≡ some (version, name)
    → Records file (apply_file r version name content s)
unfolding apply_file
apply_file-Records r file version name none s info h = absurd (failed _ h)
apply_file-Records r file version name (some text) s info h =
    apply-Records r file version name text s info h

run_info-Records :
    (r : Runner) (file : String) (info : Option (ℤ × String)) (s : Migrations)
    → migration_info file ≡ info
    → Records file (run_info r file info s)
unfolding run_info
run_info-Records r file none s e h = absurd (failed _ h)
run_info-Records r file (some (version, name)) s e ended =
    if-cases (Records file) (r.fault s.calls) _ _ (λ broken h. absurd (failed _ h))
      (λ asked.
        if-cases (Records file) (is_applied version s.versions) _ _
          (λ old h. (version, name, e, old))
          (λ new. apply_file-Records r file version name (r.read_file file) (called s) e))
      ended

run_files-IsRecorded :
    (r : Runner) (files : List String) (s : Migrations)
    → (run_files r files s).0 ≡ none
    → All (IsRecorded (run_files r files s).1) files
unfolding run_files
run_files-IsRecorded r [] s h = tt
run_files-IsRecorded r (file ∷ files) s ended =
    let one = run_info r file (migration_info file) s in
    next-cases (λ x. x.0 ≡ none → All (IsRecorded x.1) (file ∷ files)) one.0 one.1
      (run_files r files one.1)
      (λ on h.
        let (version, name, info, applied) =
          run_info-Records r file (migration_info file) s refl on in
        let kept =
          Progress-is_applied r one.1 (run_files r files one.1).1 version
            (run_files-Progress r files one.1) applied in
        ((version, name, info, kept), run_files-IsRecorded r files one.1 h))
      (λ e h. absurd (failed e h)) ended

recorded_step :
    (r : Runner) (file : String) (s : Migrations)
    → r.fault s.calls ≡ false
    → IsRecorded s file
    → run_info r file (migration_info file) s ≡ (none, called s)
unfolding run_info
recorded_step r file s fine (version, name, info, applied) =
    ap (λ i. run_info r file i s) info ∙ rw (fine, applied) refl

recorded_steps :
    (r : Runner) (file : String) (files : List String) (s : Migrations)
    → r.fault s.calls ≡ false
    → IsRecorded s file
    → run_files r (file ∷ files) s ≡ run_files r files (called s)
unfolding run_files
recorded_steps r file files s fine h =
    ap
      (λ (x : Option Failure × Migrations). elim x.0 [
        | none ↦ run_files r files x.1
        | some e ↦ (some e, x.1)
      ])
      (recorded_step r file s fine h)

abbrev Unchanged : Migrations → Option Failure × Migrations → Type 0
Unchanged s x = (x.0 ≡ none) × (x.1.executed ≡ s.executed) × (x.1.versions ≡ s.versions)

-- A run that meets recorded files only.
run_files_recorded :
    (r : Runner) (files : List String) (s : Migrations)
    → ((n : ℕ) → r.fault n ≡ false)
    → All (IsRecorded s) files
    → Unchanged s (run_files r files s)
unfolding run_files
run_files_recorded r [] s fine h = (refl, refl, refl)
run_files_recorded r (file ∷ files) s fine h =
    subst (Unchanged s) (sym (recorded_steps r file files s (fine s.calls) h.0))
      (run_files_recorded r files (called s) fine h.1)

-- After a run without error each file's version is recorded, and another run over the same files
-- whose calls go through returns no error, executes nothing and records nothing.
pub run_migrations-again :
    (r later : Runner) (found : List String) (s : Migrations)
    → (run_migrations r found s).0 ≡ none
    → ((n : ℕ) → later.fault n ≡ false)
    → let t = (run_migrations r found s).1 in
      let again = run_migrations later found t in
      All (IsRecorded t) (sort_files found)
      × (again.0 ≡ none)
      × (again.1.executed ≡ t.executed)
      × (again.1.versions ≡ t.versions)
unfolding run_migrations
run_migrations-again r later found s h fine =
    let files = sort_files found in
    let all = run_files-IsRecorded r files s h in
    let (ended, texts, rows) = run_files_recorded later files (run_files r files s).1 fine all in
    (all, ended, texts, rows)
