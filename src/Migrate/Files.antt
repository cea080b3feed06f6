-- ===== src/Migrate/Files.antt =====
-- The names of the migrations (`migrationInfo` of cmd/migrate/main.go), and their order.
use Prim.Native.Char.{code}
use Prim.Native.Nat.{Ordering}
use Prim.Native.String
use fincart.Prelude.{String, List, [], ◌∷◌, Option, none, some}
use fincart.Prelude.Tests.{◌==◌, if◌then◌else◌}
use fincart.Prelude.Int.{ℤ}
use fincart.Prelude.Decimal.{parse_int}

-- `filepath.Base`, for a path that does not end in a slash.
base_of : String → String → String
base_of whole String.[] = whole
base_of whole (String.◌∷◌ c s) =
    let later = base_of s s in let same = base_of whole s in if code c == b'/' then later else same

unfoldable pub base : String → String
unfolding base_of
base path = base_of path path

-- `strings.SplitN(name, "_", 2)[0]`, if there are two parts.
unfoldable pub before_underscore : String → Option String
before_underscore String.[] = none
before_underscore (String.◌∷◌ c s) =
    let rest = before_underscore s in
    if code c == b'_'
    then some ""
    else elim rest [ none ↦ none | some part ↦ some (String.◌∷◌ c part) ]

unfoldable pub version_of : Option String → Option ℤ
version_of none = none
version_of (some part) = parse_int part

-- `migrationInfo`: the version and the name, or none for either error.
unfoldable pub migration_info : String → Option (ℤ × String)
unfolding base before_underscore version_of
migration_info file = elim (version_of (before_underscore (base file))) [
  | none ↦ none
  | some version ↦ some (version, base file)
]

-- `sort.Strings`
insert_file : String → List String → List String
insert_file x [] = x ∷ []
insert_file x (y ∷ ys) =
    let rest = insert_file x ys in
    elim (String.compare x y) [ Ordering.gt ↦ y ∷ rest | _ ↦ x ∷ y ∷ ys ]

unfoldable pub sort_files : List String → List String
unfolding insert_file
sort_files [] = []
sort_files (x ∷ xs) = insert_file x (sort_files xs)
