-- ===== src/Store/Rows.antt =====
-- What a WHERE clause does to the rows of a table, for any row type and test.
pub mod Laws
pub mod Keys
pub mod Finding
use fincart.Prelude.{Bool, false, Option, none, some, List, [], ◌∷◌, ◌||◌}
use fincart.Prelude.Tests.{if◌then◌else◌}

module _ {A : Type 0} where
  -- The first row that passes: a query for at most one row.
  abbrev pub find_where : (A → Bool) → List A → Option A
  find_where p [] = none
  find_where p (x ∷ xs) = if p x then some x else find_where p xs

  -- The rows that pass.
  abbrev pub select_where : (A → Bool) → List A → List A
  select_where p [] = []
  select_where p (x ∷ xs) = let rest = select_where p xs in if p x then x ∷ rest else rest

  -- UPDATE ... WHERE
  abbrev pub update_where : (A → Bool) → (A → A) → List A → List A
  update_where p f [] = []
  update_where p f (x ∷ xs) = (if p x then f x else x) ∷ update_where p f xs

  -- DELETE ... WHERE
  abbrev pub delete_where : (A → Bool) → List A → List A
  delete_where p [] = []
  delete_where p (x ∷ xs) = let rest = delete_where p xs in if p x then rest else x ∷ rest

  -- Whether a row passes: `RowsAffected` is not 0, or a referenced row is there.
  abbrev pub any_where : (A → Bool) → List A → Bool
  any_where p [] = false
  any_where p (x ∷ xs) = p x || any_where p xs

  -- Whether an update would write a row that a CHECK refuses.
  abbrev pub any_refused : (A → Bool) → (A → Bool) → List A → Bool
  any_refused p refused [] = false
  any_refused p refused (x ∷ xs) =
      let rest = any_refused p refused xs in if p x then refused x || rest else rest
