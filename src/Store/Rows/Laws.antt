-- ===== src/Store/Rows/Laws.antt =====
-- Queries after inserts and updates, for rows that are found by a number.
use mathlib.Core.Option
use fincart.Prelude.{
  ℕ, suc, ◌≡◌, refl, Bool, true, false, none, some, List, [], ◌∷◌, ◌++◌, ◌||◌, arith, inl, inr,
}
use fincart.Prelude.Tests.{if◌then◌else◌, Bool-cases}
use fincart.Prelude.Lists.{All}
use fincart.Prelude.Int.{ℤ, pos, ◌≤ℤ◌, eqb_ℤ, eqb_ℤ_iff}
use fincart.Store.Rows.{find_where, select_where, update_where, any_where}

module _ {A : Type 0} (key : A → ℤ) where
  abbrev pub keyed : ℤ → A → Bool
  keyed k x = eqb_ℤ (key x) k

  -- An update that keeps the keys changes the row that it names, and no other.
  pub find_where-update_where :
      (f : A → A) (id k : ℤ) (xs : List A)
      → ((x : A) → key (f x) ≡ key x)
      → find_where (keyed k) (update_where (keyed id) f xs)
        ≡ (if eqb_ℤ k id then Option.map f (find_where (keyed k) xs) else find_where (keyed k) xs)
  find_where-update_where f id k [] same = ground arith
  find_where-update_where f id k (x ∷ xs) same = ground (
    arith,
    same x,
    eqb_ℤ_iff (key x) id,
    eqb_ℤ_iff (key x) k,
    eqb_ℤ_iff k id,
    find_where-update_where f id k xs same,
  )

  pub any_where-update_where :
      (f : A → A) (id k : ℤ) (xs : List A)
      → ((x : A) → key (f x) ≡ key x)
      → any_where (keyed k) (update_where (keyed id) f xs) ≡ any_where (keyed k) xs
  any_where-update_where f id k [] same = refl
  any_where-update_where f id k (x ∷ xs) same =
      ground (arith, same x, any_where-update_where f id k xs same)

  -- A row that is there is found.
  pub find_where_of_any :
      (k : ℤ) (xs : List A)
      → any_where (keyed k) xs ≡ true
      → (x : A) × (find_where (keyed k) xs ≡ some x) × (key x ≡ k)
  find_where_of_any k [] h = cc
  find_where_of_any k (x ∷ xs) h = elim (Bool-cases (keyed k x)) [
    | inl here ↦ (x, rw here, (eqb_ℤ_iff (key x) k).0 here)
    | inr there ↦
        let (y, found, e) = find_where_of_any k xs (rw there at h) in (y, rw there found, e)
  ]

  pub find_where-key : (k : ℤ) (xs : List A) (x : A) → find_where (keyed k) xs ≡ some x → key x ≡ k
  find_where-key k [] x h = cc
  find_where-key k (y ∷ xs) x h = ground (arith, eqb_ℤ_iff (key y) k, find_where-key k xs x)

  -- Rows numbered up to n hold no row with the next number.
  pub find_where_fresh :
      (n : ℕ) (xs : List A)
      → All (λ x. key x ≤ℤ pos n) xs
      → find_where (keyed (pos (suc n))) xs ≡ none
  find_where_fresh n [] h = refl
  find_where_fresh n (x ∷ xs) h =
      ground (arith, eqb_ℤ_iff (key x) (pos (suc n)), find_where_fresh n xs h.1)

  pub find_where-append_one :
      (k : ℤ) (xs : List A) (y : A)
      → find_where (keyed k) xs ≡ none
      → find_where (keyed k) (xs ++ y ∷ []) ≡ (if eqb_ℤ (key y) k then some y else none)
  find_where-append_one k [] y h = refl
  find_where-append_one k (x ∷ xs) y h = ground (arith, find_where-append_one k xs y)

  pub find_where-append_ne :
      (k : ℤ) (xs : List A) (y : A)
      → eqb_ℤ (key y) k ≡ false
      → find_where (keyed k) (xs ++ y ∷ []) ≡ find_where (keyed k) xs
  find_where-append_ne k [] y h = rw h
  find_where-append_ne k (x ∷ xs) y h = ground (arith, find_where-append_ne k xs y h)

  pub All-update_where :
      (P : A → Type 0) (f : A → A) (p : A → Bool) (xs : List A)
      → ((x : A) → P x → P (f x))
      → All P xs
      → All P (update_where p f xs)
  All-update_where P f p [] keep h = tt
  All-update_where P f p (x ∷ xs) keep h = elim (Bool-cases (p x)) [
    | inl here ↦ (rw here (keep x h.0), All-update_where P f p xs keep h.1)
    | inr there ↦ (rw there h.0, All-update_where P f p xs keep h.1)
  ]

pub All-select_where :
    {A : Type 0} (P : A → Type 0) (p : A → Bool) (xs : List A)
    → All P xs
    → All P (select_where p xs)
All-select_where P p [] h = tt
All-select_where P p (x ∷ xs) h = elim (Bool-cases (p x)) [
  | inl here ↦ rw here (h.0, All-select_where P p xs h.1)
  | inr there ↦ rw there (All-select_where P p xs h.1)
]

module _ {A : Type 0} where
  -- What an update does to the row that a query finds, if the update keeps what the query asks for.
  pub find_where-update_found :
      (p q : A → Bool) (f : A → A) (xs : List A) (x : A)
      → ((y : A) → p (f y) ≡ p y)
      → q x ≡ true
      → find_where p xs ≡ some x
      → find_where p (update_where q f xs) ≡ some (f x)
  find_where-update_found p q f [] x same taken h = cc
  find_where-update_found p q f (y ∷ xs) x same taken h =
      ground (arith, same y, find_where-update_found p q f xs x same taken)

  pub find_where-append :
      (p : A → Bool) (xs ys : List A) (x : A)
      → find_where p xs ≡ some x
      → find_where p (xs ++ ys) ≡ some x
  find_where-append p [] ys x h = cc
  find_where-append p (y ∷ xs) ys x h = ground (arith, find_where-append p xs ys x)

  -- A row that no earlier one hides.
  pub find_where-append_last :
      (p : A → Bool) (xs : List A) (y : A)
      → any_where p xs ≡ false
      → p y ≡ true
      → find_where p (xs ++ y ∷ []) ≡ some y
  find_where-append_last p [] y h hy = rw hy refl
  find_where-append_last p (x ∷ xs) y h hy = ground (arith, find_where-append_last p xs y)

  pub any_where-append_one :
      (p : A → Bool) (xs : List A) (y : A) → any_where p (xs ++ y ∷ []) ≡ any_where p xs || p y
  any_where-append_one p [] y = ground arith
  any_where-append_one p (x ∷ xs) y = ground (arith, any_where-append_one p xs y)

  -- The row that a query finds, after an update that keeps what the query asks for.
  pub find_where_updated :
      (p q : A → Bool) (f : A → A) (xs : List A) (x : A)
      → ((y : A) → p (f y) ≡ p y)
      → find_where p xs ≡ some x
      → find_where p (update_where q f xs) ≡ some (if q x then f x else x)
  find_where_updated p q f [] x same h = cc
  find_where_updated p q f (y ∷ xs) x same h =
      ground (arith, same y, find_where_updated p q f xs x same)
