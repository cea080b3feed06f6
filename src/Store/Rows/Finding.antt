-- ===== src/Store/Rows/Finding.antt =====
-- The row that a query finds, among rows with ids of their own.
use fincart.Prelude.{
  Bool, true, false, Option, some, List, [], ◌∷◌, ◌≡◌, refl, subst, ap, inl, inr, arith,
}
use fincart.Prelude.Tests.{Bool-cases}
use fincart.Prelude.Int.{ℤ, eqb_ℤ, eqb_ℤ_iff}
use fincart.Store.Rows.{find_where, update_where, any_where}
use fincart.Store.Rows.Keys.{Unlike}

module _ {A : Type 0} (p : A → Bool) where
  -- The row that a query finds passes its test, and every test that all rows pass.
  pub find_where_passes : (xs : List A) (o : A) → find_where p xs ≡ some o → p o ≡ true
  find_where_passes [] o h = cc
  find_where_passes (x ∷ xs) o h = elim (Bool-cases (p x)) [
    | inl here ↦
        let f : ◌≡◌ {A = Option A} (some x) (some o) = rw here at h in
        let e : x ≡ o = cc in subst (λ y. p y ≡ true) e here
    | inr there ↦ find_where_passes xs o (rw there at h)
  ]

  find_where_none_of :
      (q : A → Bool) (xs : List A) (o : A)
      → find_where p xs ≡ some o
      → any_where q xs ≡ false
      → q o ≡ false
  find_where_none_of q [] o h other = cc
  find_where_none_of q (x ∷ xs) o h other = elim (Bool-cases (p x)) [
    | inl here ↦
        let f : ◌≡◌ {A = Option A} (some x) (some o) = rw here at h in
        let e : x ≡ o = cc in
        let off : q x ≡ false = ground (arith, other) in subst (λ y. q y ≡ false) e off
    | inr there ↦
        let rest : any_where q xs ≡ false = ground (arith, other) in
        find_where_none_of q xs o (rw there at h) rest
  ]

  -- A row that is found in any way is found by its id.
  pub find_where_by_key :
      (key : A → ℤ) (xs : List A) (o : A)
      → Unlike (λ x y. eqb_ℤ (key x) (key y)) xs
      → find_where p xs ≡ some o
      → find_where (λ x. eqb_ℤ (key x) (key o)) xs ≡ some o
  find_where_by_key key [] o distinct h = cc
  find_where_by_key key (x ∷ xs) o distinct h = elim (Bool-cases (p x)) [
    | inl here ↦
        let f : ◌≡◌ {A = Option A} (some x) (some o) = rw here at h in
        let e : x ≡ o = cc in
        let same : eqb_ℤ (key x) (key o) ≡ true = (eqb_ℤ_iff (key x) (key o)).1 (ap key e) in
        rw same f
    | inr there ↦
        let h' : find_where p xs ≡ some o = rw there at h in
        let other = find_where_none_of (λ y. eqb_ℤ (key x) (key y)) xs o h' distinct.0 in
        rw other (find_where_by_key key xs o distinct.1 h')
  ]

  -- An update of rows that the query does not pass.
  pub find_where_untouched :
      (q : A → Bool) (f : A → A) (xs : List A)
      → ((x : A) → p x ≡ true → q x ≡ false)
      → ((x : A) → p (f x) ≡ p x)
      → find_where p (update_where q f xs) ≡ find_where p xs
  find_where_untouched q f [] apart same = refl
  find_where_untouched q f (x ∷ xs) apart same =
      ground (arith, apart x, same x, find_where_untouched q f xs apart same)

  pub any_of_find_where : (xs : List A) (o : A) → find_where p xs ≡ some o → any_where p xs ≡ true
  any_of_find_where [] o h = cc
  any_of_find_where (x ∷ xs) o h = ground (arith, any_of_find_where xs o)
