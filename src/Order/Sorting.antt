-- ===== src/Order/Sorting.antt =====
-- The order in which `CreateOrder` and `Checkout` lock the products.
use mathlib.Core.List.{Perm, foldr}
use mathlib.Core.List.Perm
use fincart.Prelude.{List, [], ◌∷◌, ◌≡◌, refl, ap, sym, ◌∙◌, arith, inl, inr}
use fincart.Prelude.Tests.{Bool-cases}
use fincart.Prelude.Lists.{All, All-map}
use fincart.Prelude.Int.{ℤ, ◌≤ℤ◌, leb_ℤ, leb_ℤ_iff, leb_ℤ_false, eq_of_parts}
use fincart.Order.Quantities.{insert_id, sort_ids}

-- Each id is at most those after it.
abbrev pub Sorted : List ℤ → Type 0
Sorted [] = Unit
Sorted (a ∷ as_) = All (λ b. a ≤ℤ b) as_ × Sorted as_

insert_id_comm :
    (a b : ℤ) (xs : List ℤ) → insert_id a (insert_id b xs) ≡ insert_id b (insert_id a xs)
unfolding insert_id leb_ℤ
insert_id_comm a b [] = ground (arith, eq_of_parts a b)
insert_id_comm a b (x ∷ xs) =
    ground (arith, eq_of_parts a b, eq_of_parts a x, eq_of_parts b x, insert_id_comm a b xs)

sort_ids-foldr : (xs : List ℤ) → sort_ids xs ≡ foldr insert_id [] xs
unfolding sort_ids
sort_ids-foldr [] = refl
sort_ids-foldr (x ∷ xs) = ap (insert_id x) (sort_ids-foldr xs)

ids-IsSet : IsSet (List ℤ)
ids-IsSet = hlevel

insert_id-All : (P : ℤ → Type 0) (a : ℤ) (xs : List ℤ) → P a → All P xs → All P (insert_id a xs)
unfolding insert_id
insert_id-All P a [] p h = (p, tt)
insert_id-All P a (x ∷ xs) p h = elim (Bool-cases (leb_ℤ a x)) [
  | inl le ↦ rw le (p, h)
  | inr gt ↦ rw gt (h.0, insert_id-All P a xs p h.1)
]

insert_id-Sorted : (a : ℤ) (xs : List ℤ) → Sorted xs → Sorted (insert_id a xs)
unfolding insert_id
insert_id-Sorted a [] h = (tt, tt)
insert_id-Sorted a (x ∷ xs) h = elim (Bool-cases (leb_ℤ a x)) [
  | inl le ↦
      let le' = (leb_ℤ_iff a x).0 le in
      rw le ((le', All-map (λ b. x ≤ℤ b) (λ b. a ≤ℤ b) xs (λ b p. omega arith) h.0), h)
  | inr gt ↦
      let gt' = leb_ℤ_false a x gt in
      rw gt (insert_id-All (λ b. x ≤ℤ b) a xs (omega arith) h.0, insert_id-Sorted a xs h.1)
]

insert_id-Perm : (a : ℤ) (xs : List ℤ) → Perm (insert_id a xs) (a ∷ xs)
unfolding insert_id
insert_id-Perm a [] = Perm.refl (a ∷ [])
insert_id-Perm a (x ∷ xs) = elim (Bool-cases (leb_ℤ a x)) [
  | inl le ↦ rw le (Perm.refl (a ∷ x ∷ xs))
  | inr gt ↦ rw gt (Perm.trans (Perm.cons x (insert_id-Perm a xs)) (Perm.swap a x xs))
]

pub sort_ids-Sorted : (xs : List ℤ) → Sorted (sort_ids xs)
unfolding sort_ids
sort_ids-Sorted [] = tt
sort_ids-Sorted (x ∷ xs) = insert_id-Sorted x (sort_ids xs) (sort_ids-Sorted xs)

sort_ids-Perm : (xs : List ℤ) → Perm (sort_ids xs) xs
unfolding sort_ids
sort_ids-Perm [] = Perm.refl []
sort_ids-Perm (x ∷ xs) =
    Perm.trans (insert_id-Perm x (sort_ids xs)) (Perm.cons x (sort_ids-Perm xs))

pub sort_ids_unique : {xs ys : List ℤ} → Perm xs ys → sort_ids xs ≡ sort_ids ys
sort_ids_unique {xs} {ys} p =
    sort_ids-foldr xs
    ∙ Perm.foldr-eq ids-IsSet insert_id insert_id_comm p []
    ∙ sym (sort_ids-foldr ys)
