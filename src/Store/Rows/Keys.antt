-- ===== src/Store/Rows/Keys.antt =====
-- Rows that no two of which clash, as unique indexes have it, and the ids that a sequence gives out.
use fincart.Prelude.{
  ℕ, suc, Bool, true, false, List, [], ◌∷◌, ◌++◌, ◌≡◌, refl, ◌≤◌, inl, inr, arith, Option, some,
  sym, subst, ◌∙◌,
}
use fincart.Prelude.Tests.{if◌then◌else◌, Bool-cases}
use fincart.Prelude.Lists.{All, All-append, All-map}
use fincart.Prelude.Int.{ℤ, pos, ◌≤ℤ◌, eqb_ℤ, eqb_ℤ_iff}
use fincart.Store.Rows.{find_where, update_where, delete_where, any_where}
use fincart.Store.Rows.Laws.{any_where-append_one}

true_not_false : true ≡ false → ⊥
true_not_false h = cc

module _ {A : Type 0} where
  pub any_where-delete_where :
      (q p : A → Bool) (xs : List A)
      → any_where q xs ≡ false
      → any_where q (delete_where p xs) ≡ false
  any_where-delete_where q p [] h = h
  any_where-delete_where q p (x ∷ xs) h = ground (arith, any_where-delete_where q p xs)

  pub any_where-none :
      (q : A → Bool) → ((x : A) → q x ≡ false) → (xs : List A) → any_where q xs ≡ false
  any_where-none q none [] = refl
  any_where-none q none (x ∷ xs) = rw (none x) (any_where-none q none xs)

  pub any_where-weaken :
      (q q' : A → Bool)
      → ((x : A) → q x ≡ false → q' x ≡ false)
      → (xs : List A) → any_where q xs ≡ false
      → any_where q' xs ≡ false
  any_where-weaken q q' less [] h = h
  any_where-weaken q q' less (x ∷ xs) h = ground (arith, less x, any_where-weaken q q' less xs)

  pub All-delete_where :
      (P : A → Type 0) (p : A → Bool) (xs : List A) → All P xs → All P (delete_where p xs)
  All-delete_where P p [] h = tt
  All-delete_where P p (x ∷ xs) h = elim (Bool-cases (p x)) [
    | inl gone ↦ rw gone (All-delete_where P p xs h.1)
    | inr left ↦ rw left (h.0, All-delete_where P p xs h.1)
  ]

  pub any_where-append :
      (q : A → Bool) (xs ys : List A) → any_where q xs ≡ true → any_where q (xs ++ ys) ≡ true
  any_where-append q [] ys h = cc
  any_where-append q (x ∷ xs) ys h = ground (arith, any_where-append q xs ys)

  pub All-zip : (P Q : A → Type 0) (xs : List A) → All P xs → All Q xs → All (λ x. P x × Q x) xs
  All-zip P Q [] h k = tt
  All-zip P Q (x ∷ xs) h k = ((h.0, k.0), All-zip P Q xs h.1 k.1)

  -- An update that keeps what the test reads.
  pub any_where-updated :
      (q p : A → Bool) (f : A → A) (xs : List A)
      → ((x : A) → p x ≡ true → q (f x) ≡ q x)
      → any_where q (update_where p f xs) ≡ any_where q xs
  any_where-updated q p f [] same = refl
  any_where-updated q p f (x ∷ xs) same = ground (arith, same x, any_where-updated q p f xs same)

  -- What an UPDATE makes of one row.
  abbrev pub updated : (A → Bool) → (A → A) → A → A
  updated p f x = if p x then f x else x

  pub updated-cases :
      (Q : A → Type 0) (p : A → Bool) (f : A → A) (x : A)
      → Q x
      → (p x ≡ true → Q (f x))
      → Q (updated p f x)
  updated-cases Q p f x h k = elim (Bool-cases (p x)) [
    | inl here ↦ rw here (k here)
    | inr there ↦ rw there h
  ]

module _ {A : Type 0} (clash : A → A → Bool) where
  -- No row clashes with a later one.
  abbrev pub Unlike : List A → Type 0
  Unlike [] = Unit
  Unlike (x ∷ xs) = (any_where (clash x) xs ≡ false) × Unlike xs

  pub Unlike-append_one :
      (xs : List A) (y : A)
      → Unlike xs
      → any_where (λ x. clash x y) xs ≡ false
      → Unlike (xs ++ y ∷ [])
  Unlike-append_one [] y h k = (refl, tt)
  Unlike-append_one (x ∷ xs) y h k = (
    ground (arith, any_where-append_one (clash x) xs y, h.0, k),
    Unlike-append_one xs y h.1 (ground (arith, k)),
  )

  pub Unlike-delete_where : (p : A → Bool) (xs : List A) → Unlike xs → Unlike (delete_where p xs)
  Unlike-delete_where p [] h = tt
  Unlike-delete_where p (x ∷ xs) h = elim (Bool-cases (p x)) [
    | inl gone ↦ rw gone (Unlike-delete_where p xs h.1)
    | inr left ↦ rw left (any_where-delete_where (clash x) p xs h.0, Unlike-delete_where p xs h.1)
  ]

  -- An update after which no two rows clash that did not before.
  module _ (p : A → Bool) (f : A → A)
      (keep : (x y : A) → clash x y ≡ false → clash (updated p f x) (updated p f y) ≡ false) where
    no_clash :
        (x : A) (xs : List A)
        → any_where (clash x) xs ≡ false
        → any_where (clash (updated p f x)) (update_where p f xs) ≡ false
    no_clash x [] h = refl
    no_clash x (y ∷ xs) h =
        let here : clash x y ≡ false = ground (arith, h) in
        let rest : any_where (clash x) xs ≡ false = ground (arith, h) in
        rw (keep x y here) (no_clash x xs rest)

    pub Unlike-update_where : (xs : List A) → Unlike xs → Unlike (update_where p f xs)
    Unlike-update_where [] h = tt
    Unlike-update_where (x ∷ xs) h = (no_clash x xs h.0, Unlike-update_where xs h.1)

-- The ids are distinct, and not above the last value that the sequence gave out.
pub record HasKeys {A : Type 0} (key : A → ℤ) (n : ℕ) (xs : List A) : Type 0 where
  pub numbered : All (λ x. key x ≤ℤ pos n) xs
  pub distinct : Unlike (λ x y. eqb_ℤ (key x) (key y)) xs

module _ {A : Type 0} (key : A → ℤ) where
  pub HasKeys-grow : (n m : ℕ) (xs : List A) → n ≤ m → HasKeys key n xs → HasKeys key m xs
  HasKeys-grow n m xs le h = record {
    numbered =
        All-map (λ x. key x ≤ℤ pos n) (λ x. key x ≤ℤ pos m) xs (λ x p. omega arith) h.numbered;
    distinct = h.distinct;
  }

  pub fresh :
      (n : ℕ) (y : A) (xs : List A)
      → All (λ x. key x ≤ℤ pos n) xs
      → key y ≡ pos (suc n)
      → any_where (λ x. eqb_ℤ (key x) (key y)) xs ≡ false
  fresh n y [] h e = refl
  fresh n y (x ∷ xs) h e = ground (arith, eqb_ℤ_iff (key x) (key y), fresh n y xs h.1 e)

  -- The row with the next id.
  pub HasKeys-append_one :
      (n : ℕ) (xs : List A) (y : A)
      → HasKeys key n xs
      → key y ≡ pos (suc n)
      → HasKeys key (suc n) (xs ++ y ∷ [])
  HasKeys-append_one n xs y h e = record {
    numbered =
        All-append (λ x. key x ≤ℤ pos (suc n)) xs (y ∷ [])
          (HasKeys-grow n (suc n) xs (omega arith) h).numbered (rw e (omega arith), tt);
    distinct =
        Unlike-append_one (λ x y. eqb_ℤ (key x) (key y)) xs y h.distinct
          (fresh n y xs h.numbered e);
  }

  pub HasKeys-delete_where :
      (p : A → Bool) (n : ℕ) (xs : List A) → HasKeys key n xs → HasKeys key n (delete_where p xs)
  HasKeys-delete_where p n xs h = record {
    numbered = All-delete_where (λ x. key x ≤ℤ pos n) p xs h.numbered;
    distinct = Unlike-delete_where (λ x y. eqb_ℤ (key x) (key y)) p xs h.distinct;
  }

  module _ (p : A → Bool) (f : A → A) (same : (x : A) → p x ≡ true → key (f x) ≡ key x) where
    updated-key : (x : A) → key (updated p f x) ≡ key x
    updated-key x = updated-cases (λ y. key y ≡ key x) p f x refl (same x)

    numbered-update_where :
        (n : ℕ) (xs : List A)
        → All (λ x. key x ≤ℤ pos n) xs
        → All (λ x. key x ≤ℤ pos n) (update_where p f xs)
    numbered-update_where n [] h = tt
    numbered-update_where n (x ∷ xs) h = (rw (updated-key x) h.0, numbered-update_where n xs h.1)

    pub HasKeys-update_where :
        (n : ℕ) (xs : List A) → HasKeys key n xs → HasKeys key n (update_where p f xs)
    HasKeys-update_where n xs h = record {
      numbered = numbered-update_where n xs h.numbered;
      distinct =
          Unlike-update_where (λ x y. eqb_ℤ (key x) (key y)) p f
            (λ x y other. rw (updated-key x, updated-key y) other) xs h.distinct;
    }

module _ {A : Type 0} where
  pub All-of : (P : A → Type 0) (xs : List A) → ((x : A) → P x) → All P xs
  All-of P [] h = tt
  All-of P (x ∷ xs) h = (h x, All-of P xs h)

  pub none_of_any :
      (q : A → Bool) (xs : List A) → any_where q xs ≡ false → All (λ x. q x ≡ false) xs
  none_of_any q [] h = tt
  none_of_any q (x ∷ xs) h =
      let here : q x ≡ false = ground (arith, h) in
      let rest : any_where q xs ≡ false = ground (arith, h) in (here, none_of_any q xs rest)

-- An update that no row matches.
pub All-unmatched :
    {A : Type 0} (P : A → Type 0) (p : A → Bool) (f : A → A) (xs : List A)
    → any_where p xs ≡ false
    → All P xs
    → All P (update_where p f xs)
All-unmatched P p f [] other h = tt
All-unmatched P p f (x ∷ xs) other h =
    let here : p x ≡ false = ground (arith, other) in
    let rest : any_where p xs ≡ false = ground (arith, other) in
    (rw here h.0, All-unmatched P p f xs rest h.1)

-- Of rows with distinct ids, the one that is found is the only one with its id.
pub All-found :
    {A : Type 0} (key : A → ℤ) (P : A → Type 0) (id : ℤ) (xs : List A) (o : A)
    → Unlike (λ x y. eqb_ℤ (key x) (key y)) xs
    → find_where (λ x. eqb_ℤ (key x) id) xs ≡ some o
    → P o
    → All (λ x. eqb_ℤ (key x) id ≡ true → P x) xs
All-found key P id [] o h found p = tt
All-found {A} key P id (x ∷ xs) o h found p = elim (Bool-cases (eqb_ℤ (key x) id)) [
  | inl this ↦
      let f : ◌≡◌ {A = Option A} (some x) (some o) = rw this at found in
      let e : x ≡ o = cc in
      (
        λ t. subst P (sym e) p,
        All-map (λ y. eqb_ℤ (key x) (key y) ≡ false) (λ y. eqb_ℤ (key y) id ≡ true → P y) xs
            (λ y other t.
              let bad : eqb_ℤ (key x) (key y) ≡ true =
                (eqb_ℤ_iff (key x) (key y)).1
                  ((eqb_ℤ_iff (key x) id).0 this ∙ sym ((eqb_ℤ_iff (key y) id).0 t)) in
              absurd (true_not_false (sym bad ∙ other)))
            (none_of_any (λ y. eqb_ℤ (key x) (key y)) xs h.0),
      )
  | inr other ↦
      let f : find_where (λ x. eqb_ℤ (key x) id) xs ≡ some o = rw other at found in
      (λ t. absurd (true_not_false (sym t ∙ other)), All-found key P id xs o h.1 f p)
]

-- A row with another id is not deleted.
pub any_where-delete_ne :
    {A : Type 0} (key : A → ℤ) (id k : ℤ) (xs : List A)
    → eqb_ℤ k id ≡ false
    → any_where (λ x. eqb_ℤ (key x) k) xs ≡ true
    → any_where (λ x. eqb_ℤ (key x) k) (delete_where (λ x. eqb_ℤ (key x) id) xs) ≡ true
any_where-delete_ne key id k [] other h = cc
any_where-delete_ne key id k (x ∷ xs) other h = ground (
  arith,
  eqb_ℤ_iff (key x) id,
  eqb_ℤ_iff (key x) k,
  eqb_ℤ_iff k id,
  any_where-delete_ne key id k xs other,
)

-- Of rows with `K`, no two clash by another test that did not before.
pub Unlike-weaken :
    {A : Type 0} (clash clash' : A → A → Bool) (K : A → Type 0)
    → ((x y : A) → K x → clash x y ≡ false → clash' x y ≡ false)
    → (xs : List A) → All K xs
    → Unlike clash xs
    → Unlike clash' xs
Unlike-weaken clash clash' K less [] k h = tt
Unlike-weaken clash clash' K less (x ∷ xs) k h = (
  any_where-weaken (clash x) (clash' x) (λ y. less x y k.0) xs h.0,
  Unlike-weaken clash clash' K less xs k.1 h.1,
)
