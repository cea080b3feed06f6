-- ===== src/Prelude/Wrap.antt =====
-- 64-bit sums: the order in which a sum is cut to a word does not matter.
use Prim.Native.Nat.{ℕ, ◌+◌, ◌*◌, ◌^◌, ◌%◌, ◌/◌}
use mathlib.Core.Path.{◌≡◌, ◌∙◌}
use native.Mathlib.Omega.{arith}
use mathlib.Core.Logic.{inl, inr}
use fincart.Prelude.Tests.{ltb, Bool-cases}
use fincart.Prelude.Int.{
  ℤ, pos, negsuc, pos_part, neg_part, ◌+ℤ◌, ◌*ℤ◌, wrap64, wrap64-IsInt64, IsInt64, add64, mul64,
  eq_of_parts, int_laws,
}

-- The two differ by a multiple of 2^64.
abbrev pub Congruent : ℤ → ℤ → Type 0
Congruent a b =
    (k : ℕ) × (l : ℕ) × (pos_part a + neg_part b + 2 ^ 64 * k
      ≡ neg_part a + pos_part b + 2 ^ 64 * l)

wrap64-Congruent : (a : ℤ) → Congruent (wrap64 a) a
unfolding wrap64
wrap64-Congruent (pos n) = elim (Bool-cases (ltb (n % 2 ^ 64) (2 ^ 63))) [
  | inl small ↦ (n / 2 ^ 64, 0, ground arith)
  | inr big ↦ (n / 2 ^ 64 + 1, 0, ground arith)
]
wrap64-Congruent (negsuc n) = elim (Bool-cases (ltb (n % 2 ^ 64) (2 ^ 63))) [
  | inl small ↦ (0, n / 2 ^ 64, ground arith)
  | inr big ↦ (0, n / 2 ^ 64 + 1, ground arith)
]

IsInt64-unique : (a b : ℤ) → IsInt64 a → IsInt64 b → Congruent a b → a ≡ b
IsInt64-unique a b ha hb (k, l, h) = eq_of_parts a b (omega arith)

wrap64_congr : (a b : ℤ) → Congruent a b → wrap64 a ≡ wrap64 b
wrap64_congr a b (k, l, h) =
    let (k1, l1, h1) = wrap64-Congruent a in
    let (k2, l2, h2) = wrap64-Congruent b in
    IsInt64-unique (wrap64 a) (wrap64 b) (wrap64-IsInt64 a) (wrap64-IsInt64 b)
      (k1 + k + l2, l1 + l + k2, omega arith)

pub wrap64-add_left : (a b : ℤ) → wrap64 (wrap64 a +ℤ b) ≡ wrap64 (a +ℤ b)
wrap64-add_left a b =
    let (k, l, h) = wrap64-Congruent a in
    wrap64_congr (wrap64 a +ℤ b) (a +ℤ b) (k, l, omega int_laws)

wrap64-middle : (t a r : ℤ) → wrap64 ((t +ℤ wrap64 a) +ℤ r) ≡ wrap64 (t +ℤ (a +ℤ r))
wrap64-middle t a r =
    let (k, l, h) = wrap64-Congruent a in
    wrap64_congr ((t +ℤ wrap64 a) +ℤ r) (t +ℤ (a +ℤ r)) (k, l, omega int_laws)

pub wrap64-add_middle : (a b c : ℤ) → wrap64 (wrap64 (a +ℤ b) +ℤ c) ≡ wrap64 (a +ℤ (b +ℤ c))
wrap64-add_middle a b c =
    let (k, l, h) = wrap64-Congruent (a +ℤ b) in
    wrap64_congr (wrap64 (a +ℤ b) +ℤ c) (a +ℤ (b +ℤ c)) (k, l, omega int_laws)

-- One step of a sum of products.
pub add64-mul64 : (t p q r : ℤ) → wrap64 (add64 t (mul64 p q) +ℤ r) ≡ wrap64 (t +ℤ (p *ℤ q +ℤ r))
unfolding add64 mul64
add64-mul64 t p q r = wrap64-add_left (t +ℤ wrap64 (p *ℤ q)) r ∙ wrap64-middle t (p *ℤ q) r
