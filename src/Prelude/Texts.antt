-- ===== src/Prelude/Texts.antt =====
-- Go's package strings, as the services use it: TrimSpace, ToUpper, ToLower, EqualFold, Fields.
-- The case of the letters beyond ASCII is a table of the Unicode standard, and an argument here.
use Prim.Native.Char.{Char, code}
use Prim.Native.String
use Prim.Native.String.{String, [], ◌∷◌}
use mathlib.Core.Path.{◌≡◌, refl, ◌∙◌, ap}
use mathlib.Core.Bool.{Bool, true, false, ◌||◌, ◌&&◌}
use native.Mathlib.Omega.{arith}
use mathlib.Core.List
use text.Mathlib.Text.{◌==◌ as str_eq}
use fincart.Prelude.Tests.{ltb, leb, ◌==◌, if◌then◌else◌}

-- `unicode.ToUpper` and `unicode.ToLower` of the characters from U+0080 on.
pub record Letters : Type 0 where
  pub upper : Char → Char
  pub lower : Char → Char

-- The character of `to` at the place where `from` has c.
unfoldable pub translate : String → String → Char → Char
translate (f ∷ from) (t ∷ to) c =
    let rest = translate from to c in if code c == code f then t else rest
translate _ _ c = c

abbrev lower_letters : String
lower_letters = "abcdefghijklmnopqrstuvwxyz"

abbrev upper_letters : String
upper_letters = "ABCDEFGHIJKLMNOPQRSTUVWXYZ"

unfoldable pub to_upper : Letters → String → String
unfolding translate
to_upper letters [] = []
to_upper letters (c ∷ s) =
    (if ltb (code c) 128 then translate lower_letters upper_letters c else letters.upper c)
    ∷ to_upper letters s

unfoldable pub to_lower : Letters → String → String
unfolding translate
to_lower letters [] = []
to_lower letters (c ∷ s) =
    (if ltb (code c) 128 then translate upper_letters lower_letters c else letters.lower c)
    ∷ to_lower letters s

-- `unicode.IsSpace`
unfoldable pub is_space : Char → Bool
is_space c =
    let n = code c in
    leb 9 n && leb n 13
    || n == 32
    || n == 133
    || n == 160
    || n == 5760
    || leb 8192 n && leb n 8202
    || n == 8232
    || n == 8233
    || n == 8239
    || n == 8287
    || n == 12288

unfoldable pub trim_left : String → String
trim_left [] = []
trim_left (c ∷ s) = let rest = trim_left s in if is_space c then rest else c ∷ s

abbrev pub is_nil : String → Bool
is_nil [] = true
is_nil (c ∷ s) = false

unfoldable pub trim_right : String → String
trim_right [] = []
trim_right (c ∷ s) = let rest = trim_right s in if is_space c && is_nil rest then [] else c ∷ rest

-- `strings.TrimSpace`
unfoldable pub trim : String → String
unfolding trim_left trim_right is_space
trim s = trim_right (trim_left s)

trim_right_idem : (s : String) → trim_right (trim_right s) ≡ trim_right s
unfolding trim_right
trim_right_idem [] = refl
trim_right_idem (c ∷ s) = ground (arith, trim_right_idem s)

trim_left-trim : (s : String) → trim_left (trim_right (trim_left s)) ≡ trim_right (trim_left s)
unfolding trim_left trim_right
trim_left-trim [] = refl
trim_left-trim (c ∷ s) = ground (arith, trim_left-trim s)

-- What is trimmed stays as it is.
pub trim_idem : (s : String) → trim (trim s) ≡ trim s
unfolding trim
trim_idem s = ap trim_right (trim_left-trim s) ∙ trim_right_idem (trim_left s)

abbrev ascii_lower : String → String
ascii_lower [] = []
ascii_lower (c ∷ s) = translate upper_letters lower_letters c ∷ ascii_lower s

-- `strings.EqualFold` with a text of ASCII letters other than k and s, the two that have a further
-- case beyond ASCII.
unfoldable pub equal_fold : String → String → Bool
unfolding translate
equal_fold s t = str_eq (ascii_lower s) (ascii_lower t)

-- The loop of `strings.Fields`: the words found, and the one that is being read.
fields_from : String → String → List.List String
unfolding is_space
fields_from word [] = if is_nil word then List.[] else List.◌∷◌ word List.[]
fields_from word (c ∷ s) =
    let closed = fields_from [] s in
    let longer = fields_from (String.◌++◌ word (c ∷ [])) s in
    if is_space c then if is_nil word then closed else List.◌∷◌ word closed else longer

unfoldable pub fields : String → List.List String
unfolding fields_from
fields s = fields_from [] s
