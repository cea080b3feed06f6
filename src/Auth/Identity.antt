-- ===== src/Auth/Identity.antt =====
-- What the middleware has tested of a header before a handler sees the claims.
use fincart.Prelude.{
  ℕ, String, List, [], ◌∷◌, ◌≡◌, ◌↔◌, refl, ◌∙◌, ap, true, false, Option, none, some, inl, inr,
  arith,
}
use fincart.Prelude.Tests.{Bool-cases}
use fincart.Prelude.Int.{is_nonpositive}
use fincart.Prelude.Texts.{is_nil, fields, equal_fold}
use fincart.Auth.Tokens.{Jwt, Claims, Unverified}
use fincart.Auth.Access.{checked, accepted, parse_token, bearer, authenticate}

-- The library reads the token as one of HS256, its signature is right and its times are, and its
-- claims name a user and a role.
abbrev pub IsSigned : Jwt → ℕ → String → Claims → Type 0
IsSigned jwt now token claims =
    (jwt.read token ≡ some (record { is_hs256 = true; claims = claims }))
    × (jwt.verifies token ≡ true)
    × (jwt.is_current now claims ≡ true)
    × (is_nonpositive claims.user_id ≡ false)
    × (is_nil claims.role ≡ false)

accepted_lem :
    (jwt : Jwt) (now : ℕ) (token : String) (o : Option Unverified) (claims : Claims)
    → jwt.read token ≡ o
    → accepted jwt now token o ≡ some claims
    → IsSigned jwt now token claims
unfolding accepted checked
accepted_lem jwt now token none claims e h = cc
accepted_lem jwt now token (some u) claims e h = ground arith

parse_token_iff :
    (jwt : Jwt) (now : ℕ) (token : String) (claims : Claims)
    → (parse_token jwt now token ≡ some claims) ↔ IsSigned jwt now token claims
unfolding parse_token accepted checked
parse_token_iff jwt now token claims = (
  accepted_lem jwt now token (jwt.read token) claims refl,
  λ (read, right, current, user, role). rw (read, right, current, user, role),
)

-- Two words, the second a signed token.
abbrev pub IsBearer : Jwt → ℕ → List String → Claims → Type 0
IsBearer jwt now words claims =
    (scheme : String) × (token : String) × (words ≡ scheme ∷ token ∷ [])
    × (equal_fold scheme "Bearer" ≡ true)
    × IsSigned jwt now token claims

bearer_lem :
    (jwt : Jwt) (now : ℕ) (words : List String) (claims : Claims)
    → bearer jwt now words ≡ some claims
    → IsBearer jwt now words claims
unfolding bearer
bearer_lem jwt now [] claims h = cc
bearer_lem jwt now (a ∷ []) claims h = cc
bearer_lem jwt now (a ∷ b ∷ c ∷ words) claims h = cc
bearer_lem jwt now (a ∷ b ∷ []) claims h = elim (Bool-cases (equal_fold a "Bearer")) [
  | inl named ↦ (a, b, refl, named, (parse_token_iff jwt now b claims).0 (rw named at h))
  | inr other ↦ let clash : ◌≡◌ {A = Option Claims} none (some claims) = (rw other at h) in cc
]

bearer_of_signed :
    (jwt : Jwt) (now : ℕ) (words : List String) (claims : Claims)
    → IsBearer jwt now words claims
    → bearer jwt now words ≡ some claims
unfolding bearer
bearer_of_signed jwt now words claims (scheme, token, two, named, signed) =
    ap (bearer jwt now) two ∙ rw named ((parse_token_iff jwt now token claims).1 signed)

no_words :
    (jwt : Jwt) (now : ℕ) (claims : Claims)
    → bearer jwt now (fields "") ≡ some claims
    → ◌≡◌ {A = Option Claims} none (some claims)
unfolding bearer fields
no_words jwt now claims h = h

-- The middleware goes on with some claims exactly if the header is two words, the first `Bearer` in
-- any case, the second a token that the library reads as one of HS256 with these claims, with the
-- right signature and at the right time, and the claims name a positive user id and a role.
pub authenticate_iff :
    (jwt : Jwt) (now : ℕ) (header : String) (claims : Claims)
    → (authenticate jwt now header ≡ some claims) ↔ IsBearer jwt now (fields header) claims
unfolding authenticate
authenticate_iff jwt now String.[] claims =
    (λ h. cc, λ h. no_words jwt now claims (bearer_of_signed jwt now (fields "") claims h))
authenticate_iff jwt now (String.◌∷◌ c s) claims = (
  bearer_lem jwt now (fields (String.◌∷◌ c s)) claims,
  bearer_of_signed jwt now (fields (String.◌∷◌ c s)) claims,
)

pub authenticate-positive :
    (jwt : Jwt) (now : ℕ) (header : String) (claims : Claims)
    → authenticate jwt now header ≡ some claims
    → is_nonpositive claims.user_id ≡ false
authenticate-positive jwt now header claims h =
    let (_, _, _, _, signed) = (authenticate_iff jwt now header claims).0 h in signed.3
