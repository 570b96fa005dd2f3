-- ===== src/Jose/Algorithm.antt =====
-- crates/jose/src/error.rs and the algorithms of crates/jose/src/key.rs.
use wimsey.Common.{
  ◌≡◌, ◌↔◌, refl, Bool, true, false, List, [], ◌∷◌, any, if◌then◌else◌, Result, ok, err,
}
use wimsey.Text.{Str, codes, str_eq, eq_ignore_ascii_case}

pub data Algorithm : Type 0 where
  ed_dsa es256 : Algorithm

pub data JoseError : Type 0 where
  missing_alg : JoseError
  forbidden_alg unsupported_alg : Str → JoseError
  invalid_key invalid_signature invalid_encoding : JoseError

-- `FORBIDDEN_ALGS`
abbrev pub forbidden_algs : List Str
forbidden_algs =
    codes "none"
    ∷ codes "HS256"
    ∷ codes "HS384"
    ∷ codes "HS512"
    ∷ codes "RSA1_5"
    ∷ codes "RSA-OAEP"
    ∷ codes "RSA-OAEP-256"
    ∷ codes "RSA-OAEP-384"
    ∷ codes "RSA-OAEP-512"
    ∷ codes "A128KW"
    ∷ codes "A192KW"
    ∷ codes "A256KW"
    ∷ codes "dir"
    ∷ codes "ECDH-ES"
    ∷ codes "ECDH-ES+A128KW"
    ∷ codes "ECDH-ES+A192KW"
    ∷ codes "ECDH-ES+A256KW"
    ∷ codes "A128GCMKW"
    ∷ codes "A192GCMKW"
    ∷ codes "A256GCMKW"
    ∷ codes "PBES2-HS256+A128KW"
    ∷ codes "PBES2-HS384+A192KW"
    ∷ codes "PBES2-HS512+A256KW"
    ∷ []

unfoldable pub is_forbidden_alg : Str → Bool
is_forbidden_alg alg = any (λ f. eq_ignore_ascii_case f alg) forbidden_algs

-- `Algorithm::as_str`
abbrev pub as_str : Algorithm → Str
as_str ed_dsa = codes "EdDSA"
as_str es256 = codes "ES256"

-- `Algorithm::parse`
unfoldable pub parse : Str → Result JoseError Algorithm
parse alg =
    if str_eq alg (codes "EdDSA")
    then ok ed_dsa
    else if str_eq alg (codes "ES256")
    then ok es256
    else if is_forbidden_alg alg
    then err (forbidden_alg alg)
    else err (unsupported_alg alg)

abbrev pub algorithm_eq : Algorithm → Algorithm → Bool
algorithm_eq ed_dsa ed_dsa = true
algorithm_eq es256 es256 = true
algorithm_eq _ _ = false

-- The derived comparison decides equality.
pub algorithm_eq_iff : (a b : Algorithm) → (algorithm_eq a b ≡ true) ↔ (a ≡ b)
algorithm_eq_iff ed_dsa ed_dsa = (λ h. refl, λ h. refl)
algorithm_eq_iff ed_dsa es256 = (λ h. cc, λ h. cc)
algorithm_eq_iff es256 ed_dsa = (λ h. cc, λ h. cc)
algorithm_eq_iff es256 es256 = (λ h. refl, λ h. refl)

pub algorithm_eq_refl : (a : Algorithm) → algorithm_eq a a ≡ true
algorithm_eq_refl a = (algorithm_eq_iff a a).1 refl

pub parse-as_str : (a : Algorithm) → parse (as_str a) ≡ ok a
unfolding parse str_eq
parse-as_str ed_dsa = refl
parse-as_str es256 = refl
