-- ===== src/Jose/Accepts.antt =====
-- Which keys and algorithm names are accepted, and that written keys are read back.
use wimsey.Common.{
  List, [], ◌∷◌, map, any, subst, true, false, ◌≡◌, ◌↔◌, refl, sym, ap, ◌∙◌, some, ok, err, length,
  arith, Bool-cases, inl, inr, >>=-eq-ok, then-eq-ok, ok_or, ensure,
}
use wimsey.Text.{Str, codes, str_eq, str_eq_iff, eq_ignore_ascii_case, to_ascii_lowercase, lower}
use wimsey.Jose.Primitives.{Crypto, Base64, IsBase64, IsCorrectCrypto}
use wimsey.Jose.Algorithm
use wimsey.Jose.Algorithm.{
  Algorithm, ed_dsa, es256, JoseError, forbidden_alg, forbidden_algs, is_forbidden_alg, as_str,
  parse-as_str,
}
use wimsey.Jose.Key.{
  SigningKey, VerifyingKey, verifying_key, to_bytes, key_eq, key_eq_refl, algorithm,
  signing_algorithm, algorithm-verifying_key,
}
use wimsey.Jose.Jwk.{
  Jwk, PrivateJwk, validated_alg, to_public, coordinate, from_verifying_key, key_for,
  to_verifying_key, from_signing_key, secret_for, to_signing_key,
}

-- Neither supported name is on the forbidden list.
as_str-allowed : (a : Algorithm) → is_forbidden_alg (as_str a) ≡ false
unfolding is_forbidden_alg eq_ignore_ascii_case to_ascii_lowercase str_eq
as_str-allowed ed_dsa = refl
as_str-allowed es256 = refl

-- An algorithm name is accepted exactly if it is the name of the algorithm returned.
algorithm_parse_iff : (alg : Str) (a : Algorithm) → (Algorithm.parse alg ≡ ok a) ↔ (alg ≡ as_str a)
unfolding Algorithm.parse
algorithm_parse_iff alg ed_dsa = (
  λ h. ground (arith, str_eq_iff alg (codes "EdDSA"), str_eq_iff alg (codes "ES256")),
  λ e. ap Algorithm.parse e ∙ parse-as_str ed_dsa,
)
algorithm_parse_iff alg es256 = (
  λ h. ground (arith, str_eq_iff alg (codes "EdDSA"), str_eq_iff alg (codes "ES256")),
  λ e. ap Algorithm.parse e ∙ parse-as_str es256,
)

-- The algorithms that no key may name, in lower case: `none`, the symmetric ones and those of key
-- management.
abbrev pub forbidden_names : List Str
forbidden_names =
    codes "none"
    ∷ codes "hs256"
    ∷ codes "hs384"
    ∷ codes "hs512"
    ∷ codes "rsa1_5"
    ∷ codes "rsa-oaep"
    ∷ codes "rsa-oaep-256"
    ∷ codes "rsa-oaep-384"
    ∷ codes "rsa-oaep-512"
    ∷ codes "a128kw"
    ∷ codes "a192kw"
    ∷ codes "a256kw"
    ∷ codes "dir"
    ∷ codes "ecdh-es"
    ∷ codes "ecdh-es+a128kw"
    ∷ codes "ecdh-es+a192kw"
    ∷ codes "ecdh-es+a256kw"
    ∷ codes "a128gcmkw"
    ∷ codes "a192gcmkw"
    ∷ codes "a256gcmkw"
    ∷ codes "pbes2-hs256+a128kw"
    ∷ codes "pbes2-hs384+a192kw"
    ∷ codes "pbes2-hs512+a256kw"
    ∷ []

-- One of the names, in any case of its letters.
pub data IsForbidden (alg : Str) : List Str → Type 0 where
  here :
      {name : Str} {names : List Str}
      → to_ascii_lowercase alg ≡ name
      → IsForbidden alg (name ∷ names)
  there : {name : Str} {names : List Str} → IsForbidden alg names → IsForbidden alg (name ∷ names)

lowered-forbidden_algs : map to_ascii_lowercase forbidden_algs ≡ forbidden_names
unfolding to_ascii_lowercase lower
lowered-forbidden_algs = refl

any-IsForbidden :
    (alg : Str) (names : List Str)
    → any (λ f. eq_ignore_ascii_case f alg) names ≡ true
    → IsForbidden alg (map to_ascii_lowercase names)
unfolding eq_ignore_ascii_case
any-IsForbidden alg [] h = cc
any-IsForbidden alg (f ∷ fs) h =
    elim (Bool-cases (str_eq (to_ascii_lowercase f) (to_ascii_lowercase alg))) [
      | inl e ↦ here (sym ((str_eq_iff _ _).0 e))
      | inr n ↦ there (any-IsForbidden alg fs (ground (arith, n, h)))
    ]

IsForbidden-any :
    (alg : Str) (names : List Str)
    → IsForbidden alg (map to_ascii_lowercase names)
    → any (λ f. eq_ignore_ascii_case f alg) names ≡ true
unfolding eq_ignore_ascii_case
IsForbidden-any alg [] m = elim m [ ]
IsForbidden-any alg (f ∷ fs) (here e) =
    rw ((str_eq_iff (to_ascii_lowercase f) (to_ascii_lowercase alg)).1 (sym e)) refl
IsForbidden-any alg (f ∷ fs) (there m) = ground (arith, IsForbidden-any alg fs m)

is_forbidden_alg_iff : (alg : Str) → (is_forbidden_alg alg ≡ true) ↔ IsForbidden alg forbidden_names
unfolding is_forbidden_alg
is_forbidden_alg_iff alg = (
  λ h. subst (IsForbidden alg) lowered-forbidden_algs (any-IsForbidden alg forbidden_algs h),
  λ m. IsForbidden-any alg forbidden_algs (subst (IsForbidden alg) (sym lowered-forbidden_algs) m),
)

parse-allowed :
    (alg : Str) → Algorithm.parse alg ≡ err (forbidden_alg alg) → is_forbidden_alg alg ≡ true
unfolding Algorithm.parse
parse-allowed alg h = ground (arith, h)

forbidden-parse :
    (alg : Str) → is_forbidden_alg alg ≡ true → Algorithm.parse alg ≡ err (forbidden_alg alg)
unfolding Algorithm.parse
forbidden-parse alg h = elim (Bool-cases (str_eq alg (as_str ed_dsa))) [
  | inl e ↦
      cc (h, ap is_forbidden_alg ((str_eq_iff alg (as_str ed_dsa)).0 e), as_str-allowed ed_dsa)
  | inr n ↦ elim (Bool-cases (str_eq alg (as_str es256))) [
    | inl e ↦
        cc (h, ap is_forbidden_alg ((str_eq_iff alg (as_str es256)).0 e), as_str-allowed es256)
    | inr m ↦ rw (n, m, h)
  ]
]

-- A name is reported as forbidden, with the name as it was found, exactly if its lower-case form is one of the 23 forbidden names: `none`, the symmetric algorithms and those of key management.
pub parse-IsForbidden_iff :
    (alg : Str) → (Algorithm.parse alg ≡ err (forbidden_alg alg)) ↔ IsForbidden alg forbidden_names
parse-IsForbidden_iff alg = (
  λ h. (is_forbidden_alg_iff alg).0 (parse-allowed alg h),
  λ m. forbidden-parse alg ((is_forbidden_alg_iff alg).1 m),
)

module _ {c : Crypto} (b : Base64) (laws : IsCorrectCrypto c) (base64 : IsBase64 b) where
  key_for-from_verifying_key :
      (k : VerifyingKey c) → key_for b (algorithm k) (from_verifying_key b k) ≡ ok k
  unfolding key_for from_verifying_key str_eq
  key_for-from_verifying_key (VerifyingKey.ed25519 k) = rw (
    base64.decode-encode (c.ed25519.public_to_bytes k),
    laws.ed25519_public_length k,
    laws.ed25519_scheme.public_bytes k,
  )
  key_for-from_verifying_key (VerifyingKey.p256 k) = rw (
    base64.decode-encode (c.p256_x k),
    laws.p256_x_length k,
    base64.decode-encode (c.p256_y k),
    laws.p256_y_length k,
    ← (laws.p256_sec1 k),
    laws.p256_scheme.public_bytes k,
  )

  validated_alg-from_verifying_key :
      (k : VerifyingKey c) → validated_alg (from_verifying_key b k) ≡ ok (algorithm k)
  unfolding validated_alg from_verifying_key
  validated_alg-from_verifying_key (VerifyingKey.ed25519 k) = parse-as_str ed_dsa
  validated_alg-from_verifying_key (VerifyingKey.p256 k) = parse-as_str es256

  -- Under the laws of the signature schemes and of Base64, the JSON Web Key written for a public key
  -- decodes to that key.
  pub to_verifying_key-from_verifying_key :
      (k : VerifyingKey c) → to_verifying_key b (from_verifying_key b k) ≡ ok k
  unfolding to_verifying_key
  to_verifying_key-from_verifying_key k =
      rw (validated_alg-from_verifying_key k) (key_for-from_verifying_key k)

  secret_for-to_bytes : (k : SigningKey c) → secret_for b (signing_algorithm k) (to_bytes k) ≡ ok k
  secret_for-to_bytes (SigningKey.ed25519 k) =
      ap (λ s. ok (SigningKey.ed25519 s)) (laws.ed25519_seed k)
  secret_for-to_bytes (SigningKey.p256 k) = rw (laws.p256_scalar k)

  secret_size : (k : SigningKey c) → length (to_bytes k) ≡ 32
  secret_size (SigningKey.ed25519 k) = laws.ed25519_scheme.secret_length k
  secret_size (SigningKey.p256 k) = laws.p256_scheme.secret_length k

  public-from_signing_key :
      (k : SigningKey c) → to_public (from_signing_key b k) ≡ from_verifying_key b (verifying_key k)
  unfolding from_signing_key
  public-from_signing_key k = refl

  -- Under the laws of the signature schemes and of Base64, the private JSON Web Key written for a
  -- signing key decodes to that key.
  pub to_signing_key-from_signing_key :
      (k : SigningKey c) → to_signing_key b (from_signing_key b k) ≡ ok k
  unfolding to_signing_key from_signing_key
  to_signing_key-from_signing_key k = rw (
    base64.decode-encode (to_bytes k),
    secret_size k,
    validated_alg-from_verifying_key (verifying_key k),
    algorithm-verifying_key k,
    secret_for-to_bytes k,
    to_verifying_key-from_verifying_key (verifying_key k),
    key_eq_refl laws (verifying_key k),
  )

module _ {c : Crypto} (b : Base64) where
  key_for-algorithm :
      (a : Algorithm) (jwk : Jwk) {k : VerifyingKey c} → key_for b a jwk ≡ ok k → algorithm k ≡ a
  unfolding key_for
  key_for-algorithm ed_dsa jwk h = ground arith
  key_for-algorithm es256 jwk h = ground arith

  -- The key that a JSON Web Key decodes to is one of the algorithm that its `alg` member names.
  pub to_verifying_key-alg :
      (jwk : Jwk) {k : VerifyingKey c}
      → to_verifying_key b jwk ≡ ok k
      → jwk.alg ≡ some (as_str (algorithm k))
  unfolding to_verifying_key validated_alg
  to_verifying_key-alg jwk {k} h =
      let (a, valid, decoded) = >>=-eq-ok (validated_alg jwk) (λ a. key_for b a jwk) h in
      let (alg, present, parsed) = >>=-eq-ok (ok_or jwk.alg _) Algorithm.parse valid in
      let e : alg ≡ as_str (algorithm k) =
        (algorithm_parse_iff alg a).0 parsed ∙ ap as_str (sym (key_for-algorithm a jwk decoded)) in
      ground (arith, present, e)

  -- A private JSON Web Key that decodes advertises the public half of the key that it signs with.
  pub to_signing_key-halves :
      (jwk : PrivateJwk) {k : SigningKey c}
      → to_signing_key b jwk ≡ ok k
      → (p : VerifyingKey c) × (to_verifying_key b (to_public jwk) ≡ ok p)
        × (key_eq (verifying_key k) p ≡ true)
  unfolding to_signing_key
  to_signing_key-halves jwk {k} h =
      let (s, p1, h1) = >>=-eq-ok (coordinate b jwk.d) _ h in
      let (a, p2, h2) = >>=-eq-ok (validated_alg (to_public jwk)) _ h1 in
      let (key, p3, h3) = >>=-eq-ok (secret_for b a s) _ h2 in
      let (p, p4, h4) = >>=-eq-ok (to_verifying_key b (to_public jwk)) _ h3 in
      let (agree, same) = then-eq-ok (ensure (key_eq (verifying_key key) p) _) _ h4 in
      (p, p4, ground (arith, agree, same))
