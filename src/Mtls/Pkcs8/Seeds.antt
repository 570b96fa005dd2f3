-- ===== src/Mtls/Pkcs8/Seeds.antt =====
-- Which PKCS#8 documents hold an Ed25519 seed.
use wimsey.Common.{
  ℕ, ◌≡◌, ◌↔◌, ◌≤◌, refl, sym, ◌∙◌, subst, true, some, [], ◌∷◌, ◌++◌, ok, ensure, ok_or, arith,
  length, length-take, take-drop, take, drop, leb, then-eq-ok, >>=-eq-ok, ensure-eq-ok, ok_or-eq-ok,
  Bool-cases, inl, inr,
}
use wimsey.Text.{Bytes, strip_prefix, strip_prefix-append, strip_prefix-eq-some}
use mathlib.Core.Option.{some-injective}
use wimsey.Mtls.Error.{invalid_key, unsupported_algorithm}
use wimsey.Mtls.Der.{get_to}
use wimsey.Mtls.Der.Integer.{get_to-append}
use wimsey.Mtls.Pkcs8.{ed25519_pkcs8_inner, is_header, ed25519_seed_from_pkcs8}

get_to-eq-some :
    (n : ℕ) (x : Bytes) {front : Bytes}
    → get_to n x ≡ some front
    → (length front ≡ n) × (x ≡ front ++ drop n x)
unfolding get_to
get_to-eq-some n x {front} h = elim (Bool-cases (leb n (length x))) [
  | inl e ↦
      let same : take n x ≡ front = ground arith in
      subst (λ f. (length f ≡ n) × (x ≡ f ++ drop n x)) same
        (length-take n x (ground arith), sym (take-drop n x))
  | inr e ↦ ground arith
]

-- A SEQUENCE, of a length that is not compared, that starts with a version of 0 or 1.
abbrev pub IsSeed : Bytes → Bytes → Type 0
IsSeed der seed =
    (len version : ℕ) × (rest : Bytes) × (version ≤ 1)
    × (length seed ≡ 32)
    × (der ≡ 0x30 ∷ len ∷ 0x02 ∷ 0x01 ∷ version ∷ (ed25519_pkcs8_inner ++ (seed ++ rest)))

is_header_iff :
    (a b c d e : ℕ)
    → (is_header (a ∷ b ∷ c ∷ d ∷ e ∷ []) ≡ true) ↔ ((a ≡ 0x30) × (c ≡ 0x02) × (d ≡ 0x01) × (e ≤ 1))
is_header_iff a b c d e =
    (λ h. (ground arith, ground arith, ground arith, ground arith), λ (p, q, r, s). ground arith)

seed_reads :
    (len version : ℕ) (seed rest : Bytes)
    → version ≤ 1
    → length seed ≡ 32
    → ed25519_seed_from_pkcs8
        (0x30 ∷ len ∷ 0x02 ∷ 0x01 ∷ version ∷ (ed25519_pkcs8_inner ++ (seed ++ rest)))
      ≡ ok seed
unfolding ed25519_seed_from_pkcs8
seed_reads len version seed rest low size =
    let header = (is_header_iff 0x30 len 0x02 0x01 version).1 (refl, refl, refl, low) in
    let front = subst (λ n. get_to n (seed ++ rest) ≡ some seed) size (get_to-append seed rest) in
    rw
      (
        get_to-append (0x30 ∷ len ∷ 0x02 ∷ 0x01 ∷ version ∷ [])
            (ed25519_pkcs8_inner ++ (seed ++ rest)),
        header,
        strip_prefix-append ed25519_pkcs8_inner (seed ++ rest),
        front,
      )
      refl

reads-IsSeed :
    (a b c d e : ℕ) (x seed : Bytes)
    → ed25519_seed_from_pkcs8 (a ∷ b ∷ c ∷ d ∷ e ∷ x) ≡ ok seed
    → IsSeed (a ∷ b ∷ c ∷ d ∷ e ∷ x) seed
unfolding ed25519_seed_from_pkcs8
reads-IsSeed a b c d e x seed h =
    let five : Bytes = a ∷ b ∷ c ∷ d ∷ e ∷ [] in
    let (header, found, k) = >>=-eq-ok (ok_or (get_to 5 (a ∷ b ∷ c ∷ d ∷ e ∷ x)) invalid_key) _ h in
    let same : header ≡ five =
      some-injective header five (sym (ok_or-eq-ok _ _ header found) ∙ get_to-append five x) in
    let (h0, k0) = then-eq-ok (ensure (is_header header) invalid_key) _ k in
    let (rest, h1, k1) =
      >>=-eq-ok (ok_or (strip_prefix x ed25519_pkcs8_inner) unsupported_algorithm) _ k0 in
    let (p, q, r, low) =
      (is_header_iff a b c d e).0 (subst (λ y. is_header y ≡ true) same (ensure-eq-ok _ _ h0)) in
    let body = strip_prefix-eq-some x ed25519_pkcs8_inner (ok_or-eq-ok _ _ rest h1) in
    let (size, split) = get_to-eq-some 32 rest (ok_or-eq-ok _ _ seed k1) in
    (b, e, drop 32 rest, low, size, rw (p, q, r, body, ← split) refl)

reads_whole : (der seed : Bytes) → ed25519_seed_from_pkcs8 der ≡ ok seed → IsSeed der seed
unfolding ed25519_seed_from_pkcs8 get_to
reads_whole [] seed h = cc
reads_whole (a ∷ []) seed h = cc
reads_whole (a ∷ b ∷ []) seed h = cc
reads_whole (a ∷ b ∷ c ∷ []) seed h = cc
reads_whole (a ∷ b ∷ c ∷ d ∷ []) seed h = cc
reads_whole (a ∷ b ∷ c ∷ d ∷ e ∷ x) seed h = reads-IsSeed a b c d e x seed h

-- A seed is read from a PKCS#8 document exactly if the document is a SEQUENCE with any length byte, a version of 0 or 1, the Ed25519 algorithm and the OCTET STRING wrappers, then the 32 bytes of the seed, whatever follows.
pub pkcs8-IsSeed_iff :
    (der seed : Bytes) → (ed25519_seed_from_pkcs8 der ≡ ok seed) ↔ IsSeed der seed
pkcs8-IsSeed_iff der seed = (
  reads_whole der seed,
  λ (len, version, rest, low, size, e).
      subst (λ d. ed25519_seed_from_pkcs8 d ≡ ok seed) (sym e)
        (seed_reads len version seed rest low size),
)
