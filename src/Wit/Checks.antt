-- ===== src/Wit/Checks.antt =====
-- What the header and the claims of a token must say, and that the checks decide it.
use wimsey.Common.{
  ℕ, ◌+◌, ◌≤◌, ◌<◌, ◌≡◌, ◌↔◌, refl, subst, true, Option, none, some, ok, ensure, ok_or, map_err,
  arith, leb, ltb, is_none, then-eq-ok, >>=-eq-ok, ensure-eq-ok, u64_max, none-is_none, ok_or-eq-ok,
  map_err-eq-ok, saturating_add,
}
use wimsey.Text.{Str, Bytes, str_eq, str_eq_iff, str_eq_refl}
use wimsey.Jose.Primitives.{Base64}
use wimsey.Jose.Algorithm
use wimsey.Jose.Algorithm.{Algorithm, JoseError, algorithm_eq, algorithm_eq_iff, algorithm_eq_refl}
use wimsey.Wit.Error.{base64, json, expired, algorithm_mismatch, unsupported_critical, wrong_type}
use wimsey.Wit.Claims.{WitClaims}
use wimsey.Wit.Token.{
  typ, Header, Validation, alg_error, check_header, check_iat, check_issuer, check_claims,
  decode_with,
}

-- The header names the token type and the key's algorithm, and no critical extension.
pub record IsHeader (header : Header) (a : Algorithm) : Type 0 where
  pub typ : header.typ ≡ typ
  pub alg : Algorithm.parse header.alg ≡ ok a
  pub crit : header.crit ≡ none

-- The clock is strictly below the expiry, which saturates; a time of issue is not past the clock.
pub record IsCurrent (claims : WitClaims) (v : Validation) : Type 0 where
  pub unexpired : (v.now < claims.exp + v.leeway) × (v.now < u64_max)
  pub issued : (iat : ℕ) → claims.iat ≡ some iat → (iat ≤ v.now + v.leeway) × (iat ≤ u64_max)
  pub issuer : (iss : Str) → v.expected_issuer ≡ some iss → claims.iss ≡ some iss

-- A text that decodes, and the value that JSON reads from it.
abbrev pub IsDecoded : {T : Type 0} → Base64 → (Bytes → Option T) → Str → T → Type 0
IsDecoded url_safe from_slice text t =
    (x : Bytes) × (url_safe.decode text ≡ some x) × (from_slice x ≡ some t)

pub decode_with_iff :
    {T : Type 0} (url_safe : Base64) (from_slice : Bytes → Option T) (text : Str) (t : T)
    → (decode_with url_safe from_slice text ≡ ok t) ↔ IsDecoded url_safe from_slice text t
decode_with_iff url_safe from_slice text t = (
  λ h.
      let (x, found, read) =
        >>=-eq-ok (ok_or (url_safe.decode text) base64) (λ x. ok_or (from_slice x) json) h in
      (x, ok_or-eq-ok _ _ x found, ok_or-eq-ok _ _ t read),
  λ (x, found, read). rw (found, read) refl,
)

pub check_header_iff :
    (header : Header) (a : Algorithm) → (check_header header a ≡ ok tt) ↔ IsHeader header a
unfolding check_header
check_header_iff header a = (
  λ h.
      let (h0, k0) = then-eq-ok (ensure (str_eq header.typ typ) (wrong_type header.typ)) _ h in
      let (alg, h1, k1) = >>=-eq-ok (map_err alg_error (Algorithm.parse header.alg)) _ k0 in
      let (h2, h3) =
        then-eq-ok (ensure (algorithm_eq alg a) algorithm_mismatch)
          (ensure (is_none header.crit) unsupported_critical) k1 in
      let same = (algorithm_eq_iff alg a).0 (ensure-eq-ok _ _ h2) in
      record {
        typ = (str_eq_iff header.typ typ).0 (ensure-eq-ok _ _ h0);
        alg =
            subst (λ b. Algorithm.parse header.alg ≡ ok b) same (map_err-eq-ok alg_error _ alg h1);
        crit = none-is_none _ (ensure-eq-ok _ _ h3);
      },
  λ r. rw (r.typ, r.alg, r.crit, str_eq_refl typ, algorithm_eq_refl a) refl,
)

check_iat_iff :
    (v : Validation) (iat : Option ℕ)
    → (check_iat v iat ≡ ok tt) ↔ ((t : ℕ) → iat ≡ some t → (t ≤ v.now + v.leeway) × (t ≤ u64_max))
check_iat_iff v none = (λ h t e. cc, λ h. refl)
check_iat_iff v (some n) = (
  λ h t e.
      let same : n ≡ t = cc in
      let low : leb n (saturating_add v.now v.leeway) ≡ true = ensure-eq-ok _ _ h in
      subst (λ m. (m ≤ v.now + v.leeway) × (m ≤ u64_max)) same (ground arith, ground arith),
  λ h.
      let (near, small) = h n refl in
      let low : leb n (saturating_add v.now v.leeway) ≡ true = ground arith in rw low refl,
)

check_issuer_iff :
    (expected iss : Option Str)
    → (check_issuer expected iss ≡ ok tt) ↔ ((s : Str) → expected ≡ some s → iss ≡ some s)
check_issuer_iff none iss = (λ h s e. cc, λ h. refl)
check_issuer_iff (some n) none = (λ h. cc, λ h. cc (h n refl))
check_issuer_iff (some n) (some s) =
    let (same, known) = str_eq_iff s n in
    (
      λ h t e. let one : s ≡ n = same (ensure-eq-ok _ _ h) in cc,
      λ h. rw (known (let e = h n refl in cc)) refl,
    )

pub check_claims_iff :
    (claims : WitClaims) (v : Validation) → (check_claims claims v ≡ ok tt) ↔ IsCurrent claims v
unfolding check_claims
check_claims_iff claims v =
    let (issued_in, issued_out) = check_iat_iff v claims.iat in
    let (issuer_in, issuer_out) = check_issuer_iff v.expected_issuer claims.iss in
    (
      λ h.
          let (h0, k0) =
            then-eq-ok (ensure (ltb v.now (saturating_add claims.exp v.leeway)) expired) _ h in
          let (h1, h2) =
            then-eq-ok (check_iat v claims.iat) (check_issuer v.expected_issuer claims.iss) k0 in
          let early : ltb v.now (saturating_add claims.exp v.leeway) ≡ true = ensure-eq-ok _ _ h0 in
          record {
            unexpired = (ground arith, ground arith);
            issued = issued_in h1;
            issuer = issuer_in h2;
          },
      λ r.
          let (below, small) = r.unexpired in
          let early : ltb v.now (saturating_add claims.exp v.leeway) ≡ true = ground arith in
          rw (early, issued_out r.issued, issuer_out r.issuer) refl,
    )
