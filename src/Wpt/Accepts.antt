-- ===== src/Wpt/Accepts.antt =====
-- What a verified WPT promises, stated apart from `verify`, and that `verify` accepts just that.
use wimsey.Common.{
  ℕ, ◌≤◌, ◌≡◌, ◌↔◌, refl, true, Option, some, ok, ensure, ok_or, map_err, arith, length, leb, ◌==◌,
  then-eq-ok, >>=-eq-ok, ensure-eq-ok, ok_or-eq-ok, map_err-eq-ok,
}
use wimsey.Text.{Str, Bytes, as_bytes, len}
use wimsey.Jose.Primitives.{Crypto, Base64}
use wimsey.Jose.Key
use wimsey.Jose.Key.{VerifyingKey, algorithm, signature_len}
use wimsey.Jws.Compact.{Parts, IsDotless, three_parts, three_parts_iff, signing_input, compact}
use wimsey.Jws.Json.{Json}
use wimsey.Wpt.Error.{malformed_token, token_too_long, invalid_signature}
use wimsey.Wpt.Token.{
  max_token_len, Header, Validation, VerifiedWpt, WptClaims, check_header, check_claims,
  decode_with, check_signature, verify_parts, verify,
}
use wimsey.Wpt.Checks.{
  IsHeader, IsBound, IsDecoded, check_header_iff, check_claims_iff, decode_with_iff,
}

signature_length :
    {c : Crypto} (key : VerifyingKey c) (m x : Bytes)
    → Key.verify key m x ≡ ok tt
    → (length x == signature_len) ≡ true
unfolding Key.verify
signature_length key m x h = ground arith

module _ {c : Crypto} (decode_slice : ℕ → Str → Option Bytes) where
  -- The third part decodes into a buffer of 96 bytes to a signature of the first two.
  abbrev pub IsSigned : Parts → VerifyingKey c → Type 0
  IsSigned p key =
      (x : Bytes) × (decode_slice 96 p.signature ≡ some x)
      × (Key.verify key (as_bytes (signing_input p.header p.claims)) x ≡ ok tt)

  check_signature_iff :
      (p : Parts) (key : VerifyingKey c)
      → (check_signature decode_slice p key ≡ ok tt) ↔ IsSigned p key
  unfolding check_signature
  check_signature_iff p key = (
    λ h.
        let (x, found, h0) = >>=-eq-ok (ok_or (decode_slice 96 p.signature) malformed_token) _ h in
        let (h1, h2) =
          then-eq-ok (ensure (length x == signature_len) malformed_token)
            (map_err (λ e. invalid_signature)
              (Key.verify key (as_bytes (signing_input p.header p.claims)) x))
            h0 in
        (x, ok_or-eq-ok _ _ x found, map_err-eq-ok _ _ tt h2),
    λ (x, found, good). rw (found, signature_length key _ x good, good) refl,
  )

module _ {c : Crypto} (sha256 : Bytes → Bytes) (url_safe : Base64)
    (decode_slice : ℕ → Str → Option Bytes) (header_json : Json Header)
    (claims_json : Json WptClaims) where
  -- The parts of a proof, read and checked.
  pub record IsVerifiedParts (p : Parts) (key : VerifyingKey c) (v : Validation) (out : VerifiedWpt)
      : Type 0 where
    pub header :
        (h : Header) × IsDecoded url_safe header_json.from_slice p.header h
        × IsHeader h (algorithm key)
    pub signed : IsSigned decode_slice p key
    pub claims : IsDecoded url_safe claims_json.from_slice p.claims out.claims
    pub bound : IsBound sha256 url_safe out.claims v

  verify_parts_iff :
      (p : Parts) (key : VerifyingKey c) (v : Validation) (out : VerifiedWpt)
      → (verify_parts sha256 url_safe decode_slice header_json claims_json p key v ≡ ok out)
        ↔ IsVerifiedParts p key v out
  unfolding verify_parts
  verify_parts_iff p key v out = (
    λ h.
        let (header, h0, k0) =
          >>=-eq-ok (decode_with url_safe header_json.from_slice p.header) _ h in
        let (h1, k1) = then-eq-ok (check_header header (algorithm key)) _ k0 in
        let (h2, k2) = then-eq-ok (check_signature decode_slice p key) _ k1 in
        let (claims, h3, k3) =
          >>=-eq-ok (decode_with url_safe claims_json.from_slice p.claims) _ k2 in
        let (h4, k4) = then-eq-ok (check_claims sha256 url_safe claims v) _ k3 in
        let made : ◌≡◌ {A = VerifiedWpt} (record { claims = claims }) out = cc in
        rw (← made) (record {
          header = (
            header,
            (decode_with_iff url_safe header_json.from_slice p.header header).0 h0,
            (check_header_iff header (algorithm key)).0 h1,
          );
          signed = (check_signature_iff decode_slice p key).0 h2;
          claims = (decode_with_iff url_safe claims_json.from_slice p.claims claims).0 h3;
          bound = (check_claims_iff sha256 url_safe claims v).0 h4;
        }),
    λ r.
        let (header, read, good) = r.header in
        rw
          (
            (decode_with_iff url_safe header_json.from_slice p.header header).1 read,
            (check_header_iff header (algorithm key)).1 good,
            (check_signature_iff decode_slice p key).1 r.signed,
            (decode_with_iff url_safe claims_json.from_slice p.claims out.claims).1 r.claims,
            (check_claims_iff sha256 url_safe out.claims v).1 r.bound,
          )
          refl,
  )

  abbrev pub IsVerifiedWpt : Str → VerifyingKey c → Validation → VerifiedWpt → Type 0
  IsVerifiedWpt token key v out =
      (p : Parts) × (len token ≤ max_token_len)
      × (token ≡ compact p)
      × IsDotless p
      × IsVerifiedParts p key v out

  -- `verify` returns claims exactly when the proof has at most 8192 bytes and is three parts without dots, the header names the type, the algorithm of the key and no critical extension, the signature of the first two parts verifies, and the claims decode and are bound to the clock, the lifetime cap, the audience, the presented WIT, the presence and the hash of the Txn-Token, and a presented token for every entry of `oth`.
  pub wpt_verify_iff :
      (token : Str) (key : VerifyingKey c) (v : Validation) (out : VerifiedWpt)
      → (verify sha256 url_safe decode_slice header_json claims_json token key v ≡ ok out)
        ↔ IsVerifiedWpt token key v out
  unfolding verify
  wpt_verify_iff token key v out = (
    λ h.
        let (h0, k0) = then-eq-ok (ensure (leb (len token) max_token_len) token_too_long) _ h in
        let (p, h1, k1) = >>=-eq-ok (ok_or (three_parts token) malformed_token) _ k0 in
        let short : leb (len token) max_token_len ≡ true = ensure-eq-ok _ _ h0 in
        let (made, dotless) = (three_parts_iff token p).0 (ok_or-eq-ok _ _ p h1) in
        (p, ground arith, made, dotless, (verify_parts_iff p key v out).0 k1),
    λ (p, short, made, dotless, r).
        let fits : leb (len token) max_token_len ≡ true = ground arith in
        rw (fits, (three_parts_iff token p).1 (made, dotless)) ((verify_parts_iff p key v out).1 r),
  )
