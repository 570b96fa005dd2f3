-- ===== src/Wit/Accepts.antt =====
-- What a verified WIT promises, stated apart from `verify`, and that `verify` accepts just that.
use wimsey.Common.{
  ◌≤◌, ◌≡◌, ◌↔◌, refl, true, some, ok, ensure, ok_or, map_err, arith, length, leb, ◌==◌, then-eq-ok,
  >>=-eq-ok, ensure-eq-ok, ok_or-eq-ok, map_err-eq-ok,
}
use wimsey.Text.{Str, Bytes, as_bytes, len}
use wimsey.Jose.Primitives.{Crypto, Base64}
use wimsey.Jose.Key
use wimsey.Jose.Key.{VerifyingKey, algorithm, signature_len}
use wimsey.Jose.Jwk.{to_verifying_key}
use wimsey.Jws.Compact.{Parts, IsDotless, three_parts, three_parts_iff, signing_input, compact}
use wimsey.Jws.Json.{Json}
use wimsey.Wit.Error.{from, base64, malformed_token, token_too_long, invalid_signature}
use wimsey.Wit.Claims.{ClaimsText}
use wimsey.Wit.Token.{
  max_token_len, Header, Validation, VerifiedWit, check_header, check_claims, decode_with,
  claims_from_slice, check_signature, verify_parts, verify,
}
use wimsey.Wit.Checks.{
  IsHeader, IsCurrent, IsDecoded, check_header_iff, check_claims_iff, decode_with_iff,
}

module _ {c : Crypto} (url_safe : Base64) (header_json : Json Header)
    (claims_json : Json ClaimsText) where
  -- The parts of a token, read and checked.
  pub record IsVerifiedParts (p : Parts) (key : VerifyingKey c) (v : Validation)
      (out : VerifiedWit c) : Type 0 where
    pub header :
        (h : Header) × IsDecoded url_safe header_json.from_slice p.header h
        × IsHeader h (algorithm key)
        × (out.kid ≡ h.kid)
    pub signed :
        (x : Bytes) × (url_safe.decode p.signature ≡ some x)
        × (Key.verify key (as_bytes (signing_input p.header p.claims)) x ≡ ok tt)
    pub claims : IsDecoded url_safe (claims_from_slice claims_json) p.claims out.claims
    pub current : IsCurrent out.claims v
    pub pop_key : to_verifying_key url_safe out.claims.cnf.jwk ≡ ok out.pop_key

  signature_length :
      (key : VerifyingKey c) (m x : Bytes)
      → Key.verify key m x ≡ ok tt
      → (length x == signature_len) ≡ true
  unfolding Key.verify
  signature_length key m x h = ground arith

  check_signature_iff :
      (p : Parts) (key : VerifyingKey c)
      → (check_signature url_safe p key ≡ ok tt) ↔ (
          (x : Bytes) × (url_safe.decode p.signature ≡ some x)
          × (Key.verify key (as_bytes (signing_input p.header p.claims)) x ≡ ok tt))
  unfolding check_signature
  check_signature_iff p key = (
    λ h.
        let (x, found, h0) = >>=-eq-ok (ok_or (url_safe.decode p.signature) base64) _ h in
        let (h1, h2) =
          then-eq-ok (ensure (length x == signature_len) malformed_token)
            (map_err (λ e. invalid_signature)
              (Key.verify key (as_bytes (signing_input p.header p.claims)) x))
            h0 in
        (x, ok_or-eq-ok _ _ x found, map_err-eq-ok _ _ tt h2),
    λ (x, found, good). rw (found, signature_length key _ x good, good) refl,
  )

  verify_parts_iff :
      (p : Parts) (key : VerifyingKey c) (v : Validation) (out : VerifiedWit c)
      → (verify_parts url_safe header_json claims_json p key v ≡ ok out)
        ↔ IsVerifiedParts p key v out
  unfolding verify_parts
  verify_parts_iff p key v out = (
    λ h.
        let (header, h0, k0) =
          >>=-eq-ok (decode_with url_safe header_json.from_slice p.header) _ h in
        let (h1, k1) = then-eq-ok (check_header header (algorithm key)) _ k0 in
        let (h2, k2) = then-eq-ok (check_signature url_safe p key) _ k1 in
        let (claims, h3, k3) =
          >>=-eq-ok (decode_with url_safe (claims_from_slice claims_json) p.claims) _ k2 in
        let (h4, k4) = then-eq-ok (check_claims claims v) _ k3 in
        let (pop_key, h5, k5) =
          >>=-eq-ok (map_err from (to_verifying_key url_safe claims.cnf.jwk)) _ k4 in
        let made : ◌≡◌ {A = VerifiedWit c}
            (record { claims = claims; kid = header.kid; pop_key = pop_key }) out =
          cc in
        rw (← made) (record {
          header = (
            header,
            (decode_with_iff url_safe header_json.from_slice p.header header).0 h0,
            (check_header_iff header (algorithm key)).0 h1,
            refl,
          );
          signed = (check_signature_iff p key).0 h2;
          claims = (decode_with_iff url_safe (claims_from_slice claims_json) p.claims claims).0 h3;
          current = (check_claims_iff claims v).0 h4;
          pop_key = map_err-eq-ok _ _ pop_key h5;
        }),
    λ r.
        let (header, read, good, kid) = r.header in
        rw
          (
            (decode_with_iff url_safe header_json.from_slice p.header header).1 read,
            (check_header_iff header (algorithm key)).1 good,
            (check_signature_iff p key).1 r.signed,
            (decode_with_iff url_safe (claims_from_slice claims_json) p.claims out.claims).1
                r.claims,
            (check_claims_iff out.claims v).1 r.current,
            r.pop_key,
            ← kid,
          )
          refl,
  )

  abbrev pub IsVerifiedWit : Str → VerifyingKey c → Validation → VerifiedWit c → Type 0
  IsVerifiedWit token key v out =
      (p : Parts) × (len token ≤ max_token_len)
      × (token ≡ compact p)
      × IsDotless p
      × IsVerifiedParts p key v out

  -- `verify` returns a value exactly when the token has at most 8192 bytes and is three parts without dots, the header names the type, the algorithm of the key and no critical extension, the signature of the first two parts verifies, and the claims decode, are current and hold a usable confirmation key; the value holds those claims, the header's key id and that key.
  pub wit_verify_iff :
      (token : Str) (key : VerifyingKey c) (v : Validation) (out : VerifiedWit c)
      → (verify url_safe header_json claims_json token key v ≡ ok out)
        ↔ IsVerifiedWit token key v out
  unfolding verify
  wit_verify_iff token key v out = (
    λ h.
        let (h0, k0) = then-eq-ok (ensure (leb (len token) max_token_len) token_too_long) _ h in
        let (p, h1, k1) = >>=-eq-ok (ok_or (three_parts token) malformed_token) _ k0 in
        let short : leb (len token) max_token_len ≡ true = ensure-eq-ok _ _ h0 in
        let (made, dotless) = (three_parts_iff token p).0 (ok_or-eq-ok _ _ p h1) in
        (p, ground arith, made, dotless, (verify_parts_iff p key v out).0 k1),
    λ (p, short, made, dotless, r).
        let fits : leb (len token) max_token_len ≡ true = ground arith in
        rw (fits, (three_parts_iff token p).1 (made, dotless)) ((verify_parts_iff p key v out).1 r),
  )
