-- ===== src/Wpt/Issue.antt =====
-- `issue` writes proofs that `verify` accepts.
use wimsey.Common.{ℕ, ◌≤◌, ◌≡◌, refl, Option, none, some, ok, ok_or, >>=-eq-ok, ok_or-eq-ok, length}
use wimsey.Text.{Str, Bytes, as_bytes, len}
use wimsey.Jose.Primitives.{Crypto, IsCorrectCrypto, Base64, IsBase64}
use wimsey.Jose.Algorithm
use wimsey.Jose.Algorithm.{parse-as_str}
use wimsey.Jose.Key
use wimsey.Jose.Key.{
  SigningKey, VerifyingKey, verifying_key, signing_algorithm, algorithm-verifying_key,
}
use wimsey.Jws.Compact.{Parts, signing_input, base64-dotless}
use wimsey.Jws.Json.{Json, IsJson}
use wimsey.Wpt.Error.{json}
use wimsey.Wpt.Token.{typ, max_token_len, Header, Validation, WptClaims, issue, verify}
use wimsey.Wpt.Checks.{IsBound}
use wimsey.Wpt.Accepts.{wpt_verify_iff}

-- The engine decodes 64 bytes that it encoded into a buffer of 96.
abbrev pub IsDecodeSlice : Base64 → (ℕ → Str → Option Bytes) → Type 0
IsDecodeSlice url_safe decode_slice =
    (x : Bytes) → length x ≡ 64 → decode_slice 96 (url_safe.encode x) ≡ some x

module _ {c : Crypto} (laws : IsCorrectCrypto c) (sha256 : Bytes → Bytes) (url_safe : Base64)
    (base64 : IsBase64 url_safe) (decode_slice : ℕ → Str → Option Bytes)
    (slices : IsDecodeSlice url_safe decode_slice) (header_json : Json Header)
    (header_laws : IsJson header_json) (claims_json : Json WptClaims)
    (claims_laws : IsJson claims_json) where
  -- Under the laws of the parameters, a proof that `issue` returned, of at most 8192 bytes, verifies under the public half of the signing key to its claims, provided that these are bound to what the recipient validates.
  pub wpt_verify-issue :
      (claims : WptClaims) (key : SigningKey c) (v : Validation) (token : Str)
      → IsBound sha256 url_safe claims v
      → issue url_safe header_json claims_json claims key ≡ ok token
      → len token ≤ max_token_len
      → verify sha256 url_safe decode_slice header_json claims_json token (verifying_key key) v
        ≡ ok (record { claims = claims })
  unfolding issue
  wpt_verify-issue claims key v token bound issued short =
      let header : Header = record {
        typ = typ;
        alg = Algorithm.as_str (signing_algorithm key);
        crit = none;
      } in
      let (hx, h0, k0) = >>=-eq-ok (ok_or (header_json.to_vec header) json) _ issued in
      let (cx, h1, k1) = >>=-eq-ok (ok_or (claims_json.to_vec claims) json) _ k0 in
      let input = signing_input (url_safe.encode hx) (url_safe.encode cx) in
      let signature = Key.sign key (as_bytes input) in
      let p : Parts = record {
        header = url_safe.encode hx;
        claims = url_safe.encode cx;
        signature = url_safe.encode signature;
      } in
      (wpt_verify_iff sha256 url_safe decode_slice header_json claims_json token (verifying_key key)
          v (record { claims = claims })).1
        (
          p,
          short,
          cc,
          record {
            header = base64-dotless _ (base64.encode_chars hx);
            claims = base64-dotless _ (base64.encode_chars cx);
            signature = base64-dotless _ (base64.encode_chars signature);
          },
          record {
            header = (
              header,
              (
                hx,
                base64.decode-encode hx,
                header_laws.from_slice-to_vec header hx (ok_or-eq-ok _ _ hx h0),
              ),
              record {
                typ = refl;
                alg = rw (algorithm-verifying_key key) (parse-as_str (signing_algorithm key));
                crit = refl;
              },
            );
            signed = (
              signature,
              slices signature (Key.length-sign laws key (as_bytes input)),
              Key.verify-sign laws key (as_bytes input),
            );
            claims = (
              cx,
              base64.decode-encode cx,
              claims_laws.from_slice-to_vec claims cx (ok_or-eq-ok _ _ cx h1),
            );
            bound = bound;
          },
        )
