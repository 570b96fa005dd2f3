-- ===== src/Wit/Issue.antt =====
-- `issue` writes tokens that `verify` accepts.
use wimsey.Common.{◌≤◌, ◌≡◌, refl, Option, none, some, ok, ok_or, >>=-eq-ok, ok_or-eq-ok}
use wimsey.Text.{Str, as_bytes, len}
use wimsey.Jose.Primitives.{Crypto, IsCorrectCrypto, Base64, IsBase64}
use wimsey.Jose.Algorithm
use wimsey.Jose.Algorithm.{parse-as_str}
use wimsey.Jose.Key
use wimsey.Jose.Key.{
  SigningKey, VerifyingKey, verifying_key, signing_algorithm, algorithm-verifying_key,
}
use wimsey.Jose.Jwk.{to_verifying_key}
use wimsey.Identifier
use wimsey.Jws.Compact.{Parts, signing_input, base64-dotless}
use wimsey.Jws.Json.{Json, IsJson}
use wimsey.Wit.Error.{json}
use wimsey.Wit.Claims.{WitClaims, ClaimsText, serialize, deserialize}
use wimsey.Wit.Token.{typ, max_token_len, Header, Validation, issue, verify}
use wimsey.Wit.Checks.{IsCurrent}
use wimsey.Wit.Accepts.{wit_verify_iff}

deserialize-serialize :
    (claims : WitClaims)
    → Identifier.parse claims.sub.uri ≡ ok claims.sub
    → deserialize (serialize claims) ≡ some claims
unfolding deserialize
deserialize-serialize claims h = rw h refl

module _ {c : Crypto} (laws : IsCorrectCrypto c) (url_safe : Base64) (base64 : IsBase64 url_safe)
    (header_json : Json Header) (header_laws : IsJson header_json) (claims_json : Json ClaimsText)
    (claims_laws : IsJson claims_json) where
  -- Under the laws of the parameters, a token that `issue` returned, of at most 8192 bytes, verifies under the public half of the signing key to its claims, its key id and the confirmation key, provided the subject is a parsed identifier, the claims are current and the confirmation key decodes.
  pub wit_verify-issue :
      (claims : WitClaims) (kid : Option Str) (key : SigningKey c) (v : Validation) (token : Str)
      (pop_key : VerifyingKey c)
      → Identifier.parse claims.sub.uri ≡ ok claims.sub
      → IsCurrent claims v
      → to_verifying_key url_safe claims.cnf.jwk ≡ ok pop_key
      → issue url_safe header_json claims_json claims kid key ≡ ok token
      → len token ≤ max_token_len
      → verify url_safe header_json claims_json token (verifying_key key) v
        ≡ ok (record { claims = claims; kid = kid; pop_key = pop_key })
  unfolding issue
  wit_verify-issue claims kid key v token pop_key subject current confirmed issued short =
      let header : Header = record {
        typ = typ;
        alg = Algorithm.as_str (signing_algorithm key);
        kid = kid;
        crit = none;
      } in
      let (hx, h0, k0) = >>=-eq-ok (ok_or (header_json.to_vec header) json) _ issued in
      let (cx, h1, k1) = >>=-eq-ok (ok_or (claims_json.to_vec (serialize claims)) json) _ k0 in
      let input = signing_input (url_safe.encode hx) (url_safe.encode cx) in
      let signature = Key.sign key (as_bytes input) in
      let p : Parts = record {
        header = url_safe.encode hx;
        claims = url_safe.encode cx;
        signature = url_safe.encode signature;
      } in
      let read_header = header_laws.from_slice-to_vec header hx (ok_or-eq-ok _ _ hx h0) in
      let read_claims =
        claims_laws.from_slice-to_vec (serialize claims) cx (ok_or-eq-ok _ _ cx h1) in
      (wit_verify_iff url_safe header_json claims_json token (verifying_key key) v
          (record { claims = claims; kid = kid; pop_key = pop_key })).1
        (
          p,
          short,
          cc,
          record {
            header = base64-dotless _ (base64.encode_chars hx);
            claims = base64-dotless _ (base64.encode_chars cx);
            signature = base64-dotless _ (base64.encode_chars signature);
          },
          record {
            header = (
              header,
              (hx, base64.decode-encode hx, read_header),
              record {
                typ = refl;
                alg = rw (algorithm-verifying_key key) (parse-as_str (signing_algorithm key));
                crit = refl;
              },
              refl,
            );
            signed = (
              signature,
              base64.decode-encode signature,
              Key.verify-sign laws key (as_bytes input),
            );
            claims = (
              cx,
              base64.decode-encode cx,
              rw read_claims (deserialize-serialize claims subject),
            );
            current = current;
            pop_key = confirmed;
          },
        )
