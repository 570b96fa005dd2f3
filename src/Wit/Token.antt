-- ===== src/Wit/Token.antt =====
-- crates/wit/src/token.rs: `issue` and `verify`.
use wimsey.Common.{
  ℕ, Bool, false, Option, none, some, List, ◌++◌, ◌∷◌, Result, ok, ◌>>=◌, ◌>>◌, ensure, ok_or,
  and_then, map_err, is_none, leb, ltb, ◌==◌, length, saturating_add,
}
use wimsey.Text.{Str, Bytes, codes, str_eq, as_bytes, len}
use wimsey.Jose.Primitives.{Crypto, Base64}
use wimsey.Jose.Algorithm
use wimsey.Jose.Algorithm.{Algorithm, JoseError, algorithm_eq}
use wimsey.Jose.Key
use wimsey.Jose.Key.{SigningKey, VerifyingKey, algorithm, signing_algorithm, signature_len}
use wimsey.Jose.Jwk.{to_verifying_key}
use wimsey.Jws.Compact.{Parts, three_parts, signing_input}
use wimsey.Jws.Json.{Json}
use wimsey.Wit.Error.{
  WitError, malformed_token, token_too_long, unsupported_critical, base64, json, wrong_type,
  unsupported_alg, invalid_signature, expired, issued_in_future, issuer_mismatch,
  algorithm_mismatch, from,
}
use wimsey.Wit.Claims.{WitClaims, ClaimsText, serialize, deserialize}

-- `TYP`
abbrev pub typ : Str
typ = codes "wit+jwt"

-- `MAX_TOKEN_LEN`
abbrev pub max_token_len : ℕ
max_token_len = 8192

pub record Header : Type 0 where
  pub typ : Str
  pub alg : Str
  pub kid : Option Str
  pub crit : Option (List Str)

pub record Validation : Type 0 where
  pub now : ℕ
  pub leeway : ℕ
  pub expected_issuer : Option Str

-- `Validation::at`
abbrev pub at : ℕ → Validation
at now = record { now = now; leeway = 0; expected_issuer = none }

-- `Validation::with_leeway`
abbrev pub with_leeway : Validation → ℕ → Validation
with_leeway v leeway = record v { leeway = leeway }

-- `Validation::expect_issuer`
abbrev pub expect_issuer : Validation → Str → Validation
expect_issuer v issuer = record v { expected_issuer = some issuer }

pub record VerifiedWit (c : Crypto) : Type 0 where
  pub claims : WitClaims
  pub kid : Option Str
  pub pop_key : VerifyingKey c

-- The closure that maps the errors of `Algorithm::parse`.
abbrev pub alg_error : JoseError → WitError
alg_error (JoseError.unsupported_alg found) = unsupported_alg found
alg_error (JoseError.forbidden_alg found) = unsupported_alg found
alg_error JoseError.missing_alg = from JoseError.missing_alg
alg_error JoseError.invalid_key = from JoseError.invalid_key
alg_error JoseError.invalid_signature = from JoseError.invalid_signature
alg_error JoseError.invalid_encoding = from JoseError.invalid_encoding

-- The checks on `typ`, `alg` and `crit`.
unfoldable pub check_header : Header → Algorithm → Result WitError Unit
check_header header key_algorithm = do
  ensure (str_eq header.typ typ) (wrong_type header.typ)
  alg ← map_err alg_error (Algorithm.parse header.alg)
  ensure (algorithm_eq alg key_algorithm) algorithm_mismatch
  ensure (is_none header.crit) unsupported_critical

abbrev pub check_iat : Validation → Option ℕ → Result WitError Unit
check_iat v none = ok tt
check_iat v (some iat) = ensure (leb iat (saturating_add v.now v.leeway)) issued_in_future

abbrev pub is_issuer : Option Str → Str → Bool
is_issuer none expected = false
is_issuer (some iss) expected = str_eq iss expected

abbrev pub check_issuer : Option Str → Option Str → Result WitError Unit
check_issuer none iss = ok tt
check_issuer (some expected) iss = ensure (is_issuer iss expected) issuer_mismatch

-- The checks on the claims, but for the confirmation key.
unfoldable pub check_claims : WitClaims → Validation → Result WitError Unit
check_claims claims v = do
  ensure (ltb v.now (saturating_add claims.exp v.leeway)) expired
  check_iat v claims.iat
  check_issuer v.expected_issuer claims.iss

-- `URL_SAFE_NO_PAD.decode` and `serde_json::from_slice` under `?`.
abbrev pub decode_with : {T : Type 0} → Base64 → (Bytes → Option T) → Str → Result WitError T
decode_with url_safe from_slice text = do
  bytes ← ok_or (url_safe.decode text) base64
  ok_or (from_slice bytes) json

abbrev pub claims_from_slice : Json ClaimsText → Bytes → Option WitClaims
claims_from_slice claims_json bytes = and_then (claims_json.from_slice bytes) deserialize

module _ {c : Crypto} (url_safe : Base64) where
  -- The signature of the first two parts, by the third.
  unfoldable pub check_signature : Parts → VerifyingKey c → Result WitError Unit
  check_signature p key = do
    signature ← ok_or (url_safe.decode p.signature) base64
    ensure (length signature == signature_len) malformed_token
    map_err (λ e. invalid_signature)
        (Key.verify key (as_bytes (signing_input p.header p.claims)) signature)

module _ {c : Crypto} (url_safe : Base64) (header_json : Json Header)
    (claims_json : Json ClaimsText) where
  unfoldable pub issue : WitClaims → Option Str → SigningKey c → Result WitError Str
  issue claims kid key =
      let header : Header = record {
        typ = typ;
        alg = Algorithm.as_str (signing_algorithm key);
        kid = kid;
        crit = none;
      } in
      do
        header_bytes ← ok_or (header_json.to_vec header) json
        claims_bytes ← ok_or (claims_json.to_vec (serialize claims)) json
        let input = signing_input (url_safe.encode header_bytes) (url_safe.encode claims_bytes)
        ok (input ++ b'.' ∷ url_safe.encode (Key.sign key (as_bytes input)))

  -- What `verify` checks of the three parts.
  unfoldable pub verify_parts :
      Parts → VerifyingKey c → Validation → Result WitError (VerifiedWit c)
  unfolding check_header check_signature check_claims
  verify_parts p key v = do
    header ← decode_with url_safe header_json.from_slice p.header
    check_header header (algorithm key)
    check_signature url_safe p key
    claims ← decode_with url_safe (claims_from_slice claims_json) p.claims
    check_claims claims v
    pop_key ← map_err from (to_verifying_key url_safe claims.cnf.jwk)
    ok (record { claims = claims; kid = header.kid; pop_key = pop_key })

  unfoldable pub verify : Str → VerifyingKey c → Validation → Result WitError (VerifiedWit c)
  unfolding verify_parts
  verify token key v = do
    ensure (leb (len token) max_token_len) token_too_long
    p ← ok_or (three_parts token) malformed_token
    verify_parts p key v
