-- ===== src/Wpt/Token.antt =====
-- crates/wpt/src/claims.rs and crates/wpt/src/token.rs: `issue` and `verify`.
use wimsey.Common.{
  ℕ, ◌-◌, Option, none, some, List, [], ◌++◌, ◌∷◌, Result, ok, err, ◌>>=◌, ◌>>◌, ensure, ok_or,
  map_err, is_none, leb, ltb, ◌==◌, if◌then◌else◌, length, saturating_add,
}
use wimsey.Text.{Str, Bytes, codes, str_eq, as_bytes, len, to_ascii_lowercase, trim_matches}
use wimsey.Jose.Primitives.{Crypto, Base64}
use wimsey.Jose.Algorithm
use wimsey.Jose.Algorithm.{Algorithm, JoseError, algorithm_eq}
use wimsey.Jose.Key
use wimsey.Jose.Key.{SigningKey, VerifyingKey, algorithm, signing_algorithm, signature_len}
use wimsey.Jws.Compact.{Parts, three_parts, signing_input}
use wimsey.Jws.Json.{Json}
use wimsey.Wpt.Error.{
  WptError, malformed_token, token_too_long, base64, json, wrong_type, unsupported_alg,
  unsupported_critical, algorithm_mismatch, invalid_signature, expired, audience_mismatch,
  wit_binding_mismatch, txn_token_binding_mismatch, other_token_binding_mismatch, lifetime_too_long,
}

-- `TYP`
abbrev pub typ : Str
typ = codes "wpt+jwt"

-- `MAX_TOKEN_LEN`
abbrev pub max_token_len : ℕ
max_token_len = 8192

-- A `BTreeMap<String, String>`, as its entries in order.
abbrev pub Entries : Type 0
Entries = List (Str × Str)

pub record WptClaims : Type 0 where
  pub aud : Str
  pub exp : ℕ
  pub jti : Str
  pub wth : Str
  pub tth : Option Str
  pub oth : Option Entries

pub record Header : Type 0 where
  pub typ : Str
  pub alg : Str
  pub crit : Option (List Str)

pub record Validation : Type 0 where
  pub now : ℕ
  pub leeway : ℕ
  pub audience : Str
  pub wit : Str
  pub txn_token : Option Str
  pub other_tokens : Entries
  pub max_lifetime : Option ℕ

pub record VerifiedWpt : Type 0 where
  pub claims : WptClaims

-- `Validation::new`
abbrev pub new : ℕ → Str → Str → Validation
new now audience wit = record {
  now = now;
  leeway = 0;
  audience = audience;
  wit = wit;
  txn_token = none;
  other_tokens = [];
  max_lifetime = none;
}

-- `Validation::with_leeway`
abbrev pub with_leeway : Validation → ℕ → Validation
with_leeway v leeway = record v { leeway = leeway }

-- `Validation::with_txn_token`
abbrev pub with_txn_token : Validation → Str → Validation
with_txn_token v txn_token = record v { txn_token = some txn_token }

-- `BTreeMap::get`
unfoldable pub get : Entries → Str → Option Str
get [] name = none
get ((n, value) ∷ rest) name = if str_eq n name then some value else get rest name

-- `BTreeMap::insert`, whose result is only looked into by `get`.
unfoldable pub insert : Entries → Str → Str → Entries
insert [] name value = (name, value) ∷ []
insert ((n, v) ∷ rest) name value =
    let later = insert rest name value in
    if str_eq n name then (n, value) ∷ rest else (n, v) ∷ later

-- `Validation::with_other_token`
abbrev pub with_other_token : Validation → Str → Str → Validation
with_other_token v header_name header_value = record v {
  other_tokens = insert v.other_tokens (to_ascii_lowercase header_name) header_value;
}

-- `Validation::with_max_lifetime`
abbrev pub with_max_lifetime : Validation → ℕ → Validation
with_max_lifetime v seconds = record v { max_lifetime = some seconds }

-- The hash of a token, over SHA-256 and the URL-safe engine.
module _ (sha256 : Bytes → Bytes) (url_safe : Base64) where
  unfoldable pub sha256_b64u : Str → Str
  sha256_b64u value = url_safe.encode (sha256 (as_bytes value))

  abbrev pub wit_thumbprint : Str → Str
  wit_thumbprint wit = sha256_b64u wit

  abbrev pub txn_token_thumbprint : Str → Str
  txn_token_thumbprint txn_token = sha256_b64u txn_token

  unfoldable pub other_token_entry : Str → Str → Str × Str
  other_token_entry header_name header_value =
      (to_ascii_lowercase header_name, sha256_b64u (trim_matches (λ c. c == b' ') header_value))

-- The closure that maps the errors of `Algorithm::parse`.
abbrev pub alg_error : Str → JoseError → WptError
alg_error alg (JoseError.unsupported_alg found) = unsupported_alg found
alg_error alg (JoseError.forbidden_alg found) = unsupported_alg found
alg_error alg JoseError.missing_alg = unsupported_alg alg
alg_error alg JoseError.invalid_key = unsupported_alg alg
alg_error alg JoseError.invalid_signature = unsupported_alg alg
alg_error alg JoseError.invalid_encoding = unsupported_alg alg

-- The checks on `typ`, `alg` and `crit`.
unfoldable pub check_header : Header → Algorithm → Result WptError Unit
check_header header key_algorithm = do
  ensure (str_eq header.typ typ) (wrong_type header.typ)
  alg ← map_err (alg_error header.alg) (Algorithm.parse header.alg)
  ensure (algorithm_eq alg key_algorithm) algorithm_mismatch
  ensure (is_none header.crit) unsupported_critical

abbrev pub check_lifetime : Validation → ℕ → Result WptError Unit
check_lifetime v exp = elim v.max_lifetime [
  | none ↦ ok tt
  | some max ↦ ensure (leb (exp - v.now) max) lifetime_too_long
]

module _ (sha256 : Bytes → Bytes) (url_safe : Base64) where
  -- The `match` on the Txn-Token and the `tth` claim.
  unfoldable pub check_txn_token : Option Str → Option Str → Result WptError Unit
  check_txn_token none none = ok tt
  check_txn_token (some txn_token) (some tth) =
      ensure (str_eq tth (txn_token_thumbprint sha256 url_safe txn_token))
        txn_token_binding_mismatch
  check_txn_token none (some tth) = err txn_token_binding_mismatch
  check_txn_token (some txn_token) none = err txn_token_binding_mismatch

  -- The loop over the entries of `oth`.
  unfoldable pub check_entries : Entries → Entries → Result WptError Unit
  check_entries presented [] = ok tt
  check_entries presented ((name, hash) ∷ rest) = do
    value ← ok_or (get presented name) (other_token_binding_mismatch name)
    ensure (str_eq hash (other_token_entry sha256 url_safe name value).1)
        (other_token_binding_mismatch name)
    check_entries presented rest

  abbrev pub check_oth : Entries → Option Entries → Result WptError Unit
  check_oth presented none = ok tt
  check_oth presented (some oth) = check_entries presented oth

  -- The checks on the claims.
  unfoldable pub check_claims : WptClaims → Validation → Result WptError Unit
  check_claims claims v = do
    ensure (ltb v.now (saturating_add claims.exp v.leeway)) expired
    check_lifetime v claims.exp
    ensure (str_eq claims.aud v.audience) audience_mismatch
    ensure (str_eq claims.wth (wit_thumbprint sha256 url_safe v.wit)) wit_binding_mismatch
    check_txn_token v.txn_token claims.tth
    check_oth v.other_tokens claims.oth

-- `URL_SAFE_NO_PAD.decode` and `serde_json::from_slice` under `?`.
abbrev pub decode_with : {T : Type 0} → Base64 → (Bytes → Option T) → Str → Result WptError T
decode_with url_safe from_slice text = do
  bytes ← ok_or (url_safe.decode text) base64
  ok_or (from_slice bytes) json

-- `decode_slice` into a buffer of the given size: `none` where the text is no Base64 or where the
-- engine's estimate of the length is larger than the buffer.
module _ {c : Crypto} (decode_slice : ℕ → Str → Option Bytes) where
  unfoldable pub check_signature : Parts → VerifyingKey c → Result WptError Unit
  check_signature p key = do
    signature ← ok_or (decode_slice 96 p.signature) malformed_token
    ensure (length signature == signature_len) malformed_token
    map_err (λ e. invalid_signature)
        (Key.verify key (as_bytes (signing_input p.header p.claims)) signature)

module _ {c : Crypto} (url_safe : Base64) (header_json : Json Header)
    (claims_json : Json WptClaims) where
  unfoldable pub issue : WptClaims → SigningKey c → Result WptError Str
  issue claims key =
      let header : Header = record {
        typ = typ;
        alg = Algorithm.as_str (signing_algorithm key);
        crit = none;
      } in
      do
        header_bytes ← ok_or (header_json.to_vec header) json
        claims_bytes ← ok_or (claims_json.to_vec claims) json
        let input = signing_input (url_safe.encode header_bytes) (url_safe.encode claims_bytes)
        ok (input ++ b'.' ∷ url_safe.encode (Key.sign key (as_bytes input)))

module _ {c : Crypto} (sha256 : Bytes → Bytes) (url_safe : Base64)
    (decode_slice : ℕ → Str → Option Bytes) (header_json : Json Header)
    (claims_json : Json WptClaims) where
  -- What `verify` checks of the three parts.
  unfoldable pub verify_parts : Parts → VerifyingKey c → Validation → Result WptError VerifiedWpt
  unfolding check_header check_signature check_claims
  verify_parts p key v = do
    header ← decode_with url_safe header_json.from_slice p.header
    check_header header (algorithm key)
    check_signature decode_slice p key
    claims ← decode_with url_safe claims_json.from_slice p.claims
    check_claims sha256 url_safe claims v
    ok (record { claims = claims })

  unfoldable pub verify : Str → VerifyingKey c → Validation → Result WptError VerifiedWpt
  unfolding verify_parts
  verify token key v = do
    ensure (leb (len token) max_token_len) token_too_long
    p ← ok_or (three_parts token) malformed_token
    verify_parts p key v
