-- ===== src/Issuer.antt =====
-- crates/issuer/src/lib.rs: the issuer and its handlers.
pub mod Hex
pub mod Settings
pub mod Grants
pub mod Issues
pub mod Answers
use wimsey.Common.{
  ℕ, ◌+◌, Bool, not, Option, none, some, List, [], ◌∷◌, ◌++◌, Result, ok, err, ◌>>=◌, ◌>>◌, ensure,
  ok_or, map_err, and_then, leb, ltb, ◌==◌, u64_max, if◌then◌else◌,
}
use mathlib.Core.Option
use wimsey.Text.{Str, Bytes, codes, trim, to_decimal}
use wimsey.Identifier
use wimsey.Identifier.{WorkloadIdentifier}
use wimsey.Identifier.Validate.{ParseError}
use wimsey.Jose.Primitives.{Crypto, Base64}
use wimsey.Jose.Key.{SigningKey, verifying_key}
use wimsey.Jose.Jwk.{Jwk, from_verifying_key, to_verifying_key}
use wimsey.Jws.Json.{Json}
use wimsey.Wit.Error.{WitError}
use wimsey.Wit.Claims.{WitClaims, ClaimsText}
use wimsey.Wit.Token
use Hex.{random_id}

-- An entry of the JWKS: the key, with `kid` inserted where there is one.
pub record PublishedJwk : Type 0 where
  pub jwk : Jwk
  pub kid : Option Str

pub record Jwks : Type 0 where
  pub keys : List PublishedJwk

pub record Issuer (c : Crypto) : Type 0 where
  pub signing_key : SigningKey c
  pub iss : Str
  pub kid : Option Str
  pub default_ttl : ℕ
  pub jwks : Bytes

pub record IssueRequest : Type 0 where
  pub sub : Str
  pub cnf_jwk : Jwk
  pub ttl : Option ℕ

pub record IssueResponse : Type 0 where
  pub wit : Str

pub data IssueError : Type 0 where
  bad_request : Str → IssueError
  internal : Str → IssueError

-- The status of an error response, and the `error` member of its body.
pub record ErrorResponse : Type 0 where
  pub status : ℕ
  pub message : Str

-- `IssueError::into_response`
unfoldable pub into_response : IssueError → ErrorResponse
into_response (bad_request message) = record { status = 400; message = message }
into_response (internal detail) = record { status = 500; message = codes "internal error" }

abbrev pub healthz : Str
healthz = codes "ok"

-- `u64::checked_add`
abbrev pub checked_add : ℕ → ℕ → Option ℕ
checked_add a b = if leb (a + b) u64_max then some (a + b) else none

-- `Option::unwrap_or`
abbrev pub unwrap_or : {A : Type 0} → Option A → A → A
unwrap_or none a = a
unwrap_or (some b) a = b

module _ {c : Crypto} where
  -- The content type, the cache control and the body.
  abbrev pub jwks_response : Issuer c → Str × Str × Bytes
  jwks_response issuer =
      (codes "application/jwk-set+json", codes "public, max-age=3600", issuer.jwks)

  -- The claims of the token that answers a request.
  abbrev pub claims_for : Issuer c → WorkloadIdentifier → ℕ → ℕ → Str → Jwk → WitClaims
  claims_for issuer sub iat exp jti jwk = record {
    iss = some issuer.iss;
    sub = sub;
    iat = some iat;
    exp = exp;
    jti = some jti;
    cnf = record { jwk = jwk };
  }

-- "requested ttl {}s exceeds the maximum of {}s"
abbrev pub ttl_message : ℕ → ℕ → Str
ttl_message ttl maximum =
    codes "requested ttl "
    ++ (to_decimal ttl ++ (codes "s exceeds the maximum of " ++ (to_decimal maximum ++ codes "s")))

module _ {c : Crypto} where
  -- The lifetime asked for, or the default, which is also the maximum.
  unfoldable pub lifetime : Issuer c → Option ℕ → Result IssueError ℕ
  lifetime issuer asked =
      let ttl = unwrap_or asked issuer.default_ttl in
      do
        ensure (not (ttl == 0)) (bad_request (codes "ttl must be greater than 0"))
        ensure (not (ltb issuer.default_ttl ttl)) (bad_request (ttl_message ttl issuer.default_ttl))
        ok ttl

module _ {c : Crypto} (url_safe : Base64) where
  unfoldable pub public_jwk : Issuer c → Jwk
  public_jwk issuer = from_verifying_key url_safe (verifying_key issuer.signing_key)

  abbrev pub published : SigningKey c → Option Str → Jwks
  published signing_key kid = record {
    keys = record { jwk = from_verifying_key url_safe (verifying_key signing_key); kid = kid } ∷ [];
  }

module _ {c : Crypto} (url_safe : Base64) (jwks_json : Json Jwks) where
  -- `Issuer::new`, which panics on a lifetime of 0, and where the JWKS does not serialize.
  unfoldable pub new : SigningKey c → Str → Option Str → ℕ → Option (Issuer c)
  new signing_key iss kid default_ttl =
      if ltb 0 default_ttl
      then Option.map
          (λ jwks. record {
            signing_key = signing_key;
            iss = iss;
            kid = kid;
            default_ttl = default_ttl;
            jwks = jwks;
          })
          (jwks_json.to_vec (published url_safe signing_key kid))
      else none

-- `issue_wit`, at a clock and with what `getrandom` fills in. `display` and `describe` are the
-- derived `Display` of two error types.
module _ {c : Crypto} (url_safe : Base64) (header_json : Json Token.Header)
    (claims_json : Json ClaimsText) (display : ParseError → Str) (describe : WitError → Str) where
  unfoldable pub issue_wit :
      Issuer c → ℕ → Result Str Bytes → IssueRequest → Result IssueError IssueResponse
  unfolding lifetime
  issue_wit issuer now fill request = do
    sub ←
        map_err (λ e. bad_request (codes "invalid sub: " ++ display e))
          (Identifier.parse (trim request.sub))
    map_err (λ e. bad_request (codes "invalid cnf_jwk"))
        (to_verifying_key {c = c} url_safe request.cnf_jwk)
    ttl ← lifetime issuer request.ttl
    exp ← ok_or (checked_add now ttl) (bad_request (codes "ttl overflows the expiry time"))
    jti ← map_err internal (random_id fill)
    wit ←
        map_err (λ e. internal (describe e))
          (Token.issue url_safe header_json claims_json
            (claims_for issuer sub now exp jti request.cnf_jwk) issuer.kid issuer.signing_key)
    ok (record { wit = wit })
