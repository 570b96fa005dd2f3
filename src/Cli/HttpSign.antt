-- ===== src/Cli/HttpSign.antt =====
-- crates/cli/src/httpsig.rs: `run_sign` and `run_verify`.
pub mod Fields
pub mod Covered
pub mod Trust
use wimsey.Common.{
  ℕ, ◌+◌, Bool, true, false, not, ◌&&◌, ◌||◌, Option, none, some, List, [], ◌∷◌, ◌++◌, map, Result,
  ok, err, ◌>>=◌, ◌>>◌, ensure, ok_or, map_err, leb, u64_max, if◌then◌else◌,
}
use mathlib.Core.Option
use wimsey.Text.{Str, Bytes, codes, str_eq, is_empty, trim}
use wimsey.Jose.Primitives.{Crypto, Base64}
use wimsey.Jose.Key.{SigningKey, VerifyingKey}
use wimsey.Jws.Json.{Json}
use wimsey.HttpSig.Error.{HttpSigError}
use wimsey.HttpSig.Message.{
  Component, header_named, Headers, HttpRequest, request_value, of_request, content_digest_sha256,
  verify_content_digest,
}
use wimsey.HttpSig.Params.{SignatureParams}
use wimsey.HttpSig.Member.{wimse_tag}
use wimsey.HttpSig.Profile.{has_header, request_components}
use wimsey.HttpSig.Signature
use wimsey.HttpSig.Signature.{SignedSignature, VerifiedSignature, VerifyConfig}
use wimsey.Wit.Claims.{ClaimsText}
use wimsey.Wit.Token
use wimsey.Wit.Token.{VerifiedWit}
use wimsey.Issuer.{checked_add, unwrap_or}
use wimsey.Issuer.Hex.{push_all}
use wimsey.Cli.Error.{CliError, message, httpsig, wit, file, random}
use wimsey.Cli.Key
use wimsey.Cli.Key.{JwkKey, load}
use wimsey.Cli.Request.{parse_headers, build_request, chosen_components, checked_label}

pub record SignArgs : Type 0 where
  pub pop_key : Str
  pub method : Str
  pub authority : Str
  pub path : Str
  pub query : Option Str
  pub header : List Str
  pub wit : Option Str
  pub body_file : Option Str
  pub cover : Option Str
  pub aud : Str
  pub nonce : Option Str
  pub created : Option ℕ
  pub expires_in : ℕ
  pub sign_response : Bool
  pub label : Str

pub record VerifyArgs : Type 0 where
  pub issuer_jwk : Str
  pub wit : Str
  pub method : Str
  pub authority : Str
  pub path : Str
  pub query : Option Str
  pub header : List Str
  pub body_file : Option Str
  pub signature_input : Str
  pub signature : Str
  pub aud : List Str
  pub require : Option Str
  pub expected_iss : Option Str
  pub max_age : Option ℕ
  pub leeway : ℕ
  pub now : Option ℕ

-- `random_id`: each of 16 bytes as two digits.
unfoldable pub random_id : Option Bytes → Result CliError Str
random_id fill = do bytes ← ok_or fill random; ok (push_all bytes)

-- An argument, or a random value.
abbrev pub or_random : Option Str → Option Bytes → Result CliError Str
or_random (some given) fill = ok given
or_random none fill = random_id fill

-- `--expected-iss`
abbrev pub wit_validation : ℕ → Option Str → Token.Validation
wit_validation now none = Token.at now
wit_validation now (some iss) = Token.expect_issuer (Token.at now) (trim iss)

abbrev wit_header : Str
wit_header = codes "Workload-Identity-Token"

-- The token as a header, unless there is one.
unfoldable pub with_wit : Headers → Str → Headers
with_wit headers token =
    if has_header headers (codes "workload-identity-token")
    then headers
    else headers ++ ((wit_header, token) ∷ [])

unfoldable pub add_wit : Headers → Option Str → Result CliError Headers
add_wit headers none = ok headers
add_wit headers (some token) = do
  ensure (not (has_header headers (codes "workload-identity-token")))
      (message (codes "do not pass a Workload-Identity-Token header together with --wit"))
  ok (headers ++ ((wit_header, trim token) ∷ []))

-- The body, if a file is named.
unfoldable pub read_body : (Str → Option Bytes) → Option Str → Result CliError (Option Bytes)
read_body read none = ok none
read_body read (some path) = do body ← ok_or (read path) file; ok (some body)

module _ (sha256 : Bytes → Bytes) (standard : Base64) where
  abbrev digest : Bytes → Str
  digest = content_digest_sha256 sha256 standard.encode

  -- The digest of the body as a header, unless there is one.
  unfoldable pub with_digest : Headers → Option Bytes → Headers
  with_digest headers none = headers
  with_digest headers (some body) =
      if has_header headers (codes "content-digest")
      then headers
      else headers ++ ((codes "Content-Digest", digest body) ∷ [])

  unfoldable pub add_digest : (Str → Option Bytes) → Headers → Option Str → Result CliError Headers
  add_digest read headers none = ok headers
  add_digest read headers (some path) = do
    ensure (not (has_header headers (codes "content-digest")))
        (message (codes "do not pass a Content-Digest header together with --body-file"))
    body ← ok_or (read path) file
    ok (headers ++ ((codes "Content-Digest", digest body) ∷ []))

  -- The digest that the signature covers is that of the body.
  unfoldable pub check_body : HttpRequest → Option Bytes → Result CliError Unit
  check_body request none = ok tt
  check_body request (some body) = do
    covered ←
        map_err (λ e. message (codes "content-digest header is missing"))
          (request_value request (header_named (codes "content-digest")))
    ensure (verify_content_digest sha256 standard.encode covered body)
        (message (codes "content-digest does not match the body"))

-- The token that the signature covers is the one that was verified.
unfoldable pub check_wit : HttpRequest → Str → Result CliError Unit
check_wit request token = do
  covered ←
      map_err (λ e. message (codes "workload-identity-token header is missing"))
        (request_value request (header_named (codes "workload-identity-token")))
  ensure (str_eq covered token)
      (message (codes "the supplied Workload-Identity-Token header does not match --wit"))

abbrev config_of : VerifyArgs → ℕ → List Component → VerifyConfig
config_of args now required = record {
  now = some now;
  leeway = args.leeway;
  label = none;
  required_components = required;
  max_age = args.max_age;
  wimse_profile = true;
  expected_audiences = map trim args.aud;
  wimse_response_profile = false;
  expected_req_nonce = none;
  accepted_algorithms = [];
}

module _ (c : Crypto) (url_safe standard : Base64) (sha256 : Bytes → Bytes) (key_json : Json JwkKey)
    (read : Str → Option Bytes) where
  unfoldable pub run_sign : SignArgs → ℕ → Option Bytes → Result CliError SignedSignature
  unfolding load random_id chosen_components
  run_sign args clock fill = do
    file_key ← load read key_json args.pop_key
    pop ← Key.signing_key {c = c} url_safe file_key
    given ← parse_headers args.header
    digested ← add_digest sha256 standard read given args.body_file
    headers ← add_wit digested args.wit
    request ← build_request args.method args.authority args.path args.query headers
    components ← chosen_components args.cover (request_components request)
    ensure (not (is_empty (trim args.aud))) (message (codes "aud must not be empty"))
    let created = unwrap_or args.created clock
    expires ←
        ok_or (checked_add created args.expires_in)
          (message (codes "expires-in overflows the expiry time"))
    nonce ← or_random args.nonce fill
    label ← checked_label args.label
    let params : SignatureParams = record {
      created = some created;
      expires = some expires;
      nonce = some nonce;
      keyid = none;
      alg = none;
      tag = some wimse_tag;
      wimse_aud = some (trim args.aud);
      wimse_req_nonce = none;
      wimse_sign_response = if args.sign_response then some true else none;
    }
    map_err httpsig (Signature.sign standard (of_request request) components params label pop)

  module _ (header_json : Json Token.Header) (claims_json : Json ClaimsText) where
    -- The subject and the label that `run_verify` prints.
    unfoldable pub run_verify : VerifyArgs → ℕ → Result CliError (Str × Str)
    unfolding load chosen_components
    run_verify args clock =
        let token = trim args.wit in
        let now = unwrap_or args.now clock in
        do
          file_key ← load read key_json args.issuer_jwk
          issuer ← Key.verifying_key {c = c} url_safe file_key
          verified_wit ← map_err wit (
              Token.verify url_safe header_json claims_json token issuer
                (wit_validation now args.expected_iss))
          given ← parse_headers args.header
          body ← read_body read args.body_file
          let headers = with_digest sha256 standard (with_wit given token) body
          request ← build_request args.method args.authority args.path args.query headers
          check_wit request token
          required ← chosen_components args.require (request_components request)
          verified ← map_err httpsig (
              Signature.verify standard (of_request request) (trim args.signature_input)
                (trim args.signature) verified_wit.pop_key (config_of args now required))
          check_body sha256 standard request body
          ok (verified_wit.claims.sub.uri, verified.label)
