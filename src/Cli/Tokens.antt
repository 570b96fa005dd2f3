-- ===== src/Cli/Tokens.antt =====
-- crates/cli/src/main.rs: `run_wit` and `run_wpt`.
use wimsey.Common.{ℕ, Option, none, some, Result, ok, ◌>>=◌, ok_or, map_err}
use mathlib.Core.Option
use wimsey.Text.{Str, Bytes, codes, trim}
use wimsey.Identifier
use wimsey.Identifier.{WorkloadIdentifier}
use wimsey.Jose.Primitives.{Crypto, Base64}
use wimsey.Jose.Jwk.{from_verifying_key}
use wimsey.Jws.Json.{Json}
use wimsey.Wit.Claims.{WitClaims, ClaimsText}
use wimsey.Wit.Token
use wimsey.Wit.Token.{VerifiedWit}
use wimsey.Wpt.Token as Proof
use wimsey.Wpt.Token.{WptClaims, VerifiedWpt, wit_thumbprint}
use wimsey.Issuer.{checked_add, unwrap_or}
use wimsey.Cli.Error.{CliError, message, identifier, wit, wpt}
use wimsey.Cli.Key
use wimsey.Cli.Key.{JwkKey, load}
use wimsey.Cli.HttpSign.{or_random, wit_validation}
use wimsey.Cli.Commands.{read_token}

-- The arguments of `WitCmd::Issue`.
pub record WitIssueArgs : Type 0 where
  pub issuer_key : Str
  pub sub : Str
  pub iss : Option Str
  pub cnf_key : Str
  pub ttl : ℕ
  pub kid : Option Str
  pub jti : Option Str
  pub now : Option ℕ

-- The arguments of `WptCmd::New`.
pub record WptNewArgs : Type 0 where
  pub pop_key : Str
  pub wit : Str
  pub aud : Str
  pub ttl : ℕ
  pub jti : Option Str
  pub now : Option ℕ

-- The arguments of `WptCmd::Verify`.
pub record WptVerifyArgs : Type 0 where
  pub issuer_jwk : Str
  pub wit : Str
  pub aud : Str
  pub proof : Str
  pub expected_iss : Option Str
  pub now : Option ℕ

module _ (c : Crypto) (url_safe : Base64) (key_json : Json JwkKey) (read : Str → Option Bytes)
    (header_json : Json Token.Header) (claims_json : Json ClaimsText) where
  unfoldable pub wit_issue : WitIssueArgs → ℕ → Option Bytes → Result CliError Str
  wit_issue args clock fill =
      let iat = unwrap_or args.now clock in
      do
        issuer_file ← load read key_json args.issuer_key
        issuer ← Key.signing_key {c = c} url_safe issuer_file
        cnf_file ← load read key_json args.cnf_key
        cnf ← Key.verifying_key {c = c} url_safe cnf_file
        exp ← ok_or (checked_add iat args.ttl) (message (codes "ttl overflows the expiry time"))
        sub ← map_err identifier (Identifier.parse (trim args.sub))
        jti ← or_random args.jti fill
        let claims : WitClaims = record {
          iss = Option.map trim args.iss;
          sub = sub;
          iat = some iat;
          exp = exp;
          jti = some jti;
          cnf = record { jwk = from_verifying_key url_safe cnf };
        }
        map_err wit (Token.issue url_safe header_json claims_json claims args.kid issuer)

  -- `WitCmd::Verify`, with its token or the file of it.
  unfoldable pub wit_verify :
      (Str → Option Str)
      → Str
      → Option Str
      → Option Str
      → Option Str
      → Option ℕ
      → ℕ
      → Result CliError (VerifiedWit c)
  wit_verify read_to_string issuer_jwk given path expected_iss now clock = do
    file_key ← load read key_json issuer_jwk
    key ← Key.verifying_key {c = c} url_safe file_key
    token ← read_token read_to_string given path
    map_err wit (
        Token.verify url_safe header_json claims_json token key
          (wit_validation (unwrap_or now clock) expected_iss))

module _ (c : Crypto) (url_safe : Base64) (key_json : Json JwkKey) (read : Str → Option Bytes)
    (sha256 : Bytes → Bytes) (proof_header_json : Json Proof.Header)
    (proof_claims_json : Json WptClaims) where
  unfoldable pub wpt_new : WptNewArgs → ℕ → Option Bytes → Result CliError Str
  wpt_new args clock fill =
      let iat = unwrap_or args.now clock in
      do
        file_key ← load read key_json args.pop_key
        pop ← Key.signing_key {c = c} url_safe file_key
        exp ← ok_or (checked_add iat args.ttl) (message (codes "ttl overflows the expiry time"))
        jti ← or_random args.jti fill
        let claims : WptClaims = record {
          aud = trim args.aud;
          exp = exp;
          jti = jti;
          wth = wit_thumbprint sha256 url_safe (trim args.wit);
          tth = none;
          oth = none;
        }
        map_err wpt (Proof.issue url_safe proof_header_json proof_claims_json claims pop)

  module _ (decode_slice : ℕ → Str → Option Bytes) (header_json : Json Token.Header)
      (claims_json : Json ClaimsText) where
    -- What `WptCmd::Verify` prints: the subject of the token and the claims of the proof.
    unfoldable pub wpt_verify : WptVerifyArgs → ℕ → Result CliError (Str × WptClaims)
    wpt_verify args clock =
        let token = trim args.wit in
        let now = unwrap_or args.now clock in
        do
          file_key ← load read key_json args.issuer_jwk
          issuer ← Key.verifying_key {c = c} url_safe file_key
          verified_wit ← map_err wit (
              Token.verify url_safe header_json claims_json token issuer
                (wit_validation now args.expected_iss))
          verified ← map_err wpt (
              Proof.verify sha256 url_safe decode_slice proof_header_json proof_claims_json
                (trim args.proof) verified_wit.pop_key (Proof.new now (trim args.aud) token))
          ok (verified_wit.claims.sub.uri, verified.claims)
