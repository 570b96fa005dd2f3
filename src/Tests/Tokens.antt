-- ===== src/Tests/Tokens.antt =====
-- A WIT and a WPT, issued and verified with the concrete primitives.
use wimsey.Common.{
  ℕ, ◌≤◌, ◌≡◌, refl, true, false, Option, none, some, List, [], Result, ok, err, arith, leb,
}
use wimsey.Text.{Str, codes, len, strip_prefix, contains_char, split_once, as_bytes, encode_char}
use wimsey.Identifier
use wimsey.Identifier.{WorkloadIdentifier}
use wimsey.Identifier.Validate.{wimse, validate_trust_domain, is_trust_domain_char, validate_path}
use wimsey.Jose.Accepts.{to_verifying_key-from_verifying_key}
use wimsey.Jose.Key
use wimsey.Jose.Key.{SigningKey, VerifyingKey}
use wimsey.Jose.Jwk.{from_verifying_key, to_verifying_key}
use wimsey.Jws.Json.{Json, IsJson}
use wimsey.Tests.Toy.{toy, toy-IsCorrectCrypto, unary, unary-IsBase64, write}
use wimsey.Tests.Codec.{Codec, number, text, list, option, pair, json_of, json_of-IsJson}
use wimsey.Wit.Error.{WitError}
use wimsey.Wit.Claims.{WitClaims, ClaimsText}
use wimsey.Wit.Token
use wimsey.Wit.Token.{VerifiedWit}
use wimsey.Wit.Checks.{IsCurrent}
use wimsey.Wit.Accepts.{IsVerifiedWit, wit_verify_iff}
use wimsey.Wit.Issue.{wit_verify-issue}

abbrev issuer_key : SigningKey toy
issuer_key = SigningKey.ed25519 true

abbrev issuer_public : VerifyingKey toy
issuer_public = VerifyingKey.ed25519 true

abbrev pop_public : VerifyingKey toy
pop_public = VerifyingKey.ed25519 false

abbrev pub jwk_codec : Codec (Option Str × (Str × (Str × (Str × Option Str))))
jwk_codec = pair (option text) (pair text (pair text (pair text (option text))))

abbrev wit_header_codec : Codec (Str × (Str × (Option Str × Option (List Str))))
wit_header_codec = pair text (pair text (pair (option text) (option (list text))))

abbrev pub wit_header_json : Json Token.Header
wit_header_json =
    json_of (λ h. (h.typ, (h.alg, (h.kid, h.crit))))
      (λ v. record { typ = v.0; alg = v.1.0; kid = v.1.1.0; crit = v.1.1.1 }) wit_header_codec

pub wit_header_json-IsJson : IsJson wit_header_json
wit_header_json-IsJson = json_of-IsJson _ _ wit_header_codec (λ h. refl)

abbrev wit_claims_codec : Codec (
    Option Str
    × (Str × (Option ℕ × (ℕ × (Option Str × (Option Str × (Str × (Str × (Str × Option Str)))))))))
wit_claims_codec =
    pair (option text)
      (pair text (pair (option number) (pair number (pair (option text) jwk_codec))))

abbrev pub wit_claims_json : Json ClaimsText
wit_claims_json =
    json_of
      (λ c. (
        c.iss,
        (
          c.sub,
          (
            c.iat,
            (
              c.exp,
              (
                c.jti,
                (c.cnf.jwk.alg, (c.cnf.jwk.kty, (c.cnf.jwk.crv, (c.cnf.jwk.x, c.cnf.jwk.y)))),
              ),
            ),
          ),
        ),
      ))
      (λ v. record {
        iss = v.0;
        sub = v.1.0;
        iat = v.1.1.0;
        exp = v.1.1.1.0;
        jti = v.1.1.1.1.0;
        cnf = record {
          jwk = record {
            alg = v.1.1.1.1.1.0;
            kty = v.1.1.1.1.1.1.0;
            crv = v.1.1.1.1.1.1.1.0;
            x = v.1.1.1.1.1.1.1.1.0;
            y = v.1.1.1.1.1.1.1.1.1;
          };
        };
      })
      wit_claims_codec

pub wit_claims_json-IsJson : IsJson wit_claims_json
wit_claims_json-IsJson = json_of-IsJson _ _ wit_claims_codec (λ c. refl)

abbrev wit_claims : WitClaims
wit_claims = record {
  iss = some (codes "i");
  sub = record { uri = codes "wimse://a"; scheme = wimse; trust_domain_len = 1 };
  iat = some 50;
  exp = 100;
  jti = none;
  cnf = record { jwk = from_verifying_key {c = toy} unary pop_public };
}

abbrev wit_validation : Token.Validation
wit_validation = Token.expect_issuer (Token.at 60) (codes "i")

abbrev wit_of : Result WitError Str → Str
wit_of (ok s) = s
wit_of (err e) = []

abbrev wit : Str
wit =
    wit_of (Token.issue {c = toy} unary wit_header_json wit_claims_json wit_claims none issuer_key)

abbrev verified : VerifiedWit toy
verified = record { claims = wit_claims; kid = none; pop_key = pop_public }

issued :
    Token.issue {c = toy} unary wit_header_json wit_claims_json wit_claims none issuer_key ≡ ok wit
unfolding Token.issue
issued = refl

subject : Identifier.parse wit_claims.sub.uri ≡ ok wit_claims.sub
unfolding Identifier.parse len strip_prefix Identifier.parse_rest contains_char Identifier.validate
    Identifier.split_path split_once validate_trust_domain is_trust_domain_char validate_path
subject = refl

confirmed : to_verifying_key {c = toy} unary wit_claims.cnf.jwk ≡ ok pop_public
confirmed = to_verifying_key-from_verifying_key unary toy-IsCorrectCrypto unary-IsBase64 pop_public

current : IsCurrent wit_claims wit_validation
current = record {
  unexpired = (omega arith, omega arith);
  issued = λ iat e. let same : 50 ≡ iat = cc in (omega (arith, same), omega (arith, same));
  issuer = λ iss e. cc;
}

pub leb_sound : (a b : ℕ) → leb a b ≡ true → a ≤ b
leb_sound a b h = ground arith

fits : leb (len wit) Token.max_token_len ≡ true
unfolding Token.issue len from_verifying_key Key.sign as_bytes encode_char write
fits = refl

wit_verify-issue_example :
    Token.verify {c = toy} unary wit_header_json wit_claims_json wit issuer_public wit_validation
    ≡ ok verified
wit_verify-issue_example =
    wit_verify-issue toy-IsCorrectCrypto unary unary-IsBase64 wit_header_json wit_header_json-IsJson
      wit_claims_json wit_claims_json-IsJson wit_claims none issuer_key wit_validation wit
      pop_public subject current confirmed issued (leb_sound (len wit) Token.max_token_len fits)

wit_verify_iff_example :
    IsVerifiedWit {c = toy} unary wit_header_json wit_claims_json wit issuer_public wit_validation
      verified
wit_verify_iff_example =
    (wit_verify_iff {c = toy} unary wit_header_json wit_claims_json wit issuer_public wit_validation
        verified).0
      wit_verify-issue_example
