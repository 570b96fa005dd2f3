-- ===== src/Tests/Issued.antt =====
-- An issuer with the concrete primitives, and a request that it answers.
use wimsey.Common.{
  map, ap, ℕ, ◌+◌, ◌<◌, ◌≤◌, ◌≡◌, ◌↔◌, refl, true, false, Option, none, some, List, [], ◌∷◌, Result,
  ok, err, arith, leb, replicate, All, All-map, all→All, ltb, u64_max,
}
use wimsey.Text.{
  Str, Bytes, codes, len, trim, trim_matches, trim_start_matches, trim_end_matches, is_whitespace,
  strip_prefix, contains_char, split_once, as_bytes, encode_char,
}
use wimsey.Identifier
use wimsey.Identifier.{WorkloadIdentifier}
use wimsey.Identifier.Validate.{
  ParseError, wimse, validate_trust_domain, is_trust_domain_char, validate_path,
}
use wimsey.Jose.Accepts.{to_verifying_key-from_verifying_key}
use wimsey.Jose.Key
use wimsey.Jose.Key.{SigningKey, VerifyingKey, from_ed25519_seed}
use wimsey.Jose.Jwk.{Jwk, from_verifying_key, to_verifying_key}
use wimsey.Jws.Json.{Json, IsJson}
use wimsey.Wit.Error.{WitError}
use wimsey.Wit.Claims.{WitClaims}
use wimsey.Wit.Token
use wimsey.Wit.Token.{max_token_len}
use wimsey.Issuer.{
  PublishedJwk, Jwks, Issuer, IssueRequest, IssueResponse, internal, published, new, lifetime,
  issue_wit, claims_for,
}
use wimsey.Issuer.Hex.{random_id, push_all, random_id_injective}
use wimsey.Issuer.Settings.{Environment, start, ttl_setting, load_key, start-ok}
use wimsey.Issuer.Grants.{IsLifetime, IsGranted, issue_wit-IsGranted_iff}
use wimsey.Issuer.Issues.{issue_wit-verify}
use wimsey.Issuer.Answers.{IsAnswerable, issue_wit-ok_iff, issue_wit-internal}
use wimsey.Tests.Toy.{toy, toy-IsCorrectCrypto, unary, unary-IsBase64, write, read}
use wimsey.Tests.Codec.{Codec, text, list, option, pair, json_of, json_of-IsJson}
use wimsey.Tests.Tokens.{
  jwk_codec, wit_header_json, wit_header_json-IsJson, wit_claims_json, wit_claims_json-IsJson,
  leb_sound,
}

abbrev jwks_codec : Codec (List ((Option Str × (Str × (Str × (Str × Option Str)))) × Option Str))
jwks_codec = list (pair jwk_codec (option text))

abbrev row : PublishedJwk → (Option Str × (Str × (Str × (Str × Option Str)))) × Option Str
row p = ((p.jwk.alg, (p.jwk.kty, (p.jwk.crv, (p.jwk.x, p.jwk.y)))), p.kid)

abbrev entry : (Option Str × (Str × (Str × (Str × Option Str)))) × Option Str → PublishedJwk
entry (j, k) = record {
  jwk = record { alg = j.0; kty = j.1.0; crv = j.1.1.0; x = j.1.1.1.0; y = j.1.1.1.1 };
  kid = k;
}

abbrev jwks_json : Json Jwks
jwks_json = json_of (λ v. map row v.keys) (λ r. record { keys = map entry r }) jwks_codec

entries : (ps : List PublishedJwk) → map entry (map row ps) ≡ ps
entries [] = refl
entries (p ∷ ps) = ap (λ r. p ∷ r) (entries ps)

jwks_json-IsJson : IsJson jwks_json
jwks_json-IsJson =
    json_of-IsJson _ _ jwks_codec (λ v. ap (λ ps. record { keys = ps }) (entries v.keys))

abbrev shown : ParseError → Str
shown e = codes "e"

abbrev described : WitError → Str
described e = codes "d"

abbrev server_key : SigningKey toy
server_key = SigningKey.ed25519 true

abbrev pop_key : VerifyingKey toy
pop_key = VerifyingKey.ed25519 false

abbrev server : Issuer toy
server = record {
  signing_key = server_key;
  iss = codes "i";
  kid = some (codes "k");
  default_ttl = 60;
  jwks = jwks_codec.put (map row (published {c = toy} unary server_key (some (codes "k"))).keys) [];
}

server_made : new unary jwks_json server_key (codes "i") (some (codes "k")) 60 ≡ some server
unfolding new
server_made = refl

abbrev request : IssueRequest
request = record {
  sub = codes " wimse://a";
  cnf_jwk = from_verifying_key {c = toy} unary pop_key;
  ttl = some 30;
}

abbrev sub : WorkloadIdentifier
sub = record { uri = codes "wimse://a"; scheme = wimse; trust_domain_len = 1 }

subject : Identifier.parse (trim request.sub) ≡ ok sub
unfolding Identifier.parse len strip_prefix Identifier.parse_rest contains_char Identifier.validate
    Identifier.split_path split_once validate_trust_domain is_trust_domain_char validate_path trim
subject = refl

confirmed : to_verifying_key {c = toy} unary request.cnf_jwk ≡ ok pop_key
confirmed = to_verifying_key-from_verifying_key unary toy-IsCorrectCrypto unary-IsBase64 pop_key

abbrev filled : Bytes
filled = replicate 16 7

asked : IsLifetime server request.ttl 30
asked = (refl, omega arith, omega arith)

answered :
    (response : IssueResponse) × (issue_wit unary wit_header_json wit_claims_json shown described
        server 50
        (ok filled)
        request
      ≡ ok response)
answered =
    (issue_wit-ok_iff unary wit_header_json wit_claims_json (λ h. (_, refl)) (λ t. (_, refl)) shown
        described server 50 (ok filled) request).1
      (record {
        sub = sub;
        key = pop_key;
        ttl = 30;
        bytes = filled;
        subject = subject;
        confirmed = confirmed;
        lifetime = asked;
        expiry = omega arith;
        random = refl;
      })

issue_wit-ok_iff_example :
    ((response : IssueResponse) × (issue_wit unary wit_header_json wit_claims_json shown described
          server 50
          (ok filled)
          request
        ≡ ok response))
    ↔ IsAnswerable unary server 50 (ok filled) request
issue_wit-ok_iff_example =
    issue_wit-ok_iff unary wit_header_json wit_claims_json (λ h. (_, refl)) (λ t. (_, refl)) shown
      described server 50 (ok filled) request

abbrev response_of : Result WitError Str → IssueResponse
response_of (ok s) = record { wit = s }
response_of (err e) = record { wit = [] }

abbrev response : IssueResponse
response = response_of (
    Token.issue {c = toy} unary wit_header_json wit_claims_json
      (claims_for server sub 50 80 (push_all filled) request.cnf_jwk) server.kid server_key)

granted :
    issue_wit unary wit_header_json wit_claims_json shown described server 50 (ok filled) request
    ≡ ok response
unfolding issue_wit lifetime random_id Token.issue
granted = rw (subject, confirmed) refl

issue_wit-IsGranted_iff_example :
    (issue_wit unary wit_header_json wit_claims_json shown described server 50 (ok filled) request
      ≡ ok response)
    ↔ IsGranted unary wit_header_json wit_claims_json server 50 (ok filled) request response
issue_wit-IsGranted_iff_example =
    issue_wit-IsGranted_iff unary wit_header_json wit_claims_json shown described server 50
      (ok filled) request response

short : leb (len response.wit) max_token_len ≡ true
unfolding Token.issue len from_verifying_key Key.sign as_bytes encode_char write push_all
short = refl

no_random :
    issue_wit unary wit_header_json wit_claims_json shown described server 50
      (err (codes "r"))
      request
    ≡ err (internal (codes "r"))
unfolding issue_wit lifetime random_id
no_random = rw (subject, confirmed) refl

issue_wit-internal_example :
    (s : WorkloadIdentifier) × (key : VerifyingKey toy) × (ttl : ℕ) × (Identifier.parse
        (trim request.sub)
      ≡ ok s)
    × (to_verifying_key unary request.cnf_jwk ≡ ok key)
    × IsLifetime server request.ttl ttl
    × (50 + ttl ≤ u64_max)
issue_wit-internal_example =
    issue_wit-internal unary wit_header_json wit_claims_json shown described server 50
      (err (codes "r")) request (codes "r") no_random

small : All (λ b. b < 256) filled
small =
    All-map (λ b. ltb b 256 ≡ true) (λ b. b < 256) (λ b h. ground arith) filled
      (all→All (λ b. ltb b 256) filled refl)

random_id_injective_example : filled ≡ filled
random_id_injective_example = random_id_injective filled filled small small refl

abbrev seed : Bytes
seed = replicate 32 1

abbrev environment : Environment
environment = record { key = some (unary.encode seed); iss = none; kid = none; ttl = none }

read_ttl : ttl_setting environment.ttl ≡ ok 3600
unfolding ttl_setting
read_ttl = refl

loaded : load_key toy unary environment.key none ≡ ok (from_ed25519_seed seed)
unfolding load_key trim trim_matches trim_start_matches trim_end_matches is_whitespace write read
loaded = refl

start-ok_example :
    (issuer : Issuer toy) × (start toy unary jwks_json environment none ≡ ok issuer)
    × (issuer.default_ttl ≡ 3600)
    × (issuer.signing_key ≡ from_ed25519_seed seed)
    × (0 < 3600)
start-ok_example =
    start-ok toy unary jwks_json (λ v. (_, refl)) environment none 3600 (from_ed25519_seed seed)
      read_ttl loaded

issue_wit-verify_example :
    (jwk : Jwk) × (public : VerifyingKey toy) × (claims : WitClaims) × (key : VerifyingKey toy)
    × (jwks_json.from_slice server.jwks
        ≡ some (record { keys = record { jwk = jwk; kid = some (codes "k") } ∷ [] }))
    × (to_verifying_key unary jwk ≡ ok public)
    × (Token.verify unary wit_header_json wit_claims_json response.wit public
          (Token.expect_issuer (Token.at 79) (codes "i"))
        ≡ ok (record { claims = claims; kid = some (codes "k"); pop_key = key }))
    × (claims.sub.uri ≡ trim request.sub)
    × (to_verifying_key unary request.cnf_jwk ≡ ok key)
    × (claims.exp ≤ 50 + server.default_ttl)
issue_wit-verify_example =
    issue_wit-verify toy-IsCorrectCrypto unary unary-IsBase64 wit_header_json wit_header_json-IsJson
      wit_claims_json wit_claims_json-IsJson jwks_json jwks_json-IsJson shown described server_key
      (codes "i") (some (codes "k")) 60 server 50 (ok filled) request response 79 server_made
      granted (leb_sound (len response.wit) max_token_len short) (omega arith) (omega arith)
