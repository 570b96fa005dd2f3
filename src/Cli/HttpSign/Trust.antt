-- ===== src/Cli/HttpSign/Trust.antt =====
-- What it means that `run_verify` accepts a request.
use wimsey.Common.{
  ℕ, ◌≤◌, ◌≡◌, refl, ap, ◌∙◌, true, Option, none, some, List, ok, map_err, u64_max, All, then-eq-ok,
  >>=-eq-ok, ensure-eq-ok, map_err-eq-ok, ok-injective,
}
use wimsey.Text.{Str, Bytes, codes, str_eq, str_eq_iff, trim, to_ascii_lowercase, contains_str}
use wimsey.Jose.Primitives.{Crypto, Base64}
use wimsey.Jose.Key.{VerifyingKey}
use wimsey.Jws.Json.{Json}
use wimsey.HttpSig.Message.{
  Component, header, contains, header_named, Headers, HttpRequest, request_value, of_request,
  content_digest_sha256, verify_content_digest,
}
use wimsey.HttpSig.Profile.{request_components}
use wimsey.HttpSig.Signature
use wimsey.HttpSig.Signature.{VerifiedSignature, VerifyConfig}
use wimsey.Wit.Claims.{ClaimsText}
use wimsey.Wit.Token
use wimsey.Wit.Token.{VerifiedWit}
use wimsey.Issuer.{unwrap_or}
use wimsey.Cli.Error.{message, httpsig, wit}
use wimsey.Cli.Key
use wimsey.Cli.Key.{JwkKey, load}
use wimsey.Cli.Request.{parse_headers, build_request, chosen_components}
use wimsey.Cli.Request.Described.{
  IsHeaders, parse_headers-IsHeaders, IsDescribed, build_request-IsDescribed,
}
use wimsey.Cli.HttpSign.{
  VerifyArgs, wit_validation, with_wit, with_digest, read_body, check_wit, check_body, config_of,
  run_verify,
}
use wimsey.Cli.HttpSign.Fields.{IsExtended, IsDigested, with_wit-IsExtended, with_digest-IsDigested}
use wimsey.Cli.HttpSign.Covered.{chosen-mandatory, verified-covered, field-covered}

abbrev wit_field : Str
wit_field = codes "workload-identity-token"

abbrev digest_field : Str
digest_field = codes "content-digest"

module _ (sha256 : Bytes → Bytes) (standard : Base64) where
  -- The request's digest field is the digest of the body, and is covered.
  abbrev pub IsBodyBound : HttpRequest → VerifiedSignature → Option Bytes → Type 0
  IsBodyBound request v none = Unit
  IsBodyBound request v (some body) =
      (request_value request (header digest_field)
        ≡ ok (content_digest_sha256 sha256 standard.encode body))
      × (contains v.components (header digest_field) ≡ true)

  check_body-eq-ok :
      (request : HttpRequest) (body : Bytes)
      → check_body sha256 standard request (some body) ≡ ok tt
      → request_value request (header digest_field)
        ≡ ok (content_digest_sha256 sha256 standard.encode body)
  unfolding check_body header_named verify_content_digest to_ascii_lowercase
  check_body-eq-ok request body h =
      let (covered, h0, h1) =
        >>=-eq-ok
          (map_err (λ e. message (codes "content-digest header is missing"))
            (request_value request (header digest_field)))
          _ h in
      let same =
        (str_eq_iff covered (content_digest_sha256 sha256 standard.encode body)).0
          (ensure-eq-ok _ _ h1) in
      map_err-eq-ok _ _ covered h0 ∙ ap ok same

check_wit-eq-ok :
    (request : HttpRequest) (token : Str)
    → check_wit request token ≡ ok tt
    → request_value request (header wit_field) ≡ ok token
unfolding check_wit header_named to_ascii_lowercase
check_wit-eq-ok request token h =
    let (covered, h0, h1) =
      >>=-eq-ok
        (map_err (λ e. message (codes "workload-identity-token header is missing"))
          (request_value request (header wit_field)))
        _ h in
    map_err-eq-ok _ _ covered h0 ∙ ap ok ((str_eq_iff covered token).0 (ensure-eq-ok _ _ h1))

module _ (c : Crypto) (url_safe standard : Base64) (sha256 : Bytes → Bytes) (key_json : Json JwkKey)
    (read : Str → Option Bytes) (header_json : Json Token.Header)
    (claims_json : Json ClaimsText) where
  -- The token verifies under the issuer's key file, the request is the one that the arguments
  -- describe, the signature verifies under the token's confirmation key and covers what the profile
  -- asks of that request, the token and the digest of the body, and the output names the token's
  -- subject.
  pub record IsTrusted (args : VerifyArgs) (now : ℕ) (sub label : Str) : Type 0 where
    pub file_key : JwkKey
    pub issuer : VerifyingKey c
    pub token : VerifiedWit c
    pub given : Headers
    pub tokened : Headers
    pub headers : Headers
    pub request : HttpRequest
    pub required : List Component
    pub signature : VerifiedSignature
    pub body : Option Bytes
    pub loaded :
        (load read key_json args.issuer_jwk ≡ ok file_key)
        × (Key.verifying_key url_safe file_key ≡ ok issuer)
    pub identified :
        Token.verify url_safe header_json claims_json
          (trim args.wit)
          issuer
          (wit_validation now args.expected_iss)
        ≡ ok token
    pub parsed : IsHeaders args.header given
    pub extended :
        IsExtended (codes "Workload-Identity-Token") (trim args.wit) given tokened
        × IsDigested sha256 standard tokened body headers
    pub described : IsDescribed args.method args.authority args.path args.query headers request
    pub possessed :
        Signature.verify standard
          (of_request request)
          (trim args.signature_input)
          (trim args.signature)
          token.pop_key
          (config_of args now required)
        ≡ ok signature
    pub demanded : All (λ r. contains required r ≡ true) (request_components request)
    pub signed : All (λ r. contains signature.components r ≡ true) required
    pub carried : request_value request (header wit_field) ≡ ok (trim args.wit)
    pub covered : contains signature.components (header wit_field) ≡ true
    pub bound :
        (read_body read args.body_file ≡ ok body)
        × IsBodyBound sha256 standard request signature body
    pub printed : (token.claims.sub.uri ≡ sub) × (signature.label ≡ label)

  body-IsBodyBound :
      (args : VerifyArgs) (now : ℕ) (request : HttpRequest) (required : List Component)
      (key : VerifyingKey c) (v : VerifiedSignature) (body : Option Bytes)
      → now ≤ u64_max
      → chosen_components args.require (request_components request) ≡ ok required
      → Signature.verify standard
          (of_request request)
          (trim args.signature_input)
          (trim args.signature)
          key
          (config_of args now required)
        ≡ ok v
      → check_body sha256 standard request body ≡ ok tt
      → IsBodyBound sha256 standard request v body
  unfolding to_ascii_lowercase contains_str str_eq
  body-IsBodyBound args now request required key v none clock chosen verified checked = tt
  body-IsBodyBound args now request required key v (some body) clock chosen verified checked =
      let found = check_body-eq-ok sha256 standard request body checked in
      (
        found,
        field-covered standard request args.require required (trim args.signature_input)
            (trim args.signature) key args now v digest_field clock refl refl found chosen verified,
      )

  -- For a 64-bit clock, if `run_verify` accepts, then the token verifies under the key of the issuer's file; the request that is verified has the method, authority, path and query of the arguments, trimmed, the authority in lower case and the query without its `?`, and the header fields of the arguments, with the token and the digest of the body where these are not given; the signature verifies for that request under the confirmation key that this token holds, and covers every component required, which include all that the profile asks of that request; the request's token field is that token and the signature covers it, the digest field is the digest of the body where there is one and is covered too; and the output is the token's subject and the signature's label.
  pub run_verify-IsTrusted :
      (args : VerifyArgs) (clock : ℕ) (sub label : Str)
      → unwrap_or args.now clock ≤ u64_max
      → run_verify c url_safe standard sha256 key_json read header_json claims_json args clock
        ≡ ok (sub, label)
      → IsTrusted args (unwrap_or args.now clock) sub label
  unfolding run_verify to_ascii_lowercase contains_str str_eq
  run_verify-IsTrusted args clock sub label small h =
      let token = trim args.wit in
      let now = unwrap_or args.now clock in
      let (file_key, h0, k0) = >>=-eq-ok (load read key_json args.issuer_jwk) _ h in
      let (issuer, h1, k1) = >>=-eq-ok (Key.verifying_key {c = c} url_safe file_key) _ k0 in
      let (w, h2, k2) =
        >>=-eq-ok
          (map_err wit (
            Token.verify url_safe header_json claims_json token issuer
              (wit_validation now args.expected_iss)))
          _ k1 in
      let (given, h3, k3) = >>=-eq-ok (parse_headers args.header) _ k2 in
      let (body, h4, k4) = >>=-eq-ok (read_body read args.body_file) _ k3 in
      let headers = with_digest sha256 standard (with_wit given token) body in
      let (request, h5, k5) =
        >>=-eq-ok (build_request args.method args.authority args.path args.query headers) _ k4 in
      let (h6, k6) = then-eq-ok (check_wit request token) _ k5 in
      let (required, h7, k7) =
        >>=-eq-ok (chosen_components args.require (request_components request)) _ k6 in
      let (v, h8, k8) =
        >>=-eq-ok
          (map_err httpsig (
            Signature.verify standard (of_request request) (trim args.signature_input)
              (trim args.signature) w.pop_key (config_of args now required)))
          _ k7 in
      let (h9, k9) =
        then-eq-ok (check_body sha256 standard request body) (ok (w.claims.sub.uri, v.label)) k8 in
      let out = ok-injective k9 in
      let verified = map_err-eq-ok httpsig _ v h8 in
      let found = check_wit-eq-ok request token h6 in
      record {
        file_key = file_key;
        issuer = issuer;
        token = w;
        given = given;
        tokened = with_wit given token;
        headers = headers;
        extended = (
          with_wit-IsExtended given token,
          with_digest-IsDigested sha256 standard (with_wit given token) body,
        );
        request = request;
        required = required;
        signature = v;
        body = body;
        loaded = (h0, h1);
        identified = map_err-eq-ok wit _ w h2;
        parsed = parse_headers-IsHeaders args.header h3;
        described =
            build_request-IsDescribed args.method args.authority args.path args.query headers h5;
        possessed = verified;
        demanded = chosen-mandatory args.require (request_components request) h7;
        signed =
            verified-covered standard request required (trim args.signature_input)
              (trim args.signature) w.pop_key args now v small verified;
        carried = found;
        covered =
            field-covered standard request args.require required (trim args.signature_input)
              (trim args.signature) w.pop_key args now v wit_field small refl refl found h7
              verified;
        bound =
            (h4, body-IsBodyBound args now request required w.pop_key v body small h7 verified h9);
        printed = (ap (λ p. p.0) out, ap (λ p. p.1) out);
      }
