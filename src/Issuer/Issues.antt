-- ===== src/Issuer/Issues.antt =====
-- What the tokens of `issue_wit` are good for, and when it gives them.
use wimsey.Common.{
  ℕ, ◌+◌, ◌≤◌, ◌<◌, ◌≡◌, sym, ap, ◌∙◌, Bool-cases, Option-cases, inl, inr, Option, some, [], ◌∷◌,
  Result, ok, arith, ltb,
}
use mathlib.Core.Option.{some-injective}
use wimsey.Text.{Str, Bytes, trim, len}
use wimsey.Identifier.Validate.{ParseError}
use wimsey.Identifier.Parts.{parse-uri, parse-display}
use wimsey.Jose.Primitives.{Crypto, IsCorrectCrypto, Base64, IsBase64}
use wimsey.Jose.Accepts.{to_verifying_key-from_verifying_key}
use wimsey.Jose.Key.{SigningKey, VerifyingKey, verifying_key}
use wimsey.Jose.Jwk.{Jwk, to_verifying_key, from_verifying_key}
use wimsey.Jws.Json.{Json, IsJson}
use wimsey.Wit.Error.{WitError}
use wimsey.Wit.Claims.{WitClaims, ClaimsText}
use wimsey.Wit.Token
use wimsey.Wit.Token.{max_token_len}
use wimsey.Wit.Issue.{wit_verify-issue}
use wimsey.Issuer.{
  Issuer, Jwks, IssueRequest, IssueResponse, unwrap_or, published, new, claims_for, issue_wit,
}
use wimsey.Issuer.Hex.{push_all}
use wimsey.Issuer.Grants.{IsGranted, issue_wit-IsGranted_iff}

-- What `new` keeps of its arguments.
pub new-eq-some :
    {c : Crypto} (url_safe : Base64) (jwks_json : Json Jwks) (key : SigningKey c) (iss : Str)
    (kid : Option Str) (ttl : ℕ) {issuer : Issuer c}
    → new url_safe jwks_json key iss kid ttl ≡ some issuer
    → (jwks_json.to_vec (published url_safe key kid) ≡ some issuer.jwks)
      × (issuer.signing_key ≡ key)
      × (issuer.iss ≡ iss)
      × (issuer.kid ≡ kid)
unfolding new
new-eq-some {c = c} url_safe jwks_json key iss kid ttl {issuer} h = elim (Bool-cases (ltb 0 ttl)) [
  | inl p ↦ elim (Option-cases (jwks_json.to_vec (published url_safe key kid))) [
    | inl e ↦ cc
    | inr (x, e) ↦
        let made : ◌≡◌ {A = Option (Issuer c)}
            (some (record { signing_key = key; iss = iss; kid = kid; default_ttl = ttl; jwks = x }))
            (some issuer) =
          cc in
        let same = some-injective _ _ made in
        (
          e ∙ ap (λ i. some i.jwks) same,
          sym (ap (λ i. i.signing_key) same),
          sym (ap (λ i. i.iss) same),
          sym (ap (λ i. i.kid) same),
        )
  ]
  | inr p ↦ cc
]

module _ {c : Crypto} (laws : IsCorrectCrypto c) (url_safe : Base64) (base64 : IsBase64 url_safe)
    (header_json : Json Token.Header) (header_laws : IsJson header_json)
    (claims_json : Json ClaimsText) (claims_laws : IsJson claims_json) (jwks_json : Json Jwks)
    (jwks_laws : IsJson jwks_json) where
  granted-verify :
      (issuer : Issuer c) (now : ℕ) (fill : Result Str Bytes) (request : IssueRequest)
      (response : IssueResponse) (t : ℕ)
      (r : IsGranted url_safe header_json claims_json issuer now fill request response)
      → len response.wit ≤ max_token_len
      → now ≤ t
      → t < now + r.ttl
      → Token.verify url_safe header_json claims_json response.wit
          (verifying_key issuer.signing_key)
          (Token.expect_issuer (Token.at t) issuer.iss)
        ≡ ok (record {
          claims = claims_for issuer r.sub now (now + r.ttl) (push_all r.bytes) request.cnf_jwk;
          kid = issuer.kid;
          pop_key = r.key;
        })
  granted-verify issuer now fill request response t r short after before =
      let fits = r.expiry in
      wit_verify-issue laws url_safe base64 header_json header_laws claims_json claims_laws
        (claims_for issuer r.sub now (now + r.ttl) (push_all r.bytes) request.cnf_jwk) issuer.kid
        issuer.signing_key (Token.expect_issuer (Token.at t) issuer.iss) response.wit r.key
        (parse-display (trim request.sub) r.subject)
        (record {
          unexpired = (omega arith, omega (arith, fits, before));
          issued = λ iat e.
              let same = some-injective now iat e in
              (omega (arith, same, after), omega (arith, same, after, fits, before));
          issuer = λ s e. e;
        })
        r.confirmed r.issued short

  -- Under the laws of the parameters, the token with which a new issuer answers a request, of at most 8192 bytes, verifies, from the clock of the issue until its lifetime has passed, under the one key that the issuer's JWKS holds, with the issuer expected and the issuer's key id; its claims hold the trimmed subject, the confirmation key of the request and an expiry at most the default lifetime from the issue.
  pub issue_wit-verify :
      (display : ParseError → Str) (describe : WitError → Str) (key : SigningKey c) (iss : Str)
      (kid : Option Str) (default_ttl : ℕ) (issuer : Issuer c) (now : ℕ) (fill : Result Str Bytes)
      (request : IssueRequest) (response : IssueResponse) (t : ℕ)
      → new url_safe jwks_json key iss kid default_ttl ≡ some issuer
      → issue_wit url_safe header_json claims_json display describe issuer now fill request
        ≡ ok response
      → len response.wit ≤ max_token_len
      → now ≤ t
      → t < now + unwrap_or request.ttl issuer.default_ttl
      → (jwk : Jwk) × (public : VerifyingKey c) × (claims : WitClaims) × (pop_key : VerifyingKey c)
        × (jwks_json.from_slice issuer.jwks
            ≡ some (record { keys = record { jwk = jwk; kid = kid } ∷ [] }))
        × (to_verifying_key url_safe jwk ≡ ok public)
        × (Token.verify url_safe header_json claims_json response.wit public
              (Token.expect_issuer (Token.at t) iss)
            ≡ ok (record { claims = claims; kid = kid; pop_key = pop_key }))
        × (claims.sub.uri ≡ trim request.sub)
        × (to_verifying_key url_safe request.cnf_jwk ≡ ok pop_key)
        × (claims.exp ≤ now + issuer.default_ttl)
  issue_wit-verify display describe key iss kid default_ttl issuer now fill request response t made
        granted short after before =
      let (written, same_key, same_iss, same_kid) =
        new-eq-some url_safe jwks_json key iss kid default_ttl made in
      let r =
        (issue_wit-IsGranted_iff url_safe header_json claims_json display describe issuer now fill
            request response).0
          granted in
      let (asked, positive, small) = r.lifetime in
      let fits = r.expiry in
      let claims = claims_for issuer r.sub now (now + r.ttl) (push_all r.bytes) request.cnf_jwk in
      (
        from_verifying_key url_safe (verifying_key key),
        verifying_key key,
        claims,
        r.key,
        jwks_laws.from_slice-to_vec (published url_safe key kid) issuer.jwks written,
        to_verifying_key-from_verifying_key url_safe laws base64 (verifying_key key),
        rw (← same_key, ← same_iss, ← same_kid)
            (granted-verify issuer now fill request response t r short after
              (omega (arith, asked, before))),
        parse-uri (trim request.sub) r.subject,
        r.confirmed,
        omega (arith, small),
      )
