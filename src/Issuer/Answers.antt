-- ===== src/Issuer/Answers.antt =====
-- When `issue_wit` answers, and which faults it reports as its own.
use wimsey.Common.{
  ℕ, ◌+◌, ◌≤◌, ◌≡◌, ◌≢◌, ◌↔◌, Option, none, ltb, ◌==◌, ◌++◌, ◌∷◌, ◌>>◌, not, Bool, true, false, inl,
  inr, refl, some, Result, ok, err, ensure, ok_or, map_err, arith, u64_max, >>=-eq-err,
  map_err-eq-ok, ok_or-eq-ok,
}
use wimsey.Text.{Str, Bytes, codes, trim, as_bytes}
use wimsey.Identifier
use wimsey.Identifier.{WorkloadIdentifier}
use wimsey.Identifier.Validate.{ParseError}
use wimsey.Jose.Primitives.{Crypto, Base64}
use wimsey.Jose.Algorithm
use wimsey.Jose.Key
use wimsey.Jose.Key.{SigningKey, VerifyingKey, signing_algorithm}
use wimsey.Jose.Jwk.{to_verifying_key}
use wimsey.Jws.Compact.{signing_input}
use wimsey.Jws.Json.{Json}
use wimsey.Wit.Error.{WitError}
use wimsey.Wit.Claims.{WitClaims, ClaimsText, serialize}
use wimsey.Wit.Token
use wimsey.Issuer.{
  Issuer, IssueRequest, IssueResponse, bad_request, internal, checked_add, unwrap_or, ttl_message,
  claims_for, lifetime, issue_wit,
}
use wimsey.Issuer.Hex.{push_all}
use wimsey.Issuer.Grants.{
  IsLifetime, lifetime-IsLifetime_iff, issue_wit-IsGranted_iff, checked_add-eq-some,
}

-- What a request and its surroundings need for an answer.
pub record IsAnswerable {c : Crypto} (url_safe : Base64) (issuer : Issuer c) (now : ℕ)
    (fill : Result Str Bytes) (request : IssueRequest) : Type 0 where
  pub sub : WorkloadIdentifier
  pub key : VerifyingKey c
  pub ttl : ℕ
  pub bytes : Bytes
  pub subject : Identifier.parse (trim request.sub) ≡ ok sub
  pub confirmed : to_verifying_key url_safe request.cnf_jwk ≡ ok key
  pub lifetime : IsLifetime issuer request.ttl ttl
  pub expiry : now + ttl ≤ u64_max
  pub random : fill ≡ ok bytes

module _ {c : Crypto} (url_safe : Base64) (header_json : Json Token.Header)
    (claims_json : Json ClaimsText)
    (writes_header : (h : Token.Header) → (x : Bytes) × (header_json.to_vec h ≡ some x))
    (writes_claims : (t : ClaimsText) → (x : Bytes) × (claims_json.to_vec t ≡ some x)) where
  issue-ok :
      (claims : WitClaims) (kid : Option Str) (key : SigningKey c)
      → (token : Str) × (Token.issue url_safe header_json claims_json claims kid key ≡ ok token)
  unfolding Token.issue
  issue-ok claims kid key =
      let (x, h) = writes_header (record {
        typ = Token.typ;
        alg = Algorithm.as_str (signing_algorithm key);
        kid = kid;
        crit = none;
      }) in
      let (y, k) = writes_claims (serialize claims) in
      let input = signing_input (url_safe.encode x) (url_safe.encode y) in
      (input ++ b'.' ∷ url_safe.encode (Key.sign key (as_bytes input)), rw (h, k) refl)

  issue_wit-ok :
      (display : ParseError → Str) (describe : WitError → Str) (issuer : Issuer c) (now : ℕ)
      (bytes : Bytes) (request : IssueRequest) (sub : WorkloadIdentifier) (key : VerifyingKey c)
      (ttl : ℕ)
      → Identifier.parse (trim request.sub) ≡ ok sub
      → to_verifying_key url_safe request.cnf_jwk ≡ ok key
      → IsLifetime issuer request.ttl ttl
      → now + ttl ≤ u64_max
      → (response : IssueResponse) × (issue_wit url_safe header_json claims_json display describe
            issuer now
            (ok bytes)
            request
          ≡ ok response)
  issue_wit-ok display describe issuer now bytes request sub key ttl subject confirmed asked fits =
      let (token, issued) =
        issue-ok (claims_for issuer sub now (now + ttl) (push_all bytes) request.cnf_jwk) issuer.kid
          issuer.signing_key in
      let response : IssueResponse = record { wit = token } in
      (
        response,
        (issue_wit-IsGranted_iff url_safe header_json claims_json display describe issuer now
              (ok bytes) request response).1
            (record {
              sub = sub;
              key = key;
              ttl = ttl;
              bytes = bytes;
              subject = subject;
              confirmed = confirmed;
              lifetime = asked;
              expiry = fits;
              random = refl;
              issued = issued;
            }),
      )

  -- If headers and claims serialize, `issue_wit` answers with a token exactly if the trimmed subject is an identifier, the confirmation key decodes, whatever its algorithm, the lifetime asked for (or the default) is above zero and at most the default, the expiry fits 64 bits and the random source answers.
  pub issue_wit-ok_iff :
      (display : ParseError → Str) (describe : WitError → Str) (issuer : Issuer c) (now : ℕ)
      (fill : Result Str Bytes) (request : IssueRequest)
      → ((response : IssueResponse) × (issue_wit url_safe header_json claims_json display describe
              issuer now fill request
            ≡ ok response))
        ↔ IsAnswerable url_safe issuer now fill request
  issue_wit-ok_iff display describe issuer now fill request = (
    λ (response, h).
        let g =
          (issue_wit-IsGranted_iff url_safe header_json claims_json display describe issuer now fill
              request response).0
            h in
        record {
          sub = g.sub;
          key = g.key;
          ttl = g.ttl;
          bytes = g.bytes;
          subject = g.subject;
          confirmed = g.confirmed;
          lifetime = g.lifetime;
          expiry = g.expiry;
          random = g.random;
        },
    λ a. rw a.random (
        issue_wit-ok display describe issuer now a.bytes request a.sub a.key a.ttl a.subject
          a.confirmed a.lifetime a.expiry),
  )

client_fault :
    {E A : Type 0} (message : E → Str) (r : Result E A) {d : Str}
    → map_err (λ e. bad_request (message e)) r ≢ err (internal d)
client_fault message (ok a) h = cc
client_fault message (err e) h = cc

two_faults :
    {A : Type 0} (a b : Bool) (m n : Str) (v : A) {d : Str}
    → (ensure a (bad_request m) >> (ensure b (bad_request n) >> ok v)) ≢ err (internal d)
two_faults true true m n v h = cc
two_faults true false m n v h = cc
two_faults false b m n v h = cc

module _ {c : Crypto} where
  lifetime_fault :
      (issuer : Issuer c) (asked : Option ℕ) {d : Str} → lifetime issuer asked ≢ err (internal d)
  unfolding lifetime
  lifetime_fault issuer asked =
      let ttl = unwrap_or asked issuer.default_ttl in
      two_faults (not (ttl == 0)) (not (ltb issuer.default_ttl ttl))
        (codes "ttl must be greater than 0") (ttl_message ttl issuer.default_ttl) ttl

module _ {c : Crypto} (url_safe : Base64) (header_json : Json Token.Header)
    (claims_json : Json ClaimsText) (display : ParseError → Str) (describe : WitError → Str) where
  -- An internal error is reported only for a request whose trimmed subject is an identifier, whose confirmation key decodes and whose lifetime and expiry are in range: every fault of the client is reported as a bad request.
  pub issue_wit-internal :
      (issuer : Issuer c) (now : ℕ) (fill : Result Str Bytes) (request : IssueRequest)
      (detail : Str)
      → issue_wit url_safe header_json claims_json display describe issuer now fill request
        ≡ err (internal detail)
      → (sub : WorkloadIdentifier) × (key : VerifyingKey c) × (ttl : ℕ) × (Identifier.parse
            (trim request.sub)
          ≡ ok sub)
        × (to_verifying_key url_safe request.cnf_jwk ≡ ok key)
        × IsLifetime issuer request.ttl ttl
        × (now + ttl ≤ u64_max)
  unfolding issue_wit
  issue_wit-internal issuer now fill request detail h =
      elim (>>=-eq-err
        (map_err (λ e. bad_request (codes "invalid sub: " ++ display e))
          (Identifier.parse (trim request.sub)))
        _ h) [
          | inl e ↦ absurd (client_fault _ _ e)
          | inr (sub, h0, k0) ↦
              elim (>>=-eq-err
                (map_err (λ e. bad_request (codes "invalid cnf_jwk"))
                  (to_verifying_key {c = c} url_safe request.cnf_jwk))
                _ k0) [
                  | inl e ↦ absurd (client_fault _ _ e)
                  | inr (key, h1, k1) ↦ elim (>>=-eq-err (lifetime issuer request.ttl) _ k1) [
                    | inl e ↦ absurd (lifetime_fault issuer request.ttl e)
                    | inr (ttl, h2, k2) ↦ elim (>>=-eq-err (ok_or (checked_add now ttl) _) _ k2) [
                      | inl e ↦ ground arith
                      | inr (exp, h3, k3) ↦ (
                        sub,
                        key,
                        ttl,
                        map_err-eq-ok _ _ sub h0,
                        map_err-eq-ok _ _ key h1,
                        (lifetime-IsLifetime_iff issuer request.ttl ttl).0 h2,
                        (checked_add-eq-some now ttl
                            (ok_or-eq-ok (checked_add now ttl) _ exp h3)).1,
                      )
                    ]
                  ]
                ]
        ]
