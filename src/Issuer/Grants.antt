-- ===== src/Issuer/Grants.antt =====
-- Which requests are answered with a token, stated apart from `issue_wit`.
use wimsey.Common.{
  ℕ, ◌+◌, ◌≤◌, ◌<◌, ◌≡◌, ◌↔◌, refl, sym, ap, true, false, not, ◌++◌, Option, some, Result, ok,
  ensure, ok_or, map_err, arith, leb, ltb, ◌==◌, u64_max, then-eq-ok, >>=-eq-ok, ensure-eq-ok,
  ok_or-eq-ok, map_err-eq-ok, ok-injective,
}
use wimsey.Text.{Str, Bytes, codes, trim}
use wimsey.Identifier
use wimsey.Identifier.{WorkloadIdentifier}
use wimsey.Identifier.Validate.{ParseError}
use wimsey.Jose.Primitives.{Crypto, Base64}
use wimsey.Jose.Key.{VerifyingKey}
use wimsey.Jose.Jwk.{Jwk, to_verifying_key}
use wimsey.Jws.Json.{Json}
use wimsey.Wit.Error.{WitError}
use wimsey.Wit.Claims.{ClaimsText}
use wimsey.Wit.Token
use wimsey.Issuer.{
  Issuer, IssueRequest, IssueResponse, bad_request, internal, unwrap_or, checked_add, claims_for,
  lifetime, issue_wit,
}
use wimsey.Issuer.Hex.{push_all, random_id}

module _ {c : Crypto} where
  -- The lifetime is the one asked for or the default, above zero and not above the default.
  abbrev pub IsLifetime : Issuer c → Option ℕ → ℕ → Type 0
  IsLifetime issuer asked ttl =
      (unwrap_or asked issuer.default_ttl ≡ ttl) × (0 < ttl) × (ttl ≤ issuer.default_ttl)

  pub lifetime-IsLifetime_iff :
      (issuer : Issuer c) (asked : Option ℕ) (ttl : ℕ)
      → (lifetime issuer asked ≡ ok ttl) ↔ IsLifetime issuer asked ttl
  unfolding lifetime
  lifetime-IsLifetime_iff issuer asked ttl =
      let t = unwrap_or asked issuer.default_ttl in
      (
        λ h.
            let (h0, k0) = then-eq-ok (ensure (not (t == 0)) _) _ h in
            let (h1, k1) = then-eq-ok (ensure (not (ltb issuer.default_ttl t)) _) (ok t) k0 in
            let nonzero = ensure-eq-ok (not (t == 0)) _ h0 in
            let small = ensure-eq-ok (not (ltb issuer.default_ttl t)) _ h1 in
            let same = ok-injective k1 in (same, ground arith, ground arith),
        λ (same, positive, small).
            let nonzero : (t == 0) ≡ false = ground arith in
            let fits : ltb issuer.default_ttl t ≡ false = ground arith in
            rw (nonzero, fits, same) refl,
      )

module _ {c : Crypto} (url_safe : Base64) (header_json : Json Token.Header)
    (claims_json : Json ClaimsText) where
  -- The subject parses, the key decodes, the lifetime and the expiry are in range, the random
  -- source answers, and the response is the token over what the request says.
  pub record IsGranted (issuer : Issuer c) (now : ℕ) (fill : Result Str Bytes)
      (request : IssueRequest) (response : IssueResponse) : Type 0 where
    pub sub : WorkloadIdentifier
    pub key : VerifyingKey c
    pub ttl : ℕ
    pub bytes : Bytes
    pub subject : Identifier.parse (trim request.sub) ≡ ok sub
    pub confirmed : to_verifying_key url_safe request.cnf_jwk ≡ ok key
    pub lifetime : IsLifetime issuer request.ttl ttl
    pub expiry : now + ttl ≤ u64_max
    pub random : fill ≡ ok bytes
    pub issued :
        Token.issue url_safe header_json claims_json
          (claims_for issuer sub now (now + ttl) (push_all bytes) request.cnf_jwk)
          issuer.kid
          issuer.signing_key
        ≡ ok response.wit

random_id-eq-ok :
    (fill : Result Str Bytes) {id : Str}
    → random_id fill ≡ ok id
    → (bytes : Bytes) × (fill ≡ ok bytes) × (push_all bytes ≡ id)
unfolding random_id
random_id-eq-ok fill h =
    let (bytes, h0, k0) = >>=-eq-ok fill (λ b. ok (push_all b)) h in (bytes, h0, ok-injective k0)

pub checked_add-eq-some :
    (a b : ℕ) {sum : ℕ} → checked_add a b ≡ some sum → (a + b ≡ sum) × (a + b ≤ u64_max)
checked_add-eq-some a b h = (ground arith, ground arith)

-- The equation for a token, at equal expiries, identifiers and tokens.
issue_same :
    {c : Crypto} (url_safe : Base64) (header_json : Json Token.Header)
    (claims_json : Json ClaimsText) (issuer : Issuer c) (sub : WorkloadIdentifier) (now : ℕ)
    (jwk : Jwk) {exp exp' : ℕ} {jti jti' wit wit' : Str}
    → exp ≡ exp'
    → jti ≡ jti'
    → wit ≡ wit'
    → Token.issue url_safe header_json claims_json
        (claims_for issuer sub now exp jti jwk)
        issuer.kid
        issuer.signing_key
      ≡ ok wit
    → Token.issue url_safe header_json claims_json
        (claims_for issuer sub now exp' jti' jwk)
        issuer.kid
        issuer.signing_key
      ≡ ok wit'
issue_same url_safe header_json claims_json issuer sub now jwk e j w h = rw (← e, ← j, ← w) h

module _ {c : Crypto} (url_safe : Base64) (header_json : Json Token.Header)
    (claims_json : Json ClaimsText) (display : ParseError → Str) (describe : WitError → Str) where
  -- `issue_wit` answers a request with a token exactly if the trimmed subject is an identifier, the confirmation key decodes, the lifetime (the one asked for, or the default) is above zero and at most the default, the expiry fits 64 bits and the random source answers; and the token is then the one issued for those claims, from the clock to the expiry.
  pub issue_wit-IsGranted_iff :
      (issuer : Issuer c) (now : ℕ) (fill : Result Str Bytes) (request : IssueRequest)
      (response : IssueResponse)
      → (issue_wit url_safe header_json claims_json display describe issuer now fill request
          ≡ ok response)
        ↔ IsGranted url_safe header_json claims_json issuer now fill request response
  unfolding issue_wit random_id
  issue_wit-IsGranted_iff issuer now fill request response = (
    λ h.
        let (sub, h0, k0) =
          >>=-eq-ok
            (map_err (λ e. bad_request (codes "invalid sub: " ++ display e))
              (Identifier.parse (trim request.sub)))
            _ h in
        let (key, h1, k1) =
          >>=-eq-ok
            (map_err (λ e. bad_request (codes "invalid cnf_jwk"))
              (to_verifying_key {c = c} url_safe request.cnf_jwk))
            _ k0 in
        let (ttl, h2, k2) = >>=-eq-ok (lifetime issuer request.ttl) _ k1 in
        let (exp, h3, k3) = >>=-eq-ok (ok_or (checked_add now ttl) _) _ k2 in
        let (jti, h4, k4) = >>=-eq-ok (map_err internal (random_id fill)) _ k3 in
        let (wit, h5, k5) =
          >>=-eq-ok
            (map_err (λ e. internal (describe e))
              (Token.issue url_safe header_json claims_json
                (claims_for issuer sub now exp jti request.cnf_jwk) issuer.kid issuer.signing_key))
            (λ w. ok (record { wit = w })) k4 in
        let (bytes, drawn, written) =
          random_id-eq-ok fill (map_err-eq-ok internal (random_id fill) jti h4) in
        let (sum, fits) =
          checked_add-eq-some now ttl (ok_or-eq-ok (checked_add now ttl) _ exp h3) in
        record {
          sub = sub;
          key = key;
          ttl = ttl;
          bytes = bytes;
          subject = map_err-eq-ok _ _ sub h0;
          confirmed = map_err-eq-ok _ _ key h1;
          lifetime = (lifetime-IsLifetime_iff issuer request.ttl ttl).0 h2;
          expiry = fits;
          random = drawn;
          issued =
              issue_same url_safe header_json claims_json issuer sub now request.cnf_jwk (sym sum)
                (sym written) (ap (λ r. r.wit) (ok-injective k5)) (map_err-eq-ok _ _ wit h5);
        },
    λ r.
        let fits : leb (now + r.ttl) u64_max ≡ true = (let e = r.expiry in ground arith) in
        rw
          (
            r.subject,
            r.confirmed,
            (lifetime-IsLifetime_iff issuer request.ttl r.ttl).1 r.lifetime,
            fits,
            r.random,
            r.issued,
          )
          refl,
  )
