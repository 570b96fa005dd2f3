-- ===== src/Cli/HttpSign/Covered.antt =====
-- What the components chosen for a request hold, and what a verified signature covers.
use wimsey.Common.{
  ℕ, ◌≤◌, ◌≡◌, subst, sym, ap, ◌∙◌, true, Option, none, some, List, [], ◌∷◌, ok, ensure, u64_max,
  All, then-eq-ok, >>=-eq-ok, ensure-eq-ok, ok-injective,
}
use mathlib.Core.Option.{some-injective}
use wimsey.Text.{Str, to_ascii_lowercase, contains_str}
use wimsey.Jose.Primitives.{Crypto, Base64}
use wimsey.Jose.Key.{VerifyingKey}
use wimsey.HttpSig.Message.{
  Component, header, contains, header_named, HttpRequest, request_value, of_request,
}
use wimsey.HttpSig.Profile.{request_headers, request_components}
use wimsey.HttpSig.Signature
use wimsey.HttpSig.Signature.{VerifiedSignature, VerifyConfig}
use wimsey.HttpSig.Accepts.Whole.{verify_iff}
use wimsey.HttpSig.Covers.{
  has_header-header_value, request_components-found, covers_required, contains_self,
}
use wimsey.Cli.Request.{parse_components, chosen_components, ensure_covers}
use wimsey.Cli.HttpSign.{VerifyArgs, config_of}

ensure_covers-All :
    (set mandatory : List Component)
    → ensure_covers set mandatory ≡ ok tt
    → All (λ c. contains set c ≡ true) mandatory
unfolding ensure_covers
ensure_covers-All set [] h = tt
ensure_covers-All set (c ∷ cs) h =
    let (h0, h1) = then-eq-ok (ensure (contains set c) _) (ensure_covers set cs) h in
    (ensure-eq-ok (contains set c) _ h0, ensure_covers-All set cs h1)

-- What is mandatory is among what is chosen.
pub chosen-found :
    (list : Option Str) (mandatory : List Component) {required : List Component} (name : Str)
    → chosen_components list mandatory ≡ ok required
    → contains mandatory (header name) ≡ true
    → contains required (header name) ≡ true
unfolding chosen_components
chosen-found none mandatory name h k = ap (λ r. contains r (header name)) (sym (ok-injective h)) ∙ k
chosen-found (some list) mandatory {required} name h k =
    let (components, h0, k0) = >>=-eq-ok (parse_components list) _ h in
    let (h1, k1) = then-eq-ok (ensure_covers components mandatory) (ok components) k0 in
    ap (λ r. contains r (header name)) (sym (ok-injective k1))
    ∙ covers_required components mandatory name (ensure_covers-All components mandatory h1) k

-- Whatever list is given, what is verified includes what is mandatory.
pub chosen-mandatory :
    (list : Option Str) (mandatory : List Component) {required : List Component}
    → chosen_components list mandatory ≡ ok required
    → All (λ c. contains required c ≡ true) mandatory
unfolding chosen_components
chosen-mandatory none mandatory h =
    subst (λ r. All (λ c. contains r c ≡ true) mandatory) (ok-injective h) (contains_self mandatory)
chosen-mandatory (some list) mandatory h =
    let (components, h0, k0) = >>=-eq-ok (parse_components list) _ h in
    let (h1, k1) = then-eq-ok (ensure_covers components mandatory) (ok components) k0 in
    subst (λ r. All (λ c. contains r c ≡ true) mandatory) (ok-injective k1)
      (ensure_covers-All components mandatory h1)

-- What a verified signature covers includes every required component.
pub verified-covered :
    {c : Crypto} (standard : Base64) (request : HttpRequest) (required : List Component)
    (signature_input signature : Str) (key : VerifyingKey c) (args : VerifyArgs) (now : ℕ)
    (v : VerifiedSignature)
    → now ≤ u64_max
    → Signature.verify standard
        (of_request request)
        signature_input
        signature
        key
        (config_of args now required)
      ≡ ok v
    → All (λ r. contains v.components r ≡ true) required
verified-covered standard request required signature_input signature key args now v clock verified =
    let (m, bytes, h0, h1, accepted, same) =
      (verify_iff standard (of_request request) signature_input signature key
          (config_of args now required) v
          (λ n e. subst (λ k. k ≤ u64_max) (some-injective now n e) clock)).0
        verified in
    subst (λ w. All (λ r. contains w.components r ≡ true) required) (sym same) accepted.covered

-- A field of the profile with a value in the request is covered by what is verified for it.
pub field-covered :
    {c : Crypto} (standard : Base64) (request : HttpRequest) (list : Option Str)
    (required : List Component) (signature_input signature : Str) (key : VerifyingKey c)
    (args : VerifyArgs) (now : ℕ) (v : VerifiedSignature) (name : Str) {value : Str}
    → now ≤ u64_max
    → to_ascii_lowercase name ≡ name
    → contains_str request_headers name ≡ true
    → request_value request (header name) ≡ ok value
    → chosen_components list (request_components request) ≡ ok required
    → Signature.verify standard
        (of_request request)
        signature_input
        signature
        key
        (config_of args now required)
      ≡ ok v
    → contains v.components (header name) ≡ true
unfolding request_value header_named
field-covered standard request list required signature_input signature key args now v name clock low
      known found chosen verified =
    let there = has_header-header_value request.headers name found in
    let mandatory =
      subst (λ n. contains (request_components request) (header n) ≡ true) low
        (request_components-found request name there known) in
    let needed = chosen-found list (request_components request) name chosen mandatory in
    covers_required v.components required name
      (verified-covered standard request required signature_input signature key args now v clock
        verified)
      needed
