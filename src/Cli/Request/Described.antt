-- ===== src/Cli/Request/Described.antt =====
-- The request that `build_request` makes of its arguments, stated apart from the checks.
use wimsey.Common.{
  ◌==◌, ok_or, ok_or-eq-ok, ◌≡◌, subst, sym, ap, ◌∙◌, Option, some, List, [], ◌∷◌, ok, ensure,
  then-eq-ok, >>=-eq-ok, ok-injective, arith,
}
use mathlib.Core.Option
use wimsey.Text.{Str, trim, trim_start_matches, split_once, to_ascii_lowercase}
use wimsey.HttpSig.Message.{Headers, HttpRequest}
use wimsey.Cli.Request.{
  is_valid_header_name, is_valid_header_value, parse_header, parse_headers, checked_method,
  checked_authority, checked_path, build_request,
}

-- Each argument is a name and a value around its first `:`, trimmed.
pub data IsHeaders : List Str → Headers → Type 0 where
  none_left : IsHeaders [] []
  field :
      {spec name value : Str} {specs : List Str} {headers : Headers}
      → split_once b':' spec ≡ some (name, value)
      → IsHeaders specs headers
      → IsHeaders (spec ∷ specs) ((trim name, trim value) ∷ headers)

parse_header-eq-ok :
    (spec : Str) {h : Str × Str}
    → parse_header spec ≡ ok h
    → (name : Str) × (value : Str) × (split_once b':' spec ≡ some (name, value))
      × (h ≡ (trim name, trim value))
unfolding parse_header
parse_header-eq-ok spec h =
    let (parts, h0, k0) = >>=-eq-ok (ok_or (split_once b':' spec) _) _ h in
    let (h1, k1) = then-eq-ok (ensure (is_valid_header_name (trim parts.0)) _) _ k0 in
    let (h2, k2) = then-eq-ok (ensure (is_valid_header_value (trim parts.1)) _) _ k1 in
    (parts.0, parts.1, ok_or-eq-ok (split_once b':' spec) _ parts h0, sym (ok-injective k2))

pub parse_headers-IsHeaders :
    (specs : List Str) {headers : Headers}
    → parse_headers specs ≡ ok headers
    → IsHeaders specs headers
unfolding parse_headers
parse_headers-IsHeaders [] h = subst (IsHeaders []) (ok-injective h) none_left
parse_headers-IsHeaders (spec ∷ specs) h =
    let (first, h0, k0) = >>=-eq-ok (parse_header spec) _ h in
    let (rest, h1, k1) = >>=-eq-ok (parse_headers specs) _ k0 in
    let (name, value, cut, same) = parse_header-eq-ok spec h0 in
    subst (IsHeaders (spec ∷ specs)) (ap (λ f. f ∷ rest) (sym same) ∙ ok-injective k1)
      (field cut (parse_headers-IsHeaders specs h1))

-- The request is the one that the arguments describe, with the header fields given.
pub record IsDescribed (raw_method raw_authority raw_path : Str) (raw_query : Option Str)
    (headers : Headers) (request : HttpRequest) : Type 0 where
  pub method : request.method ≡ trim raw_method
  pub authority : request.authority ≡ to_ascii_lowercase (trim raw_authority)
  pub path : request.path ≡ trim raw_path
  pub query :
      request.query ≡ Option.map (λ q. trim_start_matches (λ c. c == b'?') (trim q)) raw_query
  pub fields : request.headers ≡ headers

checked_method-eq-ok : (raw : Str) {m : Str} → checked_method raw ≡ ok m → m ≡ trim raw
unfolding checked_method
checked_method-eq-ok raw h = ground (arith, h)

checked_authority-eq-ok :
    (raw : Str) {a : Str} → checked_authority raw ≡ ok a → a ≡ to_ascii_lowercase (trim raw)
unfolding checked_authority
checked_authority-eq-ok raw h = ground (arith, h)

checked_path-eq-ok : (raw : Str) {p : Str} → checked_path raw ≡ ok p → p ≡ trim raw
unfolding checked_path
checked_path-eq-ok raw h = ground (arith, h)

pub build_request-IsDescribed :
    (raw_method raw_authority raw_path : Str) (raw_query : Option Str) (headers : Headers)
    {request : HttpRequest}
    → build_request raw_method raw_authority raw_path raw_query headers ≡ ok request
    → IsDescribed raw_method raw_authority raw_path raw_query headers request
unfolding build_request
build_request-IsDescribed raw_method raw_authority raw_path raw_query headers {request} h =
    let (m, h0, k0) = >>=-eq-ok (checked_method raw_method) _ h in
    let (a, h1, k1) = >>=-eq-ok (checked_authority raw_authority) _ k0 in
    let (p, h2, k2) = >>=-eq-ok (checked_path raw_path) _ k1 in
    let same = sym (ok-injective k2) in
    record {
      method = ap (λ r. r.method) same ∙ checked_method-eq-ok raw_method h0;
      authority = ap (λ r. r.authority) same ∙ checked_authority-eq-ok raw_authority h1;
      path = ap (λ r. r.path) same ∙ checked_path-eq-ok raw_path h2;
      query = ap (λ r. r.query) same;
      fields = ap (λ r. r.headers) same;
    }
