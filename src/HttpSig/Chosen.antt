-- ===== src/HttpSig/Chosen.antt =====
-- The components that a WIMSE signer chooses: `request_components` and `response_components`.
use wimsey.Common.{
  ◌≡◌, ◌≢◌, refl, ap, ◌∙◌, Bool, true, false, List, [], ◌∷◌, Result, ok, is_ok, arith, All,
  Bool-cases, inl, inr,
}
use wimsey.Text.{
  Str, str_eq, eq_ignore_ascii_case, to_ascii_lowercase, to_ascii_lowercase_idem, trim,
  str_eq_sound,
}
use wimsey.HttpSig.Error.{HttpSigError}
use wimsey.HttpSig.Message.{
  Component, method, authority, path, query, request_target, status, req, header, component_eq,
  contains, header_named, header_value, header_values, Headers, HttpRequest, HttpExchange,
  request_value, exchange_value, of_request, of_exchange,
}
use wimsey.HttpSig.Profile.{
  connect, has_header, carried, request_headers, request_components, response_components,
  response_headers, check_connect_components,
}

-- A header field that is there has a value.
header_values-found :
    (headers : Headers) (name : Str)
    → has_header headers name ≡ true
    → (v : Str) × (vs : List Str) × (header_values headers (to_ascii_lowercase name) ≡ v ∷ vs)
unfolding header_values eq_ignore_ascii_case
header_values-found [] name h = cc
header_values-found ((n, v) ∷ rest) name h =
    elim (Bool-cases (str_eq (to_ascii_lowercase n) (to_ascii_lowercase name))) [
      | inl match ↦ (
        trim v,
        header_values rest (to_ascii_lowercase name),
        rw (to_ascii_lowercase_idem name, match) refl,
      )
      | inr other ↦
          rw (to_ascii_lowercase_idem name, other) (header_values-found rest name (ground arith))
    ]

header_value_ok :
    (headers : Headers) (name : Str)
    → has_header headers name ≡ true
    → is_ok (header_value headers (to_ascii_lowercase name)) ≡ true
unfolding header_value
header_value_ok headers name h =
    let (v, vs, found) = header_values-found headers name h in rw found refl

-- Only fields that are there are covered.
carried_ok :
    (headers : Headers) (value : Component → Result HttpSigError Str)
    → ((name : Str) → value (header name) ≡ header_value headers name)
    → (names : List Str) → All (λ c. is_ok (value c) ≡ true) (carried headers names)
unfolding carried header_named
carried_ok headers value fields [] = tt
carried_ok headers value fields (name ∷ names) = elim (Bool-cases (has_header headers name)) [
  | inl there ↦ rw there (
    ap is_ok (fields (to_ascii_lowercase name)) ∙ header_value_ok headers name there,
    carried_ok headers value fields names,
  )
  | inr absent ↦ rw absent (carried_ok headers value fields names)
]

abbrev is_header : Component → Bool
is_header (header name) = true
is_header _ = false

header_eq :
    (name : Str) (c : Component) → is_header c ≡ false → component_eq (header name) c ≡ false
unfolding component_eq
header_eq name method h = refl
header_eq name authority h = refl
header_eq name path h = refl
header_eq name query h = refl
header_eq name request_target h = refl
header_eq name status h = refl
header_eq name (req c) h = refl
header_eq name (header n) h = cc

-- Fields are no derived components.
carried-contains :
    (headers : Headers) (names : List Str) (c : Component)
    → is_header c ≡ false
    → contains (carried headers names) c ≡ false
unfolding carried contains header_named component_eq
carried-contains headers [] c h = refl
carried-contains headers (name ∷ names) c h = elim (Bool-cases (has_header headers name)) [
  | inl there ↦
      rw (there, header_eq (to_ascii_lowercase name) c h) (carried-contains headers names c h)
  | inr absent ↦ rw absent (carried-contains headers names c h)
]

-- A request's chosen components cover its method and, unless the method is `CONNECT`, its path and its query; the list passes `check_connect_components`, and every component of it has a value in the request.
pub request_components_lem :
    (r : HttpRequest)
    → (contains (request_components r) method ≡ true)
      × (r.method ≢ connect
          → (contains (request_components r) path ≡ true)
            × (contains (request_components r) query ≡ true))
      × (check_connect_components (of_request r) (request_components r) false ≡ ok tt)
      × All (λ c. is_ok (request_value r c) ≡ true) (request_components r)
unfolding request_components check_connect_components contains of_request request_value component_eq
request_components_lem r =
    let rest = carried r.headers request_headers in
    let values = carried_ok r.headers (request_value r) (λ name. refl) request_headers in
    let no_path = carried-contains r.headers request_headers path refl in
    let no_query = carried-contains r.headers request_headers query refl in
    elim (Bool-cases (str_eq r.method connect)) [
      | inl tunnel ↦ rw tunnel (
        refl,
        λ other. absurd (other (str_eq_sound r.method connect tunnel)),
        rw (no_path, no_query) refl,
        (refl, (refl, values)),
      )
      | inr plain ↦ rw plain (refl, λ other. (refl, refl), refl, (refl, (refl, (refl, values))))
    ]

-- A response's chosen components cover its status and the method of the request it answers and, unless that method is `CONNECT`, the request's path and query; the list passes `check_connect_components`, and every component of it has a value in the exchange.
pub response_components_lem :
    (e : HttpExchange)
    → (contains (response_components e) status ≡ true)
      × (contains (response_components e) (req method) ≡ true)
      × (e.request.method ≢ connect
          → (contains (response_components e) (req path) ≡ true)
            × (contains (response_components e) (req query) ≡ true))
      × (check_connect_components (of_exchange e) (response_components e) true ≡ ok tt)
      × All (λ c. is_ok (exchange_value e c) ≡ true) (response_components e)
unfolding response_components check_connect_components contains of_exchange exchange_value
    request_value component_eq
response_components_lem e =
    let values = carried_ok e.response.headers (exchange_value e) (λ name. refl) response_headers in
    let no_path = carried-contains e.response.headers response_headers (req path) refl in
    let no_query = carried-contains e.response.headers response_headers (req query) refl in
    elim (Bool-cases (str_eq e.request.method connect)) [
      | inl tunnel ↦ rw tunnel (
        refl,
        refl,
        λ other. absurd (other (str_eq_sound e.request.method connect tunnel)),
        rw (no_path, no_query) refl,
        (refl, (refl, (refl, values))),
      )
      | inr plain ↦
          rw plain (refl, refl, λ other. (refl, refl), refl, (refl, (refl, (refl, (refl, values)))))
    ]
