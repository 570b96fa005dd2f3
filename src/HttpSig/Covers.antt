-- ===== src/HttpSig/Covers.antt =====
-- Which header fields the chosen components of a request cover, and what it takes to cover them.
use wimsey.Common.{
  ◌≡◌, refl, sym, ap, ◌∙◌, Bool, true, false, ◌||◌, List, [], ◌∷◌, ◌++◌, ok, arith, All, All-map,
  Bool-cases, inl, inr,
}
use wimsey.Text.{
  Str, str_eq, str_eq_iff, str_eq_refl, eq_ignore_ascii_case, to_ascii_lowercase, contains_str,
}
use wimsey.HttpSig.Message.{
  Component, method, authority, path, query, request_target, status, req, header, component_eq,
  contains, header_named, header_value, header_values, Headers, HttpRequest,
}
use wimsey.HttpSig.Profile.{has_header, carried, request_headers, request_components}

or_true : (a : Bool) → a || true ≡ true
or_true true = refl
or_true false = refl

-- A field with a value is there.
pub has_header-header_value :
    (headers : Headers) (name : Str) {v : Str}
    → header_value headers name ≡ ok v
    → has_header headers name ≡ true
unfolding header_value header_values
has_header-header_value [] name h = cc
has_header-header_value ((n, w) ∷ rest) name {v} h =
    elim (Bool-cases (eq_ignore_ascii_case n name)) [
      | inl match ↦ rw match refl
      | inr other ↦ rw other (has_header-header_value rest name {v = v} (rw other at h))
    ]

carried-found :
    (headers : Headers) (names : List Str) (name : Str)
    → has_header headers name ≡ true
    → contains_str names name ≡ true
    → contains (carried headers names) (header_named name) ≡ true
unfolding carried contains header_named component_eq contains_str eq_ignore_ascii_case
carried-found headers [] name h k = cc
carried-found headers (n ∷ names) name h k = elim (Bool-cases (str_eq n name)) [
  | inl e ↦
      let same : n ≡ name = (str_eq_iff n name).0 e in
      rw (same, h, str_eq_refl (to_ascii_lowercase (to_ascii_lowercase name))) refl
  | inr e ↦
      let rest = carried-found headers names name h (ground arith) in
      elim (Bool-cases (has_header headers n)) [
        | inl there ↦ rw (there, rest) (or_true (component_eq (header_named n) (header_named name)))
        | inr absent ↦ rw absent rest
      ]
]

contains-append :
    (xs ys : List Component) (c : Component) → contains ys c ≡ true → contains (xs ++ ys) c ≡ true
unfolding contains
contains-append [] ys c h = h
contains-append (x ∷ xs) ys c h = rw (contains-append xs ys c h) (or_true (component_eq x c))

-- A field of the profile that is there is among the chosen components.
pub request_components-found :
    (r : HttpRequest) (name : Str)
    → has_header r.headers name ≡ true
    → contains_str request_headers name ≡ true
    → contains (request_components r) (header_named name) ≡ true
unfolding request_components
request_components-found r name h k =
    contains-append _ (carried r.headers request_headers) (header_named name)
      (carried-found r.headers request_headers name h k)

component_eq-header :
    (c : Component) (name : Str)
    → component_eq c (header name) ≡ true
    → (n : Str) × (c ≡ header n) × (to_ascii_lowercase n ≡ to_ascii_lowercase name)
unfolding component_eq eq_ignore_ascii_case
component_eq-header (header n) name h = (n, refl, (str_eq_iff _ _).0 h)
component_eq-header method name h = cc
component_eq-header authority name h = cc
component_eq-header path name h = cc
component_eq-header query name h = cc
component_eq-header request_target name h = cc
component_eq-header status name h = cc
component_eq-header (req c) name h = cc

header-component_eq :
    (m n : Str)
    → to_ascii_lowercase m ≡ to_ascii_lowercase n
    → component_eq (header m) (header n) ≡ true
unfolding component_eq eq_ignore_ascii_case
header-component_eq m n e = (str_eq_iff _ _).1 e

-- A list that holds a field under one spelling holds it under every spelling.
contains_respell :
    (set : List Component) (m n : Str)
    → to_ascii_lowercase m ≡ to_ascii_lowercase n
    → contains set (header m) ≡ true
    → contains set (header n) ≡ true
unfolding contains
contains_respell [] m n e h = cc
contains_respell (x ∷ xs) m n e h = elim (Bool-cases (component_eq x (header m))) [
  | inl here ↦
      let (k, same, lower) = component_eq-header x m here in
      rw (same, header-component_eq k n (lower ∙ e)) refl
  | inr other ↦ rw (contains_respell xs m n e (ground arith)) (or_true (component_eq x (header n)))
]

-- A set that covers every required component covers each field that is required.
pub covers_required :
    (set required : List Component) (name : Str)
    → All (λ r. contains set r ≡ true) required
    → contains required (header name) ≡ true
    → contains set (header name) ≡ true
unfolding contains
covers_required set [] name h k = cc
covers_required set (r ∷ rs) name h k = elim (Bool-cases (component_eq r (header name))) [
  | inl here ↦
      let (m, same, lower) = component_eq-header r name here in
      contains_respell set m name lower (ap (λ c. contains set c) (sym same) ∙ h.0)
  | inr other ↦ covers_required set rs name h.1 (ground arith)
]

component_eq_refl : (c : Component) → component_eq c c ≡ true
unfolding component_eq eq_ignore_ascii_case
component_eq_refl (header n) = str_eq_refl (to_ascii_lowercase n)
component_eq_refl (req c) = component_eq_refl c
component_eq_refl method = refl
component_eq_refl authority = refl
component_eq_refl path = refl
component_eq_refl query = refl
component_eq_refl request_target = refl
component_eq_refl status = refl

-- A list holds each of its components.
pub contains_self : (cs : List Component) → All (λ c. contains cs c ≡ true) cs
unfolding contains
contains_self [] = tt
contains_self (c ∷ cs) = (
  rw (component_eq_refl c) refl,
  All-map (λ d. contains cs d ≡ true) (λ d. contains (c ∷ cs) d ≡ true)
      (λ d h. rw h (or_true (component_eq c d))) cs (contains_self cs),
)
