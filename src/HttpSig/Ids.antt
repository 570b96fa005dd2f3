-- ===== src/HttpSig/Ids.antt =====
-- The written form of a component identifies it: `quoted_id` and `from_quoted_id`.
use wimsey.Common.{
  ℕ, zero, suc, ◌+◌, ◌≤◌, ◌≡◌, inl, inr, refl, ap, sym, ◌∙◌, false, none, some, [], ◌∷◌, ◌++◌, ok,
  ◌>>=◌, arith, length, length-append, Option-cases, ◌==◌,
}
use wimsey.Text.{
  Str, codes, str_eq, to_ascii_lowercase, strip_prefix, strip_suffix, strip_suffix-append,
  strip_suffix-other, strip_suffix-eq-some,
}
use wimsey.HttpSig.Message.{
  Component, method, authority, path, query, request_target, status, req, header, quoted, quoted_id,
  unquote, starts_with_at, named, from_plain_id, from_quoted_id_in, from_quoted_id,
}

from_quoted_id_in-plain :
    (n : ℕ) (token : Str)
    → strip_suffix token (codes ";req") ≡ none
    → from_quoted_id_in n token ≡ from_plain_id token
unfolding from_quoted_id_in
from_quoted_id_in-plain zero token h = refl
from_quoted_id_in-plain (suc n) token h = rw (h, from_quoted_id_in) refl

-- The rest after a `;req` is shorter.
strip_suffix-shorter :
    (token base : Str)
    → strip_suffix token (codes ";req") ≡ some base
    → length base + 4 ≡ length token
strip_suffix-shorter token base h =
    let e = ap length (strip_suffix-eq-some token (codes ";req") h) in
    let size = length-append base (codes ";req") in omega (arith, e, size)

-- One `;req` is taken off, on one unit of fuel.
from_quoted_id_in-req :
    (n : ℕ) (token base : Str)
    → strip_suffix token (codes ";req") ≡ some base
    → from_quoted_id_in (suc n) token ≡ (from_quoted_id_in n base >>= λ inner. ok (req inner))
unfolding from_quoted_id_in
from_quoted_id_in-req n token base h = rw (h, from_quoted_id_in) refl

strip_suffix-empty : (token : Str) → length token ≤ 0 → strip_suffix token (codes ";req") ≡ none
strip_suffix-empty token h = elim (Option-cases (strip_suffix token (codes ";req"))) [
  | inl missing ↦ missing
  | inr (base, found) ↦
      let size = strip_suffix-shorter token base found in absurd (omega (arith, size, h))
]

-- Two amounts of fuel that are enough give the same.
from_quoted_id_in-enough :
    (n m : ℕ) (token : Str)
    → length token ≤ n
    → length token ≤ m
    → from_quoted_id_in n token ≡ from_quoted_id_in m token
from_quoted_id_in-enough zero m token hn hm =
    let missing = strip_suffix-empty token hn in
    from_quoted_id_in-plain zero token missing ∙ sym (from_quoted_id_in-plain m token missing)
from_quoted_id_in-enough (suc n) zero token hn hm =
    let missing = strip_suffix-empty token hm in
    from_quoted_id_in-plain (suc n) token missing ∙ sym (from_quoted_id_in-plain zero token missing)
from_quoted_id_in-enough (suc n) (suc m) token hn hm =
    elim (Option-cases (strip_suffix token (codes ";req"))) [
      | inl missing ↦
          from_quoted_id_in-plain (suc n) token missing
          ∙ sym (from_quoted_id_in-plain (suc m) token missing)
      | inr (base, found) ↦
          let size = strip_suffix-shorter token base found in
          from_quoted_id_in-req n token base found
          ∙ (ap (λ r. r >>= λ inner. ok (req inner))
                (from_quoted_id_in-enough n m base (omega (arith, size, hn))
                  (omega (arith, size, hm)))
              ∙ sym (from_quoted_id_in-req m token base found))
    ]

-- The fuel of `from_quoted_id` is enough: a token that ends in `;req` is read as the `req` of what the rest is read as, and any other token as a plain identifier.
from_quoted_id_unroll :
    (token : Str)
    → ((base : Str)
        → strip_suffix token (codes ";req") ≡ some base
        → from_quoted_id token ≡ (from_quoted_id base >>= λ inner. ok (req inner)))
      × (strip_suffix token (codes ";req") ≡ none → from_quoted_id token ≡ from_plain_id token)
unfolding from_quoted_id
from_quoted_id_unroll token = (
  λ base found.
      let size = strip_suffix-shorter token base found in
      from_quoted_id_in-enough (length token) (suc (length token)) token (omega arith) (omega arith)
      ∙ (from_quoted_id_in-req (length token) token base found
          ∙ ap (λ r. r >>= λ inner. ok (req inner))
              (from_quoted_id_in-enough (length token) (length base) base (omega (arith, size))
                (omega arith))),
  from_quoted_id_in-plain (length token) token,
)

-- The names that header fields have: lower case, and no `@` in front.
abbrev pub IsNamed : Component → Type 0
IsNamed (header name) = (to_ascii_lowercase name ≡ name) × (starts_with_at name ≡ false)
IsNamed (req c) = IsNamed c
IsNamed _ = Unit

unquote-quoted : (s : Str) → unquote (quoted s) ≡ some s
unfolding strip_prefix
unquote-quoted s = strip_suffix-append s (codes "\"")

plain-quoted : (s : Str) → from_quoted_id (quoted s) ≡ named s
unfolding from_plain_id
plain-quoted s =
    let no_req = strip_suffix-other (b'"' ∷ s) (codes ";re") b'"' b'q' (λ e. cc) in
    (from_quoted_id_unroll (quoted s)).1 no_req ∙ rw (unquote-quoted s) refl

named-header :
    (name : Str)
    → to_ascii_lowercase name ≡ name
    → starts_with_at name ≡ false
    → named name ≡ ok (header name)
unfolding named str_eq
named-header [] low first = ap (λ n. ok (header n)) low
named-header (c ∷ name) low first =
    let other : (c == b'@') ≡ false = first in rw other (ap (λ n. ok (header n)) low)

-- A component is read back from its written form, provided that the name of its field is in lower case and does not start with `@`.
pub from_quoted_id-quoted_id : (c : Component) → IsNamed c → from_quoted_id (quoted_id c) ≡ ok c
unfolding quoted_id named str_eq
from_quoted_id-quoted_id method h = plain-quoted (codes "@method")
from_quoted_id-quoted_id authority h = plain-quoted (codes "@authority")
from_quoted_id-quoted_id path h = plain-quoted (codes "@path")
from_quoted_id-quoted_id query h = plain-quoted (codes "@query")
from_quoted_id-quoted_id request_target h = plain-quoted (codes "@request-target")
from_quoted_id-quoted_id status h = plain-quoted (codes "@status")
from_quoted_id-quoted_id (req c) h =
    (from_quoted_id_unroll (quoted_id c ++ codes ";req")).0 (quoted_id c)
      (strip_suffix-append (quoted_id c) (codes ";req"))
    ∙ ap (λ r. r >>= λ inner. ok (req inner)) (from_quoted_id-quoted_id c h)
from_quoted_id-quoted_id (header name) h = plain-quoted name ∙ named-header name h.0 h.1
