-- ===== src/Identifier/Parser.antt =====
-- `WorkloadIdentifier::parse` accepts exactly the identifiers of the grammar.
use wimsey.Common.{
  ℕ, ◌≤◌, ◌≡◌, ◌↔◌, ◌⊎◌, refl, sym, ap, ◌∙◌, Bool, true, false, not, ◌||◌, ◌&&◌, some, List, [],
  ◌∷◌, ◌++◌, append-nil, arith, Bool-cases, Option-cases, inl, inr, ok, ensure, ok_or, >>=-eq-ok,
  ◌==◌, All, then-eq-ok, leb,
}
use wimsey.Text.{
  Str, len, strip_prefix, strip_prefix-eq-some, split_once, split_once-none, split_once-append,
  split_once-eq-some, contains_char, contains_char-append, is_empty,
}
use wimsey.Identifier.Validate.{
  Scheme, spiffe, wimse, is_trust_domain_char, invalid_trust_domain_char, validate_trust_domain,
  validate_path, is_spiffe, max_trust_domain_len,
}
use wimsey.Identifier.{
  WorkloadIdentifier, prefix, find_scheme, split_path, validate, parse_rest, parse, max_id_len,
}
use wimsey.Identifier.Grammar.{
  IsHostChar, IsSegment, IsTrustDomain, FitsScheme, IsIdentifier, render, identifier,
}
use wimsey.Identifier.Classes.{is_trust_domain_char_iff}
use wimsey.Identifier.Segments.{check_chars_sound, check_chars_complete}
use wimsey.Identifier.Paths.{
  IsSegment-delimiter, validate_path_sound, validate_path_complete, is_delimiter,
}

find_scheme_sound :
    (input : Str) {scheme : Scheme} {rest : Str}
    → find_scheme input ≡ some (scheme, rest)
    → input ≡ prefix scheme ++ rest
unfolding find_scheme
find_scheme_sound input {scheme} {rest} h =
    elim (Option-cases (strip_prefix input (prefix spiffe))) [
      | inl n ↦ elim (Option-cases (strip_prefix input (prefix wimse))) [
        | inl m ↦ cc (rw (n, find_scheme, m) at h)
        | inr (r, m) ↦
            let e : some (wimse, r) ≡ some (scheme, rest) = (rw (n, find_scheme, m) at h) in
            cc (strip_prefix-eq-some input (prefix wimse) m, e)
      ]
      | inr (r, n) ↦
          let e : some (spiffe, r) ≡ some (scheme, rest) = (rw (n, find_scheme) at h) in
          cc (strip_prefix-eq-some input (prefix spiffe) n, e)
    ]

find_scheme_complete :
    (scheme : Scheme) (rest : Str) → find_scheme (prefix scheme ++ rest) ≡ some (scheme, rest)
unfolding find_scheme strip_prefix
find_scheme_complete spiffe rest = refl
find_scheme_complete wimse rest = refl

not-true : (b : Bool) → not b ≡ true → b ≡ false
not-true b h = ground arith

is_empty-eq : (s : Str) → is_empty s ≡ true → s ≡ []
is_empty-eq [] h = refl
is_empty-eq (c ∷ s) h = cc

fits_of_test :
    (scheme : Scheme) (td : Str)
    → is_spiffe scheme && not (leb (len td) max_trust_domain_len) ≡ false
    → FitsScheme scheme td
fits_of_test spiffe td h = ground arith
fits_of_test wimse td h = tt

test_of_fits :
    (scheme : Scheme) (td : Str)
    → FitsScheme scheme td
    → is_spiffe scheme && not (leb (len td) max_trust_domain_len) ≡ false
test_of_fits spiffe td h = ground arith
test_of_fits wimse td h = refl

validate_trust_domain_sound :
    (scheme : Scheme) (td : Str) → validate_trust_domain scheme td ≡ ok tt → IsTrustDomain scheme td
unfolding validate_trust_domain
validate_trust_domain_sound scheme td h =
    let (first, rest) = then-eq-ok (ensure (not (is_empty td)) _) _ h in
    let (second, third) =
      then-eq-ok (ensure (not (is_spiffe scheme && not (leb (len td) max_trust_domain_len))) _) _
        rest in
    record {
      nonempty = λ e. cc (ap is_empty e, first);
      fits = fits_of_test scheme td (ground (arith, second));
      chars =
          check_chars_sound is_trust_domain_char invalid_trust_domain_char IsHostChar
            is_trust_domain_char_iff td third;
    }

validate_trust_domain_complete :
    (scheme : Scheme) (td : Str) → IsTrustDomain scheme td → validate_trust_domain scheme td ≡ ok tt
unfolding validate_trust_domain
validate_trust_domain_complete scheme td h =
    let full : is_empty td ≡ false = elim (Bool-cases (is_empty td)) [
      | inl e ↦ absurd (h.nonempty (is_empty-eq td e))
      | inr e ↦ e
    ] in
    rw (full, test_of_fits scheme td h.fits)
      (check_chars_complete is_trust_domain_char invalid_trust_domain_char IsHostChar
        is_trust_domain_char_iff td h.chars)

-- A character that no host name has.
host-delimiter :
    (d : ℕ) (s : Str)
    → is_delimiter d || d == b'@' || d == b':' ≡ true
    → All IsHostChar s
    → contains_char d s ≡ false
unfolding contains_char
host-delimiter d [] h p = refl
host-delimiter d (c ∷ s) h p = ground (arith, host-delimiter d s h p.1, p.0)

render-delimiter :
    (d : ℕ) (scheme : Scheme) (gs : List Str)
    → d == b'?' || d == b'#' ≡ true
    → All (IsSegment scheme) gs
    → contains_char d (render gs) ≡ false
unfolding contains_char
render-delimiter d scheme [] h p = refl
render-delimiter d scheme (g ∷ gs) h p =
    let e : is_delimiter d ≡ true = ground arith in
    let slash : (b'/' == d) ≡ false = ground arith in
    let ih = render-delimiter d scheme gs h p.1 in
    let here = IsSegment-delimiter d scheme g e p.0 in
    let both = contains_char-append d g (render gs) in ground (arith, slash, ih, here, both)

split_path_sound :
    (rest : Str)
    → (rest ≡ (split_path rest).0 ++ (split_path rest).1)
      × (((split_path rest).1 ≡ []) ⊎ ((s : Str) × ((split_path rest).1 ≡ b'/' ∷ s)))
unfolding split_path
split_path_sound rest = elim (Option-cases (split_once b'/' rest)) [
  | inl n ↦ rw (n, split_path) (sym (append-nil rest), inl refl)
  | inr (p, e) ↦ rw (e, split_path) ((split_once-eq-some b'/' rest e).0, inr (p.1, refl))
]

split_path_complete :
    (td : Str) (gs : List Str)
    → contains_char b'/' td ≡ false
    → split_path (td ++ render gs) ≡ (td, render gs)
unfolding split_path
split_path_complete td [] h =
    ap split_path (append-nil td) ∙ rw (split_path, split_once-none b'/' td h)
split_path_complete td (g ∷ gs) h = rw (split_path, split_once-append b'/' td (g ++ render gs) h)

path_segments :
    (scheme : Scheme) (path : Str)
    → (path ≡ []) ⊎ ((s : Str) × (path ≡ b'/' ∷ s))
    → validate_path scheme path ≡ ok tt
    → (gs : List Str) × (path ≡ render gs) × All (IsSegment scheme) gs
path_segments scheme path (inl e) h = ([], e, tt)
path_segments scheme path (inr (s, e)) h =
    let (gs, q, all) = validate_path_sound scheme s (rw e at h) in (gs, e ∙ q, all)

validate_sound :
    (scheme : Scheme) (td path : Str)
    → validate scheme td path ≡ ok tt
    → IsTrustDomain scheme td × (validate_path scheme path ≡ ok tt)
unfolding validate
validate_sound scheme td path h =
    let (_, h1) = then-eq-ok (ensure (not (contains_char b'@' td)) _) _ h in
    let (_, h2) = then-eq-ok (ensure (not (contains_char b':' td)) _) _ h1 in
    let (domain, h3) = then-eq-ok (validate_trust_domain scheme td) _ h2 in
    (validate_trust_domain_sound scheme td domain, h3)

validate_complete :
    (scheme : Scheme) (td : Str) (gs : List Str)
    → IsTrustDomain scheme td
    → All (IsSegment scheme) gs
    → validate scheme td (render gs) ≡ ok tt
unfolding validate
validate_complete scheme td gs h p =
    rw
      (
        host-delimiter b'@' td refl h.chars,
        host-delimiter b':' td refl h.chars,
        validate_trust_domain_complete scheme td h,
      )
      (validate_path_complete scheme gs p)

parse_rest_sound :
    (input : Str) (scheme : Scheme) (rest : Str) {id : WorkloadIdentifier}
    → input ≡ prefix scheme ++ rest
    → len input ≤ 2048
    → parse_rest input (scheme, rest) ≡ ok id
    → (td : Str) × (gs : List Str) × IsIdentifier input scheme td gs
      × (id ≡ identifier input scheme td)
unfolding parse_rest
parse_rest_sound input scheme rest {id} spelled short h =
    let (_, h1) = then-eq-ok (ensure (not (contains_char b'?' rest)) _) _ h in
    let (_, h2) = then-eq-ok (ensure (not (contains_char b'#' rest)) _) _ h1 in
    let td = (split_path rest).0 in
    let path = (split_path rest).1 in
    let (valid, built) = then-eq-ok (validate scheme td path) _ h2 in
    let (whole, shape) = split_path_sound rest in
    let (domain, tail) = validate_sound scheme td path valid in
    let (gs, e, segments) = path_segments scheme path shape tail in
    (
      td,
      gs,
      record {
        spelled =
            spelled ∙ (ap (λ r. prefix scheme ++ r) whole ∙ ap (λ r. prefix scheme ++ (td ++ r)) e);
        short = short;
        domain = domain;
        path = segments;
      },
      cc (built),
    )

-- An accepted text is an identifier of the grammar, and the result records its parts.
pub parse_sound :
    (input : Str) {id : WorkloadIdentifier}
    → parse input ≡ ok id
    → (scheme : Scheme) × (td : Str) × (gs : List Str) × IsIdentifier input scheme td gs
      × (id ≡ identifier input scheme td)
unfolding parse
parse_sound input {id} h =
    let (first, h1) = then-eq-ok (ensure (leb (len input) max_id_len) _) _ h in
    let ((scheme, rest), found, h2) = >>=-eq-ok (ok_or (find_scheme input) _) _ h1 in
    let some_found : find_scheme input ≡ some (scheme, rest) = ground arith in
    let (td, gs, e, q) =
      parse_rest_sound input scheme rest (find_scheme_sound input some_found) (ground arith) h2 in
    (scheme, td, gs, e, q)

-- An identifier of the grammar is accepted.
pub parse_complete :
    (input : Str) (scheme : Scheme) (td : Str) (gs : List Str)
    → IsIdentifier input scheme td gs
    → parse input ≡ ok (identifier input scheme td)
unfolding parse parse_rest
parse_complete input scheme td gs h =
    let rest = td ++ render gs in
    let fits : leb (len input) max_id_len ≡ true = ground (arith, h.short) in
    let found = ap find_scheme h.spelled ∙ find_scheme_complete scheme rest in
    let slash = host-delimiter b'/' td refl h.domain.chars in
    let query : contains_char b'?' rest ≡ false =
      contains_char-append b'?' td (render gs)
      ∙ rw (host-delimiter b'?' td refl h.domain.chars)
          (render-delimiter b'?' scheme gs refl h.path) in
    let fragment : contains_char b'#' rest ≡ false =
      contains_char-append b'#' td (render gs)
      ∙ rw (host-delimiter b'#' td refl h.domain.chars)
          (render-delimiter b'#' scheme gs refl h.path) in
    rw (
      fits,
      found,
      query,
      fragment,
      split_path_complete td gs slash,
      validate_complete scheme td gs h.domain h.path,
    )

-- A text parses to a value exactly if it is an identifier of the grammar, and the value holds the
-- text, its scheme and the length of its trust domain.
pub parse_iff :
    (input : Str) (id : WorkloadIdentifier)
    → (parse input ≡ ok id) ↔ (
        (scheme : Scheme) × (td : Str) × (gs : List Str) × IsIdentifier input scheme td gs
        × (id ≡ identifier input scheme td))
parse_iff input id = (
  parse_sound input,
  λ (scheme, td, gs, h, e). parse_complete input scheme td gs h ∙ ap ok (sym e),
)
