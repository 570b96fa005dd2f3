-- ===== src/Identifier/Parts.antt =====
-- The parts of a parsed identifier: `as_str`, `trust_domain`, `path` and `origin`.
use wimsey.Common.{
  ◌≡◌, ◌≤◌, refl, sym, ap, ◌∙◌, List, [], ◌++◌, append-nil, append_assoc, arith, ok, All,
}
use wimsey.Text.{Str, len, len-append, slice_from-len, slice_to-len}
use wimsey.Identifier.Validate.{Scheme}
use wimsey.Identifier.{WorkloadIdentifier, prefix, parse, trust_domain, path, origin}
use wimsey.Identifier.Grammar.{IsIdentifier, IsTrustDomain, IsSegment, render, identifier}
use wimsey.Identifier.Parser.{parse_sound, parse_complete}

module _ {input : Str} {scheme : Scheme} {td : Str} {gs : List Str}
    (h : IsIdentifier input scheme td gs) where
  pub trust_domain-identifier : trust_domain (identifier input scheme td) ≡ td
  unfolding trust_domain
  trust_domain-identifier =
      rw (h.spelled, slice_from-len (prefix scheme) (td ++ render gs), slice_to-len td (render gs))

  pub path-identifier : path (identifier input scheme td) ≡ render gs
  unfolding path
  path-identifier =
      let e : prefix scheme ++ (td ++ render gs) ≡ (prefix scheme ++ td) ++ render gs =
        sym (append_assoc (prefix scheme) td (render gs)) in
      rw (
        h.spelled,
        e,
        ← (len-append (prefix scheme) td),
        slice_from-len (prefix scheme ++ td) (render gs),
      )

  origin-identifier : origin (identifier input scheme td) ≡ prefix scheme ++ td
  unfolding origin
  origin-identifier =
      let e : prefix scheme ++ (td ++ render gs) ≡ (prefix scheme ++ td) ++ render gs =
        sym (append_assoc (prefix scheme) td (render gs)) in
      rw (
        h.spelled,
        e,
        ← (len-append (prefix scheme) td),
        slice_to-len (prefix scheme ++ td) (render gs),
      )

-- The scheme's prefix, the trust domain and the path of a parsed identifier are the pieces of its
-- text, in that order, and its origin is the first two; the trust domain and the segments of the
-- path are of the grammar.
pub parts-parse :
    (input : Str) {id : WorkloadIdentifier}
    → parse input ≡ ok id
    → (prefix id.scheme ++ (trust_domain id ++ path id) ≡ input)
      × (origin id ++ path id ≡ input)
      × IsTrustDomain id.scheme (trust_domain id)
      × ((gs : List Str) × (path id ≡ render gs) × All (IsSegment id.scheme) gs)
parts-parse input {id} p =
    let (scheme, td, gs, h, e) = parse_sound input p in
    rw (e, trust_domain-identifier h, path-identifier h, origin-identifier h)
      (
        sym h.spelled,
        append_assoc (prefix scheme) td (render gs) ∙ sym h.spelled,
        h.domain,
        (gs, refl, h.path),
      )

-- The origin of a parsed identifier is itself an identifier: of the same scheme and trust domain,
-- and without a path.
pub parse-origin :
    (input : Str) {id : WorkloadIdentifier}
    → parse input ≡ ok id
    → (o : WorkloadIdentifier) × (parse (origin id) ≡ ok o)
      × (o.scheme ≡ id.scheme)
      × (trust_domain o ≡ trust_domain id)
      × (path o ≡ [])
      × (origin o ≡ origin id)
parse-origin input {id} p =
    let (scheme, td, gs, h, e) = parse_sound input p in
    let start = prefix scheme ++ td in
    let shorter : len start ≤ 2048 = omega (
      arith,
      h.short,
      ap len h.spelled,
      len-append (prefix scheme) (td ++ render gs),
      len-append td (render gs),
      len-append (prefix scheme) td,
    ) in
    let g : IsIdentifier start scheme td [] = record {
      spelled = ap (λ r. prefix scheme ++ r) (sym (append-nil td));
      short = shorter;
      domain = h.domain;
      path = tt;
    } in
    let accepted = parse_complete start scheme td [] g in
    rw (e, origin-identifier h, trust_domain-identifier h)
      (
        identifier start scheme td,
        accepted,
        refl,
        trust_domain-identifier g,
        path-identifier g,
        origin-identifier g,
      )

-- Parsing what a parsed identifier displays gives the same value.
pub parse-display :
    (input : Str) {id : WorkloadIdentifier} → parse input ≡ ok id → parse id.uri ≡ ok id
parse-display input {id} p =
    let (scheme, td, gs, h, e) = parse_sound input p in
    ap (λ (i : WorkloadIdentifier). parse i.uri) e ∙ p

pub parse-uri : (input : Str) {id : WorkloadIdentifier} → parse input ≡ ok id → id.uri ≡ input
parse-uri input {id} p =
    let (scheme, td, gs, h, e) = parse_sound input p in
    sym (ap (λ (i : WorkloadIdentifier). i.uri) (sym e))
