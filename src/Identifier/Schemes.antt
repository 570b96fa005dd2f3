-- ===== src/Identifier/Schemes.antt =====
-- The two schemes compared: every `spiffe` path is also a `wimse` path.
use wimsey.Common.{◌≡◌, refl, ap, sym, ◌∙◌, List, [], ◌∷◌, ◌++◌, arith, ok, All, All-map}
use wimsey.Text.{Str, len, len-append}
use wimsey.Identifier.Validate.{Scheme, spiffe, wimse}
use wimsey.Identifier.{WorkloadIdentifier, prefix, parse, trust_domain, path}
use wimsey.Identifier.Grammar.{
  IsSpiffeChar, IsNormalPchars, done, plain, IsSegment, IsIdentifier, render, identifier,
}
use wimsey.Identifier.Parser.{parse_complete, parse_sound}
use wimsey.Identifier.Parts.{trust_domain-identifier, path-identifier}

pchars_of_spiffe : (s : Str) → All IsSpiffeChar s → IsNormalPchars s
pchars_of_spiffe [] h = done
pchars_of_spiffe (c ∷ s) h =
    plain (let p : IsSpiffeChar c = h.0 in ground arith) (pchars_of_spiffe s h.1)

segment_of_spiffe : (s : Str) → IsSegment spiffe s → IsSegment wimse s
segment_of_spiffe s h = record {
  nonempty = h.nonempty;
  not_dot = h.not_dot;
  not_dot_dot = h.not_dot_dot;
  chars = pchars_of_spiffe s h.chars;
}

len-prefix : (len (prefix spiffe) ≡ 9) × (len (prefix wimse) ≡ 8)
unfolding len
len-prefix = (refl, refl)

-- The grammar of the same rest under the other scheme.
rescheme :
    (rest : Str) (scheme : Scheme) (td : Str) (gs : List Str)
    → IsIdentifier (prefix spiffe ++ rest) scheme td gs
    → (scheme ≡ spiffe) × IsIdentifier (prefix wimse ++ rest) wimse td gs
rescheme rest wimse td gs h = absurd (let e = h.spelled in ground arith)
rescheme rest spiffe td gs h =
    let e : rest ≡ td ++ render gs = (let s = h.spelled in cc) in
    (
      refl,
      record {
        spelled = ap (λ r. prefix wimse ++ r) e;
        short = omega (
          arith,
          h.short,
          len-append (prefix spiffe) rest,
          len-append (prefix wimse) rest,
          len-prefix,
        );
        domain = record { nonempty = h.domain.nonempty; fits = tt; chars = h.domain.chars };
        path = All-map (IsSegment spiffe) (IsSegment wimse) segment_of_spiffe gs h.path;
      },
    )

-- Where `spiffe://` and a rest is accepted, so is `wimse://` and the same rest, with the same trust
-- domain and path.
pub parse-rescheme :
    (rest : Str) {id : WorkloadIdentifier}
    → parse (prefix spiffe ++ rest) ≡ ok id
    → (other : WorkloadIdentifier) × (parse (prefix wimse ++ rest) ≡ ok other)
      × (trust_domain other ≡ trust_domain id)
      × (path other ≡ path id)
parse-rescheme rest {id} p =
    let (scheme, td, gs, h, e) = parse_sound (prefix spiffe ++ rest) p in
    let (_, g) = rescheme rest scheme td gs h in
    (
      identifier (prefix wimse ++ rest) wimse td,
      parse_complete (prefix wimse ++ rest) wimse td gs g,
      trust_domain-identifier g ∙ sym (ap trust_domain e ∙ trust_domain-identifier h),
      path-identifier g ∙ sym (ap path e ∙ path-identifier h),
    )
