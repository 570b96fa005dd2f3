-- ===== src/Identifier/Normal.antt =====
-- RFC 3986 Section 6.2.2 normalization, written apart from the parser, changes no accepted
-- identifier: each has exactly one spelling.
use wimsey.Common.{
  ℕ, ◌+◌, ◌-◌, ◌*◌, ◌≡◌, refl, sym, ap, ◌∙◌, Bool, true, false, ◌&&◌, ◌||◌, List, [], ◌∷◌, ◌++◌,
  arith, Bool-cases, inl, inr, ok, ◌==◌, if◌then◌else◌, within, All,
}
use wimsey.Text.{Str, to_ascii_lowercase, lower}
use wimsey.Identifier.Validate.{Scheme, spiffe, wimse, is_unreserved_byte}
use wimsey.Identifier.{WorkloadIdentifier, parse, trust_domain, path}
use wimsey.Identifier.Grammar.{
  IsHostChar, IsSpiffeChar, IsUnreserved, HexValue, digit, letter, IsNormalPchars, done, plain,
  escape, IsSegment, render,
}
use wimsey.Identifier.Classes.{is_unreserved_byte_iff}
use wimsey.Identifier.Parts.{parts-parse}

-- A hexadecimal digit of either case, its value, and its uppercase form.
abbrev is_hex : ℕ → Bool
is_hex c = within b'0' b'9' c || within b'A' b'F' c || within b'a' b'f' c

abbrev hex_value : ℕ → ℕ
hex_value c = if within b'0' b'9' c then c - b'0' else if within b'A' b'F' c then c - 55 else c - 87

abbrev upper : ℕ → ℕ
upper c = if within b'a' b'z' c then c - 32 else c

-- Case normalization of escapes (6.2.2.1), and decoding of those of unreserved characters (6.2.2.2).
pub normalize : Str → Str
normalize [] = []
normalize (c ∷ []) = c ∷ []
normalize (c ∷ h ∷ []) = c ∷ normalize (h ∷ [])
normalize (c ∷ h ∷ l ∷ s) =
    let after = normalize s in
    let next = normalize (h ∷ l ∷ s) in
    let value = hex_value h * 16 + hex_value l in
    if c == b'%' && (is_hex h && is_hex l)
    then (if is_unreserved_byte value then value ∷ after else b'%' ∷ upper h ∷ upper l ∷ after)
    else c ∷ next

normalize-other : (c : ℕ) (s : Str) → (c == b'%') ≡ false → normalize (c ∷ s) ≡ c ∷ normalize s
unfolding normalize
normalize-other c [] h = refl
normalize-other c (x ∷ []) h = refl
normalize-other c (x ∷ y ∷ s) h = rw h

HexValue-hex : {c v : ℕ} → HexValue c v → (is_hex c ≡ true) × (hex_value c ≡ v) × (upper c ≡ c)
HexValue-hex (digit v e h) = (ground arith, ground arith, ground arith)
HexValue-hex (letter v e h) = (ground arith, ground arith, ground arith)

normalize-escape :
    {h l v w : ℕ} (s : Str)
    → HexValue h v
    → HexValue l w
    → ¬ IsUnreserved (v * 16 + w)
    → normalize (b'%' ∷ h ∷ l ∷ s) ≡ b'%' ∷ h ∷ l ∷ normalize s
unfolding normalize
normalize-escape {h} {l} {v} {w} s hv lw out =
    let (hh, hval, hup) = HexValue-hex hv in
    let (lh, lval, lup) = HexValue-hex lw in
    let reserved : is_unreserved_byte (v * 16 + w) ≡ false =
      elim (Bool-cases (is_unreserved_byte (v * 16 + w))) [
        | inl p ↦ absurd (out ((is_unreserved_byte_iff (v * 16 + w)).0 p))
        | inr p ↦ p
      ] in
    rw (hh, lh, hval, lval, reserved, hup, lup)

normalize-pchars : {s : Str} (t : Str) → IsNormalPchars s → normalize (s ++ t) ≡ s ++ normalize t
normalize-pchars t done = refl
normalize-pchars t (plain {c} {s} p r) =
    normalize-other c (s ++ t) (ground arith) ∙ ap (λ x. c ∷ x) (normalize-pchars t r)
normalize-pchars t (escape {h} {l} {s = s} hv lw out r) =
    normalize-escape (s ++ t) hv lw out ∙ ap (λ x. b'%' ∷ h ∷ l ∷ x) (normalize-pchars t r)

normalize-spiffe : (s t : Str) → All IsSpiffeChar s → normalize (s ++ t) ≡ s ++ normalize t
normalize-spiffe [] t h = refl
normalize-spiffe (c ∷ s) t h =
    normalize-other c (s ++ t) (let p : IsSpiffeChar c = h.0 in ground arith)
    ∙ ap (λ x. c ∷ x) (normalize-spiffe s t h.1)

normalize-segment :
    (scheme : Scheme) (s t : Str) → IsSegment scheme s → normalize (s ++ t) ≡ s ++ normalize t
normalize-segment spiffe s t h = normalize-spiffe s t h.chars
normalize-segment wimse s t h = normalize-pchars t h.chars

normalize-render :
    (scheme : Scheme) (gs : List Str)
    → All (IsSegment scheme) gs
    → normalize (render gs) ≡ render gs
normalize-render scheme [] h = unfold normalize in refl
normalize-render scheme (g ∷ gs) h =
    normalize-other b'/' (g ++ render gs) refl
    ∙ (ap (λ x. b'/' ∷ x) (normalize-segment scheme g (render gs) h.0)
        ∙ ap (λ x. b'/' ∷ (g ++ x)) (normalize-render scheme gs h.1))

lowercase-host : (s : Str) → All IsHostChar s → to_ascii_lowercase s ≡ s
unfolding to_ascii_lowercase
lowercase-host [] h = refl
lowercase-host (c ∷ s) h =
    let e : lower c ≡ c = (let p : IsHostChar c = h.0 in ground arith) in
    cc (e, lowercase-host s h.1)

-- Lowering the case of the trust domain and normalizing the path leave both as they are in an
-- accepted identifier.
pub normalize-parse :
    (input : Str) {id : WorkloadIdentifier}
    → parse input ≡ ok id
    → (to_ascii_lowercase (trust_domain id) ≡ trust_domain id) × (normalize (path id) ≡ path id)
normalize-parse input {id} p =
    let (whole, start, domain, (gs, e, segments)) = parts-parse input p in
    (lowercase-host (trust_domain id) domain.chars, rw e (normalize-render id.scheme gs segments))

-- Two accepted texts with one scheme, and with trust domains and paths that are equal after
-- normalization, are the same text.
pub parse-unique_spelling :
    (a b : Str) {x y : WorkloadIdentifier}
    → parse a ≡ ok x
    → parse b ≡ ok y
    → x.scheme ≡ y.scheme
    → to_ascii_lowercase (trust_domain x) ≡ to_ascii_lowercase (trust_domain y)
    → normalize (path x) ≡ normalize (path y)
    → a ≡ b
parse-unique_spelling a b {x} {y} p q scheme domain tail =
    let (xd, xp) = normalize-parse a p in
    let (yd, yp) = normalize-parse b q in
    let same_domain : trust_domain x ≡ trust_domain y = sym xd ∙ (domain ∙ yd) in
    let same_path : path x ≡ path y = sym xp ∙ (tail ∙ yp) in
    sym (parts-parse a p).0 ∙ (cc (scheme, same_domain, same_path) ∙ (parts-parse b q).0)
