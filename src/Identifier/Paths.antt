-- ===== src/Identifier/Paths.antt =====
-- The path check accepts exactly the renderings of lists of segments.
use wimsey.Common.{
  ℕ, ◌≡◌, refl, sym, ap, ◌∙◌, Bool, true, false, ◌||◌, List, [], ◌∷◌, ◌++◌, append-nil, arith,
  Bool-cases, inl, inr, ok, ◌==◌, All, All-map, then-eq-ok,
}
use wimsey.Text.{Str, split, split-whole, split-append, contains_char, cons_head}
use wimsey.Identifier.Validate.{
  Scheme, spiffe, wimse, validate_segment, validate_segments, validate_path,
}
use wimsey.Identifier.Grammar.{
  IsPlainPchar, IsSpiffeChar, IsNormalPchars, done, plain, escape, IsSegment, render,
}
use wimsey.Identifier.Segments.{validate_segment_sound, validate_segment_complete}
use wimsey.Identifier.Classes.{HexValue-alnum}

-- None of the three delimiters that the parser looks for stands in a segment.
abbrev pub is_delimiter : ℕ → Bool
is_delimiter d = d == b'/' || d == b'?' || d == b'#'

plain-delimiter : (d c : ℕ) → is_delimiter d ≡ true → IsPlainPchar c → (c == d) ≡ false
plain-delimiter d c h p = ground arith

IsNormalPchars-delimiter :
    (d : ℕ) {s : Str} → is_delimiter d ≡ true → IsNormalPchars s → contains_char d s ≡ false
unfolding contains_char
IsNormalPchars-delimiter d h done = refl
IsNormalPchars-delimiter d h (plain {c} p r) =
    rw (plain-delimiter d c h p) (IsNormalPchars-delimiter d h r)
IsNormalPchars-delimiter d h (escape {h = x} {l = y} hv lw out r) =
    let first : (b'%' == d) ≡ false = ground arith in
    let ih = IsNormalPchars-delimiter d h r in
    ground (arith, first, ih, HexValue-alnum hv, HexValue-alnum lw)

spiffe-delimiter :
    (d : ℕ) (s : Str) → is_delimiter d ≡ true → All IsSpiffeChar s → contains_char d s ≡ false
unfolding contains_char
spiffe-delimiter d [] h p = refl
spiffe-delimiter d (c ∷ s) h p = ground (arith, spiffe-delimiter d s h p.1, p.0)

pub IsSegment-delimiter :
    (d : ℕ) (scheme : Scheme) (s : Str)
    → is_delimiter d ≡ true
    → IsSegment scheme s
    → contains_char d s ≡ false
IsSegment-delimiter d spiffe s h g = spiffe-delimiter d s h g.chars
IsSegment-delimiter d wimse s h g = IsNormalPchars-delimiter d h g.chars

-- A list of parts without the `/` in front of the first.
abbrev joined : List Str → Str
joined [] = []
joined (p ∷ ps) = p ++ render ps

joined-cons_head : (c : ℕ) (ps : List Str) → joined (cons_head c ps) ≡ c ∷ joined ps
joined-cons_head c [] = refl
joined-cons_head c (p ∷ ps) = refl

split-parts : (s : Str) → (p : Str) × (ps : List Str) × (split b'/' s ≡ p ∷ ps)
unfolding split
split-parts [] = ([], [], refl)
split-parts (c ∷ s) =
    let (p, ps, e) = split-parts s in
    elim (Bool-cases (c == b'/')) [
      | inl slash ↦ ([], split b'/' s, rw slash)
      | inr other ↦ (c ∷ p, ps, rw (other, e))
    ]

joined-split : (s : Str) → joined (split b'/' s) ≡ s
unfolding split
joined-split [] = refl
joined-split (c ∷ s) = elim (Bool-cases (c == b'/')) [
  | inl slash ↦
      let (p, ps, e) = split-parts s in
      let q : c ≡ b'/' = ground arith in
      let ih : p ++ render ps ≡ s = (rw e at (joined-split s)) in rw slash (rw (e, ih, q))
  | inr other ↦ rw (other, joined-cons_head c (split b'/' s)) (ap (λ r. c ∷ r) (joined-split s))
]

-- Splitting what was rendered gives the segments back.
split-render :
    (g : Str) (gs : List Str)
    → contains_char b'/' g ≡ false
    → All (λ s. contains_char b'/' s ≡ false) gs
    → split b'/' (g ++ render gs) ≡ g ∷ gs
split-render g [] h hs = rw append-nil (split-whole b'/' g h)
split-render g (x ∷ xs) h hs =
    split-append b'/' g (x ++ render xs) h ∙ ap (λ r. g ∷ r) (split-render x xs hs.0 hs.1)

validate_segments_sound :
    (scheme : Scheme) (gs : List Str)
    → validate_segments scheme gs ≡ ok tt
    → All (IsSegment scheme) gs
unfolding validate_segments
validate_segments_sound scheme [] h = tt
validate_segments_sound scheme (g ∷ gs) h =
    let (first, rest) = then-eq-ok (validate_segment scheme g) _ h in
    (validate_segment_sound scheme g first, validate_segments_sound scheme gs rest)

validate_segments_complete :
    (scheme : Scheme) (gs : List Str)
    → All (IsSegment scheme) gs
    → validate_segments scheme gs ≡ ok tt
unfolding validate_segments
validate_segments_complete scheme [] h = refl
validate_segments_complete scheme (g ∷ gs) h =
    rw (validate_segment_complete scheme g h.0) (validate_segments_complete scheme gs h.1)

pub validate_path_sound :
    (scheme : Scheme) (s : Str)
    → validate_path scheme (b'/' ∷ s) ≡ ok tt
    → (gs : List Str) × (b'/' ∷ s ≡ render gs) × All (IsSegment scheme) gs
unfolding validate_path split
validate_path_sound scheme s h =
    let (p, ps, e) = split-parts s in
    (
      split b'/' s,
      rw e (ap (λ r. b'/' ∷ r) (sym (rw e at (joined-split s)))),
      validate_segments_sound scheme (split b'/' s) h,
    )

pub validate_path_complete :
    (scheme : Scheme) (gs : List Str)
    → All (IsSegment scheme) gs
    → validate_path scheme (render gs) ≡ ok tt
unfolding validate_path split
validate_path_complete scheme [] h = refl
validate_path_complete scheme (g ∷ gs) h =
    let clear = λ (s : Str) (x : IsSegment scheme s). IsSegment-delimiter b'/' scheme s refl x in
    rw (split-render g gs (clear g h.0) (All-map (IsSegment scheme) _ clear gs h.1))
      (validate_segments_complete scheme (g ∷ gs) h)
