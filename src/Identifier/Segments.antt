-- ===== src/Identifier/Segments.antt =====
-- The segment checks accept exactly the segments of the grammar.
use wimsey.Common.{
  ℕ, ◌+◌, ◌≡◌, ◌↔◌, ◌≢◌, inl, inr, refl, ap, subst, Bool, true, false, not, ◌||◌, [], ◌∷◌, arith,
  Bool-cases, ok, ltb, ensure, ◌==◌, all, All, then-eq-ok,
}
use wimsey.Text.{
  Str, Bytes, codes, as_bytes, as_bytes_ascii, as_bytes_of_ascii, str_eq, str_eq_iff, ne-str_eq,
  is_empty,
}
use wimsey.Identifier.Validate.{
  Scheme, spiffe, wimse, ParseError, check_chars, check_bytes, check_pchar, check_escape,
  is_spiffe_char, validate_pchar_segment, validate_chars, validate_segment,
}
use wimsey.Identifier.Grammar.{
  IsPlainPchar, IsNormalPchars, done, plain, escape, IsSegment, HasSegmentChars, IsSpiffeChar,
}
use wimsey.Identifier.Classes.{
  is_pchar_byte_iff, is_spiffe_char_iff, check_escape_sound, check_escape_complete, HexValue-ascii,
}

-- A loop over the characters passes exactly if all of them are allowed.
module _ (allowed : ℕ → Bool) (error : ℕ → ParseError) (P : ℕ → Type 0)
    (decides : (c : ℕ) → (allowed c ≡ true) ↔ P c) where
  pub check_chars_sound : (s : Str) → check_chars allowed error s ≡ ok tt → All P s
  unfolding check_chars
  check_chars_sound [] h = tt
  check_chars_sound (c ∷ s) h = elim (Bool-cases (allowed c)) [
    | inl p ↦ ((decides c).0 p, check_chars_sound s (rw p at h))
    | inr p ↦ cc (p, h)
  ]

  pub check_chars_complete : (s : Str) → All P s → check_chars allowed error s ≡ ok tt
  unfolding check_chars
  check_chars_complete [] h = refl
  check_chars_complete (c ∷ s) h = rw ((decides c).1 h.0) (check_chars_complete s h.1)

check_pchar-plain : (segment : Str) (i b : ℕ) → check_pchar segment i b ≡ ok tt → IsPlainPchar b
unfolding check_pchar
check_pchar-plain segment i b h = (is_pchar_byte_iff b).0 (ground arith)

plain-check_pchar : (segment : Str) (i b : ℕ) → IsPlainPchar b → check_pchar segment i b ≡ ok tt
unfolding check_pchar
plain-check_pchar segment i b h = rw ((is_pchar_byte_iff b).1 h)

plain-ne-percent : (b : ℕ) → IsPlainPchar b → (b == b'%') ≡ false
plain-ne-percent b h = ground arith

check_bytes_sound :
    (segment : Str) (i : ℕ) (bs : Bytes) → check_bytes segment i bs ≡ ok tt → IsNormalPchars bs
unfolding check_bytes
check_bytes_sound segment i [] e = done
check_bytes_sound segment i (b ∷ []) e = elim (Bool-cases (b == b'%')) [
  | inl p ↦ cc (rw p at e)
  | inr p ↦ plain (check_pchar-plain segment i b (rw p at e)) done
]
check_bytes_sound segment i (b ∷ h ∷ []) e = elim (Bool-cases (b == b'%')) [
  | inl p ↦ cc (rw p at e)
  | inr p ↦
      let (first, rest) = then-eq-ok (check_pchar segment i b) _ (rw p at e) in
      plain (check_pchar-plain segment i b first) (check_bytes_sound segment (i + 1) (h ∷ []) rest)
]
check_bytes_sound segment i (b ∷ h ∷ l ∷ bs) e = elim (Bool-cases (b == b'%')) [
  | inl p ↦
      let (first, rest) = then-eq-ok (check_escape h l) _ (rw p at e) in
      let (v, w, hv, lw, out) = check_escape_sound h l first in
      let q : b ≡ b'%' = ground arith in
      rw q (escape hv lw out (check_bytes_sound segment (i + 3) bs rest))
  | inr p ↦
      let (first, rest) = then-eq-ok (check_pchar segment i b) _ (rw p at e) in
      plain (check_pchar-plain segment i b first)
        (check_bytes_sound segment (i + 1) (h ∷ l ∷ bs) rest)
]

check_bytes_complete :
    (segment : Str) (i : ℕ) (bs : Bytes) → IsNormalPchars bs → check_bytes segment i bs ≡ ok tt
unfolding check_bytes
check_bytes_complete segment i _ done = refl
check_bytes_complete segment i _ (plain {c} {s = []} p done) =
    rw (plain-ne-percent c p) (plain-check_pchar segment i c p)
check_bytes_complete segment i _ (plain {c} {s = h ∷ []} p r) =
    rw (plain-ne-percent c p, plain-check_pchar segment i c p)
      (check_bytes_complete segment (i + 1) (h ∷ []) r)
check_bytes_complete segment i _ (plain {c} {s = h ∷ l ∷ s} p r) =
    rw (plain-ne-percent c p, plain-check_pchar segment i c p)
      (check_bytes_complete segment (i + 1) (h ∷ l ∷ s) r)
check_bytes_complete segment i _ (escape {h} {l} {s = s} hv lw out r) =
    rw (check_escape_complete hv lw out) (check_bytes_complete segment (i + 3) s r)

-- Both kinds of element are ASCII.
pub IsNormalPchars-ascii : {s : Str} → IsNormalPchars s → all (λ b. ltb b 0x80) s ≡ true
IsNormalPchars-ascii done = refl
IsNormalPchars-ascii (plain {c} p r) =
    let small : ltb c 0x80 ≡ true = ground arith in rw small (IsNormalPchars-ascii r)
IsNormalPchars-ascii (escape hv lw out r) =
    rw (HexValue-ascii hv, HexValue-ascii lw) (IsNormalPchars-ascii r)

pub validate_pchar_segment_sound : (s : Str) → validate_pchar_segment s ≡ ok tt → IsNormalPchars s
unfolding validate_pchar_segment
validate_pchar_segment_sound s h =
    let normal = check_bytes_sound s 0 (as_bytes s) h in
    subst IsNormalPchars (as_bytes_ascii s (IsNormalPchars-ascii normal)) normal

pub validate_pchar_segment_complete :
    (s : Str) → IsNormalPchars s → validate_pchar_segment s ≡ ok tt
unfolding validate_pchar_segment
validate_pchar_segment_complete s h =
    rw (as_bytes_of_ascii s (IsNormalPchars-ascii h)) (check_bytes_complete s 0 s h)

pub validate_chars_sound :
    (scheme : Scheme) (s : Str) → validate_chars scheme s ≡ ok tt → HasSegmentChars scheme s
unfolding validate_chars
validate_chars_sound spiffe s h =
    check_chars_sound is_spiffe_char _ IsSpiffeChar is_spiffe_char_iff s h
validate_chars_sound wimse s h = validate_pchar_segment_sound s h

pub validate_chars_complete :
    (scheme : Scheme) (s : Str) → HasSegmentChars scheme s → validate_chars scheme s ≡ ok tt
unfolding validate_chars
validate_chars_complete spiffe s h =
    check_chars_complete is_spiffe_char _ IsSpiffeChar is_spiffe_char_iff s h
validate_chars_complete wimse s h = validate_pchar_segment_complete s h

is_empty-false : (s : Str) → s ≢ [] → is_empty s ≡ false
is_empty-false [] h = absurd (h refl)
is_empty-false (c ∷ s) h = refl

pub validate_segment_sound :
    (scheme : Scheme) (s : Str) → validate_segment scheme s ≡ ok tt → IsSegment scheme s
unfolding validate_segment
validate_segment_sound scheme s h =
    let (first, rest) = then-eq-ok (ensure (not (is_empty s)) _) _ h in
    let (second, third) =
      then-eq-ok (ensure (not (str_eq s (codes ".") || str_eq s (codes ".."))) _) _ rest in
    record {
      nonempty = λ e. cc (ap is_empty e, first);
      not_dot = λ e. cc (second, (str_eq_iff s (codes ".")).1 e);
      not_dot_dot = λ e. ground (arith, second, (str_eq_iff s (codes "..")).1 e);
      chars = validate_chars_sound scheme s third;
    }

pub validate_segment_complete :
    (scheme : Scheme) (s : Str) → IsSegment scheme s → validate_segment scheme s ≡ ok tt
unfolding validate_segment
validate_segment_complete scheme s h =
    rw
      (
        is_empty-false s h.nonempty,
        ne-str_eq s (codes ".") h.not_dot,
        ne-str_eq s (codes "..") h.not_dot_dot,
      )
      (validate_chars_complete scheme s h.chars)
