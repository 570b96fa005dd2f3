-- ===== src/HttpSig/Strings.antt =====
-- RFC 8941 strings: what `sf_string` writes, `parse_sf_string` reads.
use wimsey.Common.{
  ℕ, ◌≡◌, inl, inr, refl, ◌∙◌, true, false, ◌||◌, [], ◌∷◌, ok, ◌>>=◌, arith, Bool-cases, ◌==◌,
}
use wimsey.Text.{Str, codes, strip_prefix, strip_suffix-append}
use wimsey.HttpSig.Params.{escape, sf_string}
use wimsey.HttpSig.Field.{unescape, parse_sf_string}

-- A character that is no backslash stands for itself.
unescape-plain :
    (c : ℕ) (s : Str)
    → (c == b'\\') ≡ false
    → unescape (c ∷ s) ≡ (unescape s >>= λ rest. ok (c ∷ rest))
unfolding unescape
unescape-plain c [] h = rw h refl
unescape-plain c (d ∷ s) h = rw h refl

-- A pair stands for its second character.
unescape-pair :
    (d : ℕ) (s : Str)
    → (d == b'\\' || d == b'"') ≡ true
    → unescape (b'\\' ∷ d ∷ s) ≡ (unescape s >>= λ rest. ok (d ∷ rest))
unfolding unescape
unescape-pair d s h = rw h refl

unescape-escape : (s : Str) → unescape (escape s) ≡ ok s
unfolding escape
unescape-escape [] = unfold unescape in refl
unescape-escape (c ∷ s) = elim (Bool-cases (c == b'\\' || c == b'"')) [
  | inl special ↦ rw special (unescape-pair c (escape s) special ∙ rw (unescape-escape s) refl)
  | inr plain ↦
      let other : (c == b'\\') ≡ false = ground arith in
      rw plain (unescape-plain c (escape s) other ∙ rw (unescape-escape s) refl)
]

-- Every text, whatever its characters, is read back from the string that is written for it.
pub parse_sf_string-sf_string : (value : Str) → parse_sf_string (sf_string value) ≡ ok value
unfolding parse_sf_string sf_string strip_prefix
parse_sf_string-sf_string value =
    rw (strip_suffix-append (escape value) (codes "\"")) (unescape-escape value)
