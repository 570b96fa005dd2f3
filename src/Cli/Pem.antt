-- ===== src/Cli/Pem.antt =====
-- `read_certificate` reads back what `pem` writes.
use wimsey.Common.{
  ℕ, zero, suc, ◌≤◌, ◌≡◌, refl, ap, sym, ◌∙◌, Bool, true, false, not, ◌||◌, none, some, List, [],
  ◌∷◌, ◌++◌, ok, arith, take, drop, length, Bool-cases, inl, inr, Bool-cases, inl, inr, take-drop,
  length-drop, all, all-append, &&-true, ◌==◌, within, if◌then◌else◌,
}
use wimsey.Text.{
  Str, Bytes, codes, strip_prefix, strip_prefix-append, is_whitespace, split_whitespace, push_word,
  ends_here,
}
use wimsey.Jose.Primitives.{Base64}
use wimsey.Cli.Certificates.{
  lines_in, begin_line, end_line, pem, find_split, concat, decode_pem, decode_certificate,
}

-- The characters of the standard alphabet.
abbrev pub is_standard_char : ℕ → Bool
is_standard_char c =
    within b'A' b'Z' c
    || within b'a' b'z' c
    || within b'0' b'9' c
    || c == b'+'
    || c == b'/'
    || c == b'='

-- What `STANDARD` writes is in its alphabet, and is read back.
pub record IsStandard (b : Base64) : Type 0 where
  pub decode-encode : (x : Bytes) → b.decode (b.encode x) ≡ some x
  pub alphabet : (x : Bytes) → all is_standard_char (b.encode x) ≡ true

strip_prefix-other : (c d : ℕ) (s p : Str) → (c == d) ≡ false → strip_prefix (c ∷ s) (d ∷ p) ≡ none
unfolding strip_prefix
strip_prefix-other c d s p e = rw e refl

find_split-append :
    (d : ℕ) (p s rest : Str)
    → all (λ c. not (c == d)) s ≡ true
    → find_split (d ∷ p) (s ++ (d ∷ (p ++ rest))) ≡ some (s, rest)
unfolding find_split
find_split-append d p [] rest h = rw (find_split, strip_prefix-append (d ∷ p) rest) refl
find_split-append d p (c ∷ s) rest h =
    let e : (c == d) ≡ false = ground arith in
    rw
      (
        find_split,
        strip_prefix-other c d (s ++ (d ∷ (p ++ rest))) p e,
        find_split-append d p s rest (ground arith),
      )
      refl

-- The characters that are not white space.
abbrev solid : Str → Str
solid [] = []
solid (c ∷ s) = let rest = solid s in if is_whitespace c then rest else c ∷ rest

concat-push_word : (b : Bool) (c : ℕ) (ws : List Str) → concat (push_word b c ws) ≡ c ∷ concat ws
concat-push_word true c ws = refl
concat-push_word false c [] = refl
concat-push_word false c (w ∷ ws) = refl

concat-split_whitespace : (s : Str) → concat (split_whitespace s) ≡ solid s
unfolding split_whitespace
concat-split_whitespace [] = refl
concat-split_whitespace (c ∷ s) = elim (Bool-cases (is_whitespace c)) [
  | inl e ↦ rw e (concat-split_whitespace s)
  | inr e ↦
      rw (e, concat-push_word (ends_here s) c (split_whitespace s), concat-split_whitespace s) refl
]

solid-append : (s t : Str) → solid (s ++ t) ≡ solid s ++ solid t
solid-append [] t = refl
solid-append (c ∷ s) t = elim (Bool-cases (is_whitespace c)) [
  | inl e ↦ rw (e, solid-append s t) refl
  | inr e ↦ rw (e, solid-append s t) refl
]

solid-all : (s : Str) → all is_standard_char s ≡ true → solid s ≡ s
unfolding is_whitespace
solid-all [] h = refl
solid-all (c ∷ s) h =
    let e : is_whitespace c ≡ false = ground arith in rw (e, solid-all s (ground arith)) refl

-- The characters of the alphabet, and line ends.
abbrev pub is_line_char : ℕ → Bool
is_line_char c = c == b'\n' || is_standard_char c

standard-line : (s : Str) → all is_standard_char s ≡ true → all is_line_char s ≡ true
standard-line [] h = refl
standard-line (c ∷ s) h = ground (arith, standard-line s)

line-dash : (s : Str) → all is_line_char s ≡ true → all (λ c. not (c == b'-')) s ≡ true
line-dash [] h = refl
line-dash (c ∷ s) h = let more = line-dash s (ground arith) in ground arith

all-take-drop :
    (n : ℕ) (s : Str)
    → all is_standard_char s ≡ true
    → (all is_standard_char (take n s) ≡ true) × (all is_standard_char (drop n s) ≡ true)
all-take-drop n s h =
    let split =
      sym (all-append is_standard_char (take n s) (drop n s))
      ∙ (ap (all is_standard_char) (take-drop n s) ∙ h) in
    &&-true _ _ split

-- The lines are of the alphabet and line ends, and hold the text.
pub lines_in-solid :
    (fuel : ℕ) (s : Str)
    → length s ≤ fuel
    → all is_standard_char s ≡ true
    → (all is_line_char (lines_in fuel s) ≡ true) × (solid (lines_in fuel s) ≡ s)
unfolding lines_in is_whitespace
lines_in-solid zero [] small h = (refl, refl)
lines_in-solid zero (c ∷ s) small h = absurd (omega (arith, small))
lines_in-solid (suc fuel) [] small h = (refl, refl)
lines_in-solid (suc fuel) (c ∷ s) small h =
    let (front, back) = all-take-drop 64 (c ∷ s) h in
    let (chars, kept) =
      lines_in-solid fuel (drop 64 (c ∷ s)) (omega (arith, small, length-drop 64 (c ∷ s))) back in
    (
      all-append is_line_char (take 64 (c ∷ s)) (b'\n' ∷ lines_in fuel (drop 64 (c ∷ s)))
          ∙ rw (standard-line (take 64 (c ∷ s)) front, chars) refl,
      solid-append (take 64 (c ∷ s)) (b'\n' ∷ lines_in fuel (drop 64 (c ∷ s)))
          ∙ (ap (λ r. r ++ solid (lines_in fuel (drop 64 (c ∷ s))))
                (solid-all (take 64 (c ∷ s)) front)
              ∙ (ap (λ r. take 64 (c ∷ s) ++ r) kept ∙ take-drop 64 (c ∷ s))),
    )

-- Under the laws of the engine, `read_certificate` reads the text that `pem` writes for a certificate back to its DER.
pub decode_certificate-pem :
    (standard : Base64)
    → IsStandard standard
    → (bytes der : Bytes)
    → decode_certificate standard bytes (some (pem standard (codes "CERTIFICATE") der)) ≡ ok der
unfolding decode_pem pem is_whitespace
decode_certificate-pem standard laws bytes der =
    let body = standard.encode der in
    let lines = lines_in (length body) body in
    let (chars, kept) = lines_in-solid (length body) body (omega arith) (laws.alphabet der) in
    let begin =
      find_split-append b'-' (drop 1 (begin_line (codes "CERTIFICATE"))) []
        (b'\n' ∷ (lines ++ (end_line (codes "CERTIFICATE") ++ codes "\n"))) refl in
    let end =
      find_split-append b'-' (drop 1 (end_line (codes "CERTIFICATE"))) (b'\n' ∷ lines) (codes "\n")
        (line-dash (b'\n' ∷ lines) chars) in
    let text : concat (split_whitespace (b'\n' ∷ lines)) ≡ body =
      concat-split_whitespace (b'\n' ∷ lines) ∙ kept in
    rw (begin, end, text, laws.decode-encode der) refl
