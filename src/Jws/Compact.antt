-- ===== src/Jws/Compact.antt =====
-- The three parts of a compact token: `token.split('.')` with exactly three results, and the
-- `format!` calls that put them together.
use wimsey.Common.{
  ℕ, append_assoc, ◌≡◌, ◌↔◌, inl, inr, refl, true, all, ◌==◌, sym, ap, subst, ◌∙◌, false, Option,
  none, some, List, [], ◌∷◌, ◌++◌, Option-cases, arith,
}
use wimsey.Jose.Primitives.{is_base64_char}
use wimsey.Text.{
  Str, contains_char, split, split_once, split-append, split-whole, split_once-eq-some,
  split_once-eq-none,
}

pub record Parts : Type 0 where
  pub header : Str
  pub claims : Str
  pub signature : Str

abbrev exactly_three : List Str → Option Parts
exactly_three (h ∷ c ∷ s ∷ []) = some (record { header = h; claims = c; signature = s })
exactly_three _ = none

unfoldable pub three_parts : Str → Option Parts
three_parts token = exactly_three (split b'.' token)

-- `{header_b64}.{claims_b64}`
abbrev pub signing_input : Str → Str → Str
signing_input header claims = header ++ b'.' ∷ claims

-- `{signing_input}.{signature_b64}`
abbrev pub compact : Parts → Str
compact p = signing_input p.header p.claims ++ b'.' ∷ p.signature

-- No part has a dot.
pub record IsDotless (p : Parts) : Type 0 where
  pub header : contains_char b'.' p.header ≡ false
  pub claims : contains_char b'.' p.claims ≡ false
  pub signature : contains_char b'.' p.signature ≡ false

-- `split` goes on behind the first separator.
split-split_once : (c : ℕ) (s a b : Str) → split_once c s ≡ some (a, b) → split c s ≡ a ∷ split c b
split-split_once c s a b h =
    let (e, clean) = split_once-eq-some c s h in ap (split c) e ∙ split-append c a b clean

split-split_once-none : (c : ℕ) (s : Str) → split_once c s ≡ none → split c s ≡ s ∷ []
split-split_once-none c s h = split-whole c s (split_once-eq-none c s h)

compact_parts : (p : Parts) → IsDotless p → three_parts (compact p) ≡ some p
unfolding three_parts
compact_parts p dotless =
    let joined = append_assoc p.header (b'.' ∷ p.claims) (b'.' ∷ p.signature) in
    let found : split b'.' (compact p) ≡ p.header ∷ p.claims ∷ p.signature ∷ [] =
      ap (split b'.') joined
      ∙ (split-append b'.' p.header _ dotless.header
          ∙ ap (λ r. p.header ∷ r)
              (split-append b'.' p.claims p.signature dotless.claims
                ∙ ap (λ r. p.claims ∷ r) (split-whole b'.' p.signature dotless.signature))) in
    rw found refl

exactly_three-eq-some :
    (l : List Str) (p : Parts)
    → exactly_three l ≡ some p
    → l ≡ p.header ∷ p.claims ∷ p.signature ∷ []
exactly_three-eq-some [] p h = cc
exactly_three-eq-some (x ∷ []) p h = cc
exactly_three-eq-some (x ∷ y ∷ []) p h = cc
exactly_three-eq-some (x ∷ y ∷ z ∷ []) p h =
    let same : record { header = x; claims = y; signature = z } ≡ p = cc in rw (← same) refl
exactly_three-eq-some (x ∷ y ∷ z ∷ w ∷ l) p h = cc

split-not-empty : (c : ℕ) (s : Str) → (a : Str) × (l : List Str) × (split c s ≡ a ∷ l)
split-not-empty c s = elim (Option-cases (split_once c s)) [
  | inl whole ↦ (s, [], split-split_once-none c s whole)
  | inr (pair, found) ↦ (pair.0, split c pair.1, split-split_once c s pair.0 pair.1 found)
]

-- A single part is the text, without a separator.
split-eq-one : (c : ℕ) (s a : Str) → split c s ≡ a ∷ [] → (s ≡ a) × (contains_char c s ≡ false)
split-eq-one c s a h = elim (Option-cases (split_once c s)) [
  | inl whole ↦
      let alone = split-split_once-none c s whole in (cc (alone, h), split_once-eq-none c s whole)
  | inr (pair, found) ↦
      let more = split-split_once c s pair.0 pair.1 found in
      let (rest, later, e) = split-not-empty c pair.1 in cc (more, h, e)
]

-- A first part with others behind it.
split-eq-cons :
    (c : ℕ) (s a b : Str) (l : List Str)
    → split c s ≡ a ∷ b ∷ l
    → (t : Str) × (s ≡ a ++ c ∷ t) × (contains_char c a ≡ false) × (split c t ≡ b ∷ l)
split-eq-cons c s a b l h = elim (Option-cases (split_once c s)) [
  | inl whole ↦ let alone = split-split_once-none c s whole in cc (alone, h)
  | inr (pair, found) ↦
      let more = split-split_once c s pair.0 pair.1 found in
      let (e, clean) = split_once-eq-some c s found in
      let both : ◌≡◌ {A = List Str} (pair.0 ∷ split c pair.1) (a ∷ b ∷ l) = sym more ∙ h in
      let same : pair.0 ≡ a = cc in
      (
        pair.1,
        subst (λ r. s ≡ r ++ c ∷ pair.1) same e,
        subst (λ r. contains_char c r ≡ false) same clean,
        cc,
      )
]

-- The three parts of a text, and the text that they make.
pub three_parts_iff :
    (token : Str) (p : Parts) → (three_parts token ≡ some p) ↔ ((token ≡ compact p) × IsDotless p)
three_parts_iff token p = (
  λ h.
      let parts = exactly_three-eq-some (split b'.' token) p (unfold three_parts in h) in
      let (t, e, header, h1) =
        split-eq-cons b'.' token p.header p.claims (p.signature ∷ []) parts in
      let (u, e1, claims, h2) = split-eq-cons b'.' t p.claims p.signature [] h1 in
      let (e2, signature) = split-eq-one b'.' u p.signature h2 in
      let made : token ≡ p.header ++ b'.' ∷ (p.claims ++ b'.' ∷ p.signature) = cc in
      (
        made ∙ sym (append_assoc p.header (b'.' ∷ p.claims) (b'.' ∷ p.signature)),
        record {
          header = header;
          claims = claims;
          signature = subst (λ r. contains_char b'.' r ≡ false) e2 signature;
        },
      ),
  λ (e, dotless). ap three_parts e ∙ compact_parts p dotless,
)

pub base64-dotless : (s : Str) → all is_base64_char s ≡ true → contains_char b'.' s ≡ false
unfolding contains_char
base64-dotless [] h = refl
base64-dotless (c ∷ s) h =
    let rest = base64-dotless s (ground arith) in
    let no_dot : (c == b'.') ≡ false = ground arith in rw (no_dot, rest) refl
