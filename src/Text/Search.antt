-- ===== src/Text/Search.antt =====
-- Searching and splitting by characters and prefixes.
use wimsey.Common.{
  length, length-append, append_assoc, ◌≢◌, ℕ, ◌≡◌, inl, inr, refl, sym, ap, ◌∙◌, Bool, false, ◌||◌,
  Option, none, some, List, [], ◌∷◌, ◌++◌, arith, ◌==◌, if◌then◌else◌, Option-cases, Bool-cases,
}
use mathlib.Core.Option
use wimsey.Text.Equal.{Str, str_eq, str_eq_sound, str_eq_refl, ne-str_eq}

-- `s.contains(c)`
unfoldable pub contains_char : ℕ → Str → Bool
contains_char c [] = false
contains_char c (x ∷ xs) = x == c || contains_char c xs

-- `s.strip_prefix(p)`
unfoldable pub strip_prefix : Str → Str → Option Str
strip_prefix s [] = some s
strip_prefix [] (p ∷ ps) = none
strip_prefix (x ∷ xs) (p ∷ ps) = let rest = strip_prefix xs ps in if x == p then rest else none

-- `s.strip_suffix(p)`: the part in front of the only place where the rest can be `p`.
unfoldable pub strip_suffix : Str → Str → Option Str
strip_suffix [] p = if str_eq [] p then some [] else none
strip_suffix (x ∷ xs) p =
    if str_eq (x ∷ xs) p then some [] else Option.map (λ r. x ∷ r) (strip_suffix xs p)

-- `s.find(c)` with the slices around it: what precedes the first `c`, and what follows it.
unfoldable pub split_once : ℕ → Str → Option (Str × Str)
split_once c [] = none
split_once c (x ∷ xs) =
    if x == c then some ([], xs) else Option.map (λ p. (x ∷ p.0, p.1)) (split_once c xs)

-- `s.split(c)`: always at least one part.
abbrev pub cons_head : ℕ → List Str → List Str
cons_head x [] = (x ∷ []) ∷ []
cons_head x (p ∷ ps) = (x ∷ p) ∷ ps

unfoldable pub split : ℕ → Str → List Str
split c [] = [] ∷ []
split c (x ∷ xs) = let rest = split c xs in if x == c then [] ∷ rest else cons_head x rest

-- `parts.join(sep)`
unfoldable pub join : Str → List Str → Str
join sep [] = []
join sep (p ∷ []) = p
join sep (p ∷ q ∷ ps) = p ++ (sep ++ join sep (q ∷ ps))

pub strip_prefix-append : (p s : Str) → strip_prefix (p ++ s) p ≡ some s
unfolding strip_prefix
strip_prefix-append [] s = refl
strip_prefix-append (x ∷ p) s = ground (arith, strip_prefix-append p s)

pub strip_prefix-eq-some : (s p : Str) {r : Str} → strip_prefix s p ≡ some r → s ≡ p ++ r
unfolding strip_prefix
strip_prefix-eq-some s [] h = ground arith
strip_prefix-eq-some [] (p ∷ ps) h = cc
strip_prefix-eq-some (x ∷ xs) (p ∷ ps) {r} h = elim (Bool-cases (x == p)) [
  | inl e ↦ ground (arith, strip_prefix-eq-some xs ps {r = r})
  | inr e ↦ ground arith
]

pub contains_char-append :
    (c : ℕ) (s t : Str) → contains_char c (s ++ t) ≡ contains_char c s || contains_char c t
unfolding contains_char
contains_char-append c [] t = refl
contains_char-append c (x ∷ s) t = ground (arith, contains_char-append c s t)

-- Without the character there is nothing to split at.
pub split_once-none : (c : ℕ) (s : Str) → contains_char c s ≡ false → split_once c s ≡ none
unfolding contains_char split_once
split_once-none c [] h = refl
split_once-none c (x ∷ s) h = ground (arith, split_once-none c s)

-- The split is at the first occurrence.
pub split_once-append :
    (c : ℕ) (s t : Str) → contains_char c s ≡ false → split_once c (s ++ c ∷ t) ≡ some (s, t)
unfolding contains_char split_once
split_once-append c [] t h = ground arith
split_once-append c (x ∷ s) t h = ground (arith, split_once-append c s t)

pub split_once-eq-some :
    (c : ℕ) (s : Str) {a b : Str}
    → split_once c s ≡ some (a, b)
    → (s ≡ a ++ c ∷ b) × (contains_char c a ≡ false)
unfolding contains_char split_once
split_once-eq-some c [] h = cc
split_once-eq-some c (x ∷ s) {a} {b} h = elim (Bool-cases (x == c)) [
  | inl e ↦ ground arith
  | inr e ↦ elim (Option-cases (split_once c s)) [
    | inl n ↦ ground (arith, n)
    | inr (p, q) ↦
        let ih = split_once-eq-some c s {a = p.0} {b = p.1} q in ground (arith, ih.0, ih.1)
  ]
]

pub split_once-eq-none : (c : ℕ) (s : Str) → split_once c s ≡ none → contains_char c s ≡ false
unfolding contains_char split_once
split_once-eq-none c [] h = refl
split_once-eq-none c (x ∷ s) h = ground (arith, split_once-eq-none c s)

pub split-whole : (c : ℕ) (s : Str) → contains_char c s ≡ false → split c s ≡ s ∷ []
unfolding contains_char split
split-whole c [] h = refl
split-whole c (x ∷ s) h = ground (arith, split-whole c s)

pub split-append :
    (c : ℕ) (s t : Str) → contains_char c s ≡ false → split c (s ++ c ∷ t) ≡ s ∷ split c t
unfolding contains_char split
split-append c [] t h = ground arith
split-append c (x ∷ s) t h = ground (arith, split-append c s t)

pub append_cancel : (p s t : Str) → p ++ s ≡ p ++ t → s ≡ t
append_cancel [] s t h = h
append_cancel (x ∷ p) s t h = append_cancel p s t cc

-- What stands in front of the first separator, and behind it, is determined by the text.
pub split_once_unique :
    (c : ℕ) (a b s t : Str)
    → contains_char c a ≡ false
    → contains_char c b ≡ false
    → a ++ c ∷ s ≡ b ++ c ∷ t
    → (a ≡ b) × (s ≡ t)
split_once_unique c a b s t clean clean' h =
    let left = split_once-append c a s clean in
    let right = split_once-append c b t clean' in
    let both : ◌≡◌ {A = Option (Str × Str)} (some (a, s)) (some (b, t)) =
      sym left ∙ (ap (split_once c) h ∙ right) in
    (cc, cc)

pub strip_suffix-eq-some : (s p : Str) {r : Str} → strip_suffix s p ≡ some r → s ≡ r ++ p
unfolding strip_suffix
strip_suffix-eq-some [] p {r} h = elim (Bool-cases (str_eq [] p)) [
  | inl same ↦ let e : ◌≡◌ {A = Str} [] r = ground arith in rw (← e) (str_eq_sound [] p same)
  | inr other ↦ ground arith
]
strip_suffix-eq-some (x ∷ xs) p {r} h = elim (Bool-cases (str_eq (x ∷ xs) p)) [
  | inl same ↦ let e : ◌≡◌ {A = Str} [] r = ground arith in rw (← e) (str_eq_sound (x ∷ xs) p same)
  | inr other ↦ elim (Option-cases (strip_suffix xs p)) [
    | inl missing ↦ ground arith
    | inr (t, found) ↦
        let e : x ∷ t ≡ r = ground arith in
        rw (← e) (ap (λ q. x ∷ q) (strip_suffix-eq-some xs p found))
  ]
]

-- A suffix that stands at the end is taken off.
pub strip_suffix-append : (s p : Str) → strip_suffix (s ++ p) p ≡ some s
unfolding strip_suffix str_eq
strip_suffix-append [] [] = refl
strip_suffix-append [] (y ∷ p) = rw (str_eq_refl (y ∷ p)) refl
strip_suffix-append (x ∷ s) p =
    let size = length-append s p in
    let longer : str_eq (x ∷ s ++ p) p ≡ false =
      ne-str_eq (x ∷ s ++ p) p
        (λ e. absurd (let same = ap length e in omega (arith, size, same))) in
    rw (longer, strip_suffix-append s p) refl

last_char : Str → ℕ
last_char [] = 0
last_char (x ∷ []) = x
last_char (x ∷ y ∷ s) = last_char (y ∷ s)

last_char-append : (s : Str) (c : ℕ) → last_char (s ++ c ∷ []) ≡ c
unfolding last_char
last_char-append [] c = refl
last_char-append (x ∷ []) c = refl
last_char-append (x ∷ y ∷ s) c = last_char-append (y ∷ s) c

-- A text does not end in a suffix whose last character is another one.
pub strip_suffix-other :
    (s p : Str) (c d : ℕ) → c ≢ d → strip_suffix (s ++ c ∷ []) (p ++ d ∷ []) ≡ none
strip_suffix-other s p c d differ = elim (Option-cases (strip_suffix (s ++ c ∷ []) (p ++ d ∷ []))) [
  | inl missing ↦ missing
  | inr (r, found) ↦
      let e = strip_suffix-eq-some (s ++ c ∷ []) (p ++ d ∷ []) found in
      let ends : (s ++ c ∷ []) ≡ (r ++ p) ++ d ∷ [] = e ∙ sym (append_assoc r p (d ∷ [])) in
      absurd
        (differ (sym (last_char-append s c) ∙ (ap last_char ends ∙ last_char-append (r ++ p) d)))
]
