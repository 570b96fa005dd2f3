-- ===== src/Text/Utf8.antt =====
-- The UTF-8 form of a text: its bytes, its length in bytes, and slices at byte offsets.
use wimsey.Common.{
  ℕ, ◌+◌, ◌-◌, ◌/◌, ◌%◌, ◌≤◌, ◌≡◌, refl, true, false, List, [], ◌∷◌, ◌++◌, arith, ltb, leb,
  if◌then◌else◌, length, length-append, all, all-append, ap, &&-true, Bool-cases, inl, inr,
  append_assoc, sym,
}
use wimsey.Text.Equal.{Str}

abbrev pub Bytes : Type 0
Bytes = List ℕ

unfoldable pub encode_char : ℕ → Bytes
encode_char c =
    if ltb c 0x80
    then c ∷ []
    else if ltb c 0x800
    then (0xc0 + c / 64) ∷ (0x80 + c % 64) ∷ []
    else if ltb c 0x10000
    then (0xe0 + c / 4096) ∷ (0x80 + c / 64 % 64) ∷ (0x80 + c % 64) ∷ []
    else (0xf0 + c / 262144) ∷ (0x80 + c / 4096 % 64) ∷ (0x80 + c / 64 % 64) ∷ (0x80 + c % 64) ∷ []

-- `s.as_bytes()`
unfoldable pub as_bytes : Str → Bytes
unfolding encode_char
as_bytes [] = []
as_bytes (c ∷ s) = encode_char c ++ as_bytes s

-- `s.len()`, in bytes.
unfoldable pub len : Str → ℕ
unfolding as_bytes
len s = length (as_bytes s)

-- `&s[i..]` and `&s[..i]`, `i` a byte offset on a character boundary.
unfoldable pub slice_from : Str → ℕ → Str
unfolding encode_char
slice_from [] i = []
slice_from (c ∷ s) i =
    let rest = slice_from s (i - length (encode_char c)) in if leb i 0 then c ∷ s else rest

unfoldable pub slice_to : Str → ℕ → Str
unfolding encode_char
slice_to [] i = []
slice_to (c ∷ s) i =
    let rest = slice_to s (i - length (encode_char c)) in if leb i 0 then [] else c ∷ rest

-- `s.chars().next().unwrap_or(d)`
abbrev pub first_char : ℕ → Str → ℕ
first_char d [] = d
first_char d (c ∷ s) = c

pub as_bytes-append : (s t : Str) → as_bytes (s ++ t) ≡ as_bytes s ++ as_bytes t
unfolding as_bytes
as_bytes-append [] t = refl
as_bytes-append (c ∷ s) t =
    rw (as_bytes-append s t) (sym (append_assoc (encode_char c) (as_bytes s) (as_bytes t)))

pub len-append : (s t : Str) → len (s ++ t) ≡ len s + len t
unfolding len
len-append s t = rw (as_bytes-append s t) (length-append (as_bytes s) (as_bytes t))

pub encode_char-ascii : (c : ℕ) → ltb c 0x80 ≡ true → encode_char c ≡ c ∷ []
unfolding encode_char
encode_char-ascii c h = rw h

pub encode_char_size : (c : ℕ) → 1 ≤ length (encode_char c)
unfolding encode_char
encode_char_size c = ground arith

-- A character other than an ASCII one has bytes outside the ASCII range.
pub encode_char-wide : (c : ℕ) → ltb c 0x80 ≡ false → all (λ b. ltb b 0x80) (encode_char c) ≡ false
unfolding encode_char
encode_char-wide c h = ground arith

pub len-cons : (c : ℕ) (s : Str) → len (c ∷ s) ≡ length (encode_char c) + len s
unfolding len
len-cons c s = length-append (encode_char c) (as_bytes s)

pub slice_from-len : (s t : Str) → slice_from (s ++ t) (len s) ≡ t
unfolding slice_from
slice_from-len [] [] = refl
slice_from-len [] (c ∷ t) = unfold len in refl
slice_from-len (c ∷ s) t =
    let e : len (c ∷ s) - length (encode_char c) ≡ len s = omega (arith, len-cons c s) in
    let p : leb (len (c ∷ s)) 0 ≡ false = ground (arith, len-cons c s, encode_char_size c) in
    rw (p, e) (slice_from-len s t)

pub slice_to-len : (s t : Str) → slice_to (s ++ t) (len s) ≡ s
unfolding slice_to
slice_to-len [] [] = refl
slice_to-len [] (c ∷ t) = unfold len in refl
slice_to-len (c ∷ s) t =
    let e : len (c ∷ s) - length (encode_char c) ≡ len s = omega (arith, len-cons c s) in
    let p : leb (len (c ∷ s)) 0 ≡ false = ground (arith, len-cons c s, encode_char_size c) in
    rw (p, e) (ap (λ r. c ∷ r) (slice_to-len s t))

-- A text whose bytes are all ASCII is its own list of bytes.
pub as_bytes_ascii : (s : Str) → all (λ b. ltb b 0x80) (as_bytes s) ≡ true → as_bytes s ≡ s
unfolding as_bytes
as_bytes_ascii [] h = refl
as_bytes_ascii (c ∷ s) h =
    let parts =
      &&-true (all (λ b. ltb b 0x80) (encode_char c)) _
        (rw (all-append (λ b. ltb b 0x80) (encode_char c) (as_bytes s)) at h) in
    elim (Bool-cases (ltb c 0x80)) [
      | inl narrow ↦ rw (encode_char-ascii c narrow) (ap (λ r. c ∷ r) (as_bytes_ascii s parts.1))
      | inr wide ↦ cc (encode_char-wide c wide, parts.0)
    ]

pub as_bytes_of_ascii : (s : Str) → all (λ b. ltb b 0x80) s ≡ true → as_bytes s ≡ s
unfolding as_bytes
as_bytes_of_ascii [] h = refl
as_bytes_of_ascii (c ∷ s) h =
    let parts = &&-true (ltb c 0x80) _ h in
    rw (encode_char-ascii c parts.0) (ap (λ r. c ∷ r) (as_bytes_of_ascii s parts.1))
