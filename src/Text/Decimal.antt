-- ===== src/Text/Decimal.antt =====
-- `u64`'s `Display` and `FromStr`.
use wimsey.Common.{
  ℕ, zero, suc, ◌+◌, ◌-◌, ◌*◌, ◌/◌, ◌%◌, ◌≤◌, ◌<◌, ◌≡◌, refl, true, false, Option, none, some, [],
  ◌∷◌, arith, ltb, leb, ◌==◌, if◌then◌else◌, within, all, ◌∙◌, ap, sym, u64_max, Bool-cases, inl,
  inr,
}
use wimsey.Text.Equal.{Str}

-- The digits of `n` in front of `out`; the fuel is more than the number of digits.
emit : ℕ → ℕ → Str → Str
emit zero n out = out
emit (suc fuel) n out =
    let rest = emit fuel (n / 10) ((b'0' + n % 10) ∷ out) in
    if ltb n 10 then (b'0' + n) ∷ out else rest

-- `n.to_string()`
unfoldable pub to_decimal : ℕ → Str
unfolding emit
to_decimal n = emit (suc n) n []

-- Digits accumulate by checked multiplication and addition.
scan : Str → ℕ → Option ℕ
scan [] n = some n
scan (c ∷ s) n =
    let m = n * 10 + (c - b'0') in
    let rest = scan s m in
    if within b'0' b'9' c then (if leb m u64_max then rest else none) else none

-- `s.parse::<u64>()`: one `+` is allowed in front, and there must be a digit.
parse_digits : Str → Option ℕ
unfolding scan
parse_digits [] = none
parse_digits (c ∷ s) = scan (c ∷ s) 0

unfoldable pub parse_u64 : Str → Option ℕ
unfolding parse_digits
parse_u64 [] = none
parse_u64 (c ∷ s) = if c == b'+' then parse_digits s else parse_digits (c ∷ s)

scan-digit :
    (n d : ℕ) (out : Str)
    → d < 10
    → n * 10 + d ≤ u64_max
    → scan ((b'0' + d) ∷ out) n ≡ scan out (n * 10 + d)
unfolding scan
scan-digit n d out h k =
    let e : b'0' + d - b'0' ≡ d = omega arith in
    let p : within b'0' b'9' (b'0' + d) ≡ true = ground arith in
    let q : leb (n * 10 + d) u64_max ≡ true = ground arith in rw (p, e, q)

-- `scan` reads back what `emit` wrote, and goes on with the rest.
scan-emit :
    (fuel n : ℕ) (out : Str) → n < fuel → n ≤ u64_max → scan (emit fuel n out) 0 ≡ scan out n
unfolding emit
scan-emit zero n out h k = absurd (omega arith)
scan-emit (suc fuel) n out h k = elim (Bool-cases (ltb n 10)) [
  | inl small ↦
      let below : n < 10 = ground arith in
      let e : 0 * 10 + n ≡ n = omega arith in
      rw small (scan-digit 0 n out below (omega arith) ∙ rw e)
  | inr large ↦
      let above : 10 ≤ n = ground arith in
      let e : n / 10 * 10 + n % 10 ≡ n = omega arith in
      rw large (
        scan-emit fuel (n / 10) ((b'0' + n % 10) ∷ out) (omega arith) (omega arith)
        ∙ (scan-digit (n / 10) (n % 10) out (omega arith) (omega arith) ∙ rw e))
]

-- The text is a digit followed by digits.
emit_head :
    (fuel n : ℕ) (out : Str)
    → n < fuel
    → (c : ℕ) × (s : Str) × (emit fuel n out ≡ c ∷ s) × (within b'0' b'9' c ≡ true)
unfolding emit
emit_head zero n out h = absurd (omega arith)
emit_head (suc fuel) n out h = elim (Bool-cases (ltb n 10)) [
  | inl small ↦ (b'0' + n, out, rw small, ground arith)
  | inr large ↦ rw large (
      emit_head fuel (n / 10) ((b'0' + n % 10) ∷ out)
        (let above : 10 ≤ n = ground arith in omega arith))
]

emit-digits :
    (fuel n : ℕ) (out : Str)
    → all (within b'0' b'9') out ≡ true
    → all (within b'0' b'9') (emit fuel n out) ≡ true
unfolding emit
emit-digits zero n out h = h
emit-digits (suc fuel) n out h = elim (Bool-cases (ltb n 10)) [
  | inl small ↦ rw small (ground arith)
  | inr large ↦ rw large (emit-digits fuel (n / 10) ((b'0' + n % 10) ∷ out) (ground arith))
]

pub to_decimal-digits : (n : ℕ) → all (within b'0' b'9') (to_decimal n) ≡ true
unfolding to_decimal
to_decimal-digits n = emit-digits (suc n) n [] refl

pub to_decimal_head :
    (n : ℕ) → (c : ℕ) × (s : Str) × (to_decimal n ≡ c ∷ s) × (within b'0' b'9' c ≡ true)
unfolding to_decimal
to_decimal_head n = emit_head (suc n) n [] (omega arith)

parse_u64_digit : (c : ℕ) (s : Str) → within b'0' b'9' c ≡ true → parse_u64 (c ∷ s) ≡ scan (c ∷ s) 0
unfolding parse_u64
parse_u64_digit c s d = let plus : (c == b'+') ≡ false = ground arith in rw plus

-- Reading back a number that was written gives the number.
pub parse_u64-to_decimal : (n : ℕ) → n ≤ u64_max → parse_u64 (to_decimal n) ≡ some n
parse_u64-to_decimal n h =
    let (c, s, e, d) = to_decimal_head n in
    let back : scan (to_decimal n) 0 ≡ some n =
      (unfold to_decimal scan in scan-emit (suc n) n [] (omega arith) h) in
    ap parse_u64 e ∙ (parse_u64_digit c s d ∙ (ap (λ r. scan r 0) (sym e) ∙ back))

scan_bound : (s : Str) (n m : ℕ) → n ≤ u64_max → scan s n ≡ some m → m ≤ u64_max
unfolding scan
scan_bound [] n m h e = let same : n ≡ m = cc in omega arith
scan_bound (c ∷ s) n m h e = elim (Bool-cases (leb (n * 10 + (c - b'0')) u64_max)) [
  | inl fits ↦ scan_bound s (n * 10 + (c - b'0')) m (ground arith) (ground arith)
  | inr over ↦ ground arith
]

parse_digits_bound : (s : Str) (m : ℕ) → parse_digits s ≡ some m → m ≤ u64_max
unfolding parse_digits
parse_digits_bound [] m e = cc
parse_digits_bound (c ∷ s) m e = scan_bound (c ∷ s) 0 m (omega arith) e

-- What is read is a 64-bit number.
pub parse_u64_bound : (s : Str) (m : ℕ) → parse_u64 s ≡ some m → m ≤ u64_max
unfolding parse_u64
parse_u64_bound [] m e = cc
parse_u64_bound (c ∷ s) m e = elim (Bool-cases (c == b'+')) [
  | inl plus ↦ parse_digits_bound s m (ground arith)
  | inr digit ↦ parse_digits_bound (c ∷ s) m (ground arith)
]
