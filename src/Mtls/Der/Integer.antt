-- ===== src/Mtls/Der/Integer.antt =====
-- One INTEGER: what `write_integer` writes, `read_integer` reads.
use wimsey.Common.{
  suc, ◌+◌, ◌-◌, ◌≤◌, ◌≡◌, inl, inr, refl, ap, true, false, not, ◌||◌, some, [], ◌∷◌, ◌++◌, ok,
  arith, length, length-append, take-append, drop-append, replicate, ltb, leb, ◌==◌, if◌then◌else◌,
  Bool-cases,
}
use wimsey.Text.{Bytes, is_empty}
use wimsey.Mtls.Der.{
  is_high, first_is_high, drop_zeros, sized, write_integer, get_to, strip_zero, read_integer,
}

-- No zero in front, but for the value of one byte.
abbrev IsMinimal : Bytes → Type 0
IsMinimal [] = ⊥
IsMinimal (b ∷ []) = Unit
IsMinimal (b ∷ c ∷ bs) = (b == 0) ≡ false

drop_zeros-IsMinimal : (v : Bytes) → 1 ≤ length v → IsMinimal (drop_zeros v)
unfolding drop_zeros
drop_zeros-IsMinimal [] h = absurd (omega arith)
drop_zeros-IsMinimal (b ∷ []) h = tt
drop_zeros-IsMinimal (b ∷ c ∷ bs) h = elim (Bool-cases (b == 0)) [
  | inl nil ↦ rw nil (drop_zeros-IsMinimal (c ∷ bs) (omega arith))
  | inr set ↦ rw set set
]

pub length-drop_zeros-le : (v : Bytes) → length (drop_zeros v) ≤ length v
unfolding drop_zeros
length-drop_zeros-le [] = omega arith
length-drop_zeros-le (b ∷ []) = omega arith
length-drop_zeros-le (b ∷ c ∷ bs) = ground (arith, length-drop_zeros-le (c ∷ bs))

-- Zeros in front restore the value.
pub drop_zeros-padded :
    (v : Bytes) → replicate (length v - length (drop_zeros v)) 0 ++ drop_zeros v ≡ v
unfolding drop_zeros
drop_zeros-padded [] = refl
drop_zeros-padded (b ∷ []) = refl
drop_zeros-padded (b ∷ c ∷ bs) = elim (Bool-cases (b == 0)) [
  | inl nil ↦
      let e : b ≡ 0 = ground arith in
      let le = length-drop_zeros-le (c ∷ bs) in
      let one : length (b ∷ c ∷ bs) - length (drop_zeros (c ∷ bs))
          ≡ suc (length (c ∷ bs) - length (drop_zeros (c ∷ bs))) =
        omega (arith, le) in
      rw (nil, one) (rw e (ap (λ r. 0 ∷ r) (drop_zeros-padded (c ∷ bs))))
  | inr set ↦
      let none_left : length (b ∷ c ∷ bs) - length (b ∷ c ∷ bs) ≡ 0 = omega arith in
      rw (set, none_left) refl
]

-- The contents of a minimal INTEGER.
contents : Bytes → Bytes
contents w = if first_is_high w then 0x00 ∷ w else w

sized-contents : (w : Bytes) → sized w ≡ length (contents w) ∷ contents w
unfolding contents
sized-contents w = elim (Bool-cases (first_is_high w)) [
  | inl high ↦ let e : length w + 1 ≡ suc (length w) = omega arith in rw (high, e) refl
  | inr low ↦ rw low refl
]

strip_zero-contents : (w : Bytes) → IsMinimal w → strip_zero (contents w) ≡ ok w
unfolding contents strip_zero
strip_zero-contents [] h = absurd h
strip_zero-contents (b ∷ []) h = elim (Bool-cases (is_high b)) [
  | inl high ↦ rw high (rw high refl)
  | inr low ↦ rw low refl
]
strip_zero-contents (b ∷ c ∷ bs) h = elim (Bool-cases (is_high b)) [
  | inl high ↦ rw high (rw high refl)
  | inr low ↦ rw (low, h) refl
]

length-contents-le : (w : Bytes) → length (contents w) ≤ length w + 1
unfolding contents
length-contents-le w = ground arith

pub get_to-append : (v rest : Bytes) → get_to (length v) (v ++ rest) ≡ some v
unfolding get_to
get_to-append v rest =
    let size = length-append v rest in
    let fits : leb (length v) (length (v ++ rest)) ≡ true = ground (arith, size) in
    rw (fits, take-append v rest) refl

-- The length byte and the contents are at most 34 bytes for a value of 32.
pub length-write_integer-le : (v : Bytes) → length (write_integer v) ≤ length v + 3
unfolding write_integer
length-write_integer-le v =
    let e = sized-contents (drop_zeros v) in
    let a = length-contents-le (drop_zeros v) in
    let b = length-drop_zeros-le v in rw e (omega (arith, a, b))

fits-minimal :
    (w : Bytes) → IsMinimal w → length w ≤ 32 → not (ltb 32 (length w) || is_empty w) ≡ true
fits-minimal [] minimal few = absurd minimal
fits-minimal (b ∷ bs) minimal few = ground arith

read_integer-contents :
    (w rest : Bytes)
    → IsMinimal w
    → length w ≤ 32
    → read_integer (0x02 ∷ length (contents w) ∷ (contents w ++ rest)) ≡ ok (w, rest)
unfolding read_integer
read_integer-contents w rest minimal few =
    rw
      (
        get_to-append (contents w) rest,
        strip_zero-contents w minimal,
        fits-minimal w minimal few,
        drop-append (contents w) rest,
      )
      refl

pub read_integer-write_integer :
    (v rest : Bytes)
    → 1 ≤ length v
    → length v ≤ 32
    → read_integer (write_integer v ++ rest) ≡ ok (drop_zeros v, rest)
unfolding write_integer
read_integer-write_integer v rest some_bytes few =
    let w = drop_zeros v in
    let minimal = drop_zeros-IsMinimal v some_bytes in
    let small = length-drop_zeros-le v in
    rw (sized-contents w) (read_integer-contents w rest minimal (omega (arith, small, few)))
