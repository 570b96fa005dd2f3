-- ===== src/Mtls/Der/Negative.antt =====
-- An INTEGER whose first byte is high: DER reads it as negative.
use wimsey.Common.{
  suc, ◌+◌, ◌-◌, ◌≡◌, refl, ap, sym, ◌∙◌, true, false, not, ◌||◌, [], ◌∷◌, ◌++◌, append-nil, ok,
  arith, length, length-append, take, drop, take-append, drop-append, ==_refl, ◌==◌, ltb,
}
use wimsey.Text.{Bytes, is_empty}
use wimsey.Mtls.Der.{
  first_is_high, drop_zeros, write_integer, read_integer, strip_zero, get_to, padded,
  ecdsa_signature_to_der, ecdsa_signature_from_der,
}
use wimsey.Mtls.Der.Integer.{read_integer-write_integer, get_to-append}
use wimsey.Mtls.Der.Halves.{padded-drop_zeros}

drop_zeros-high : (v : Bytes) → first_is_high v ≡ true → drop_zeros v ≡ v
unfolding drop_zeros
drop_zeros-high [] h = refl
drop_zeros-high (b ∷ []) h = refl
drop_zeros-high (b ∷ c ∷ bs) h = let set : (b == 0) ≡ false = ground arith in rw set refl

strip_zero-high : (v : Bytes) → first_is_high v ≡ true → strip_zero v ≡ ok v
unfolding strip_zero
strip_zero-high [] h = refl
strip_zero-high (b ∷ []) h = refl
strip_zero-high (b ∷ c ∷ bs) h = let set : (b == 0) ≡ false = ground arith in rw set refl

-- The INTEGER of 32 high bytes, without the zero in front.
abbrev negative : Bytes → Bytes
negative v = 0x02 ∷ 32 ∷ v

fits-size : (v : Bytes) → length v ≡ 32 → not (ltb 32 (length v) || is_empty v) ≡ true
fits-size [] size = absurd (omega (arith, size))
fits-size (b ∷ v) size = ground arith

read_integer-negative :
    (v rest : Bytes)
    → length v ≡ 32
    → first_is_high v ≡ true
    → read_integer (negative v ++ rest) ≡ ok (v, rest)
unfolding read_integer
read_integer-negative v rest size high =
    let found = ap (λ n. get_to n (v ++ rest)) (sym size) ∙ get_to-append v rest in
    let behind = ap (λ n. drop n (v ++ rest)) (sym size) ∙ drop-append v rest in
    let fits : not (ltb 32 (length v) || is_empty v) ≡ true = fits-size v size in
    rw (found, strip_zero-high v high, fits, behind) refl

take-whole : (r s : Bytes) → length r ≡ 32 → take 32 (r ++ s) ≡ r
take-whole r s size = ap (λ n. take n (r ++ s)) (sym size) ∙ take-append r s

drop-whole : (r s : Bytes) → length r ≡ 32 → drop 32 (r ++ s) ≡ s
drop-whole r s size = ap (λ n. drop n (r ++ s)) (sym size) ∙ drop-append r s

-- For halves of 32 bytes, the first of which starts with a high byte, the DER that is written holds the first half as an INTEGER of 33 bytes, with a zero in front. The DER that leaves out that zero, where the INTEGER has 32 bytes and the whole is one byte shorter, is read as the same signature.
pub from_der-negative :
    (r s : Bytes)
    → length r ≡ 32
    → length s ≡ 32
    → first_is_high r ≡ true
    → (ecdsa_signature_to_der (r ++ s)
        ≡ 0x30 ∷ (35 + length (write_integer s)) ∷ 0x02 ∷ 33 ∷ 0x00 ∷ (r ++ write_integer s))
      × (ecdsa_signature_from_der
            (0x30 ∷ (34 + length (write_integer s)) ∷ 0x02 ∷ 32 ∷ (r ++ write_integer s))
          ≡ ok (r ++ s))
unfolding ecdsa_signature_from_der ecdsa_signature_to_der
from_der-negative r s size size' high =
    let first = read_integer-negative r (write_integer s) size high in
    let second : read_integer (write_integer s) ≡ ok (drop_zeros s, []) =
      ap read_integer (sym (append-nil (write_integer s)))
      ∙ read_integer-write_integer s [] (omega (arith, size')) (omega (arith, size')) in
    let whole : padded r ≡ r = (let e : 32 - length r ≡ 0 = omega (arith, size) in rw e refl) in
    let behind : length (r ++ write_integer s) ≡ 32 + length (write_integer s) =
      length-append r (write_integer s) ∙ ap (λ n. n + length (write_integer s)) size in
    let longer : length (negative r ++ write_integer s) ≡ 34 + length (write_integer s) =
      omega (arith, behind) in
    let written : suc (suc (suc (length (r ++ write_integer s)))) ≡ 35 + length (write_integer s) =
      omega (arith, behind) in
    (
      rw (take-whole r s size, drop-whole r s size, drop_zeros-high r high, high, size)
          (ap (λ n. 0x30 ∷ n ∷ 0x02 ∷ 33 ∷ 0x00 ∷ (r ++ write_integer s)) (written)),
      rw (← longer, ==_refl (length (negative r ++ write_integer s)), first)
          (rw (second, whole, padded-drop_zeros s size') refl),
    )
