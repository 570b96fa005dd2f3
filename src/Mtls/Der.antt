-- ===== src/Mtls/Der.antt =====
-- crates/mtls/src/wic.rs: the two encodings of an ECDSA signature, the fixed width of JOSE and the
-- DER of X.509.
pub mod Integer
pub mod Halves
pub mod Negative
use wimsey.Common.{
  ℕ, ◌+◌, ◌-◌, ◌/◌, ◌%◌, Bool, true, false, not, ◌||◌, Option, none, some, [], ◌∷◌, ◌++◌, Result,
  ok, err, ◌>>=◌, ◌>>◌, ensure, ok_or, length, take, drop, replicate, ltb, leb, ◌==◌, if◌then◌else◌,
}
use wimsey.Text.{Bytes, is_empty}
use wimsey.Mtls.Error.{MtlsError, invalid_signature}

-- `b & 0x80 != 0`
abbrev pub is_high : ℕ → Bool
is_high b = b / 128 % 2 == 1

abbrev pub first_is_high : Bytes → Bool
first_is_high [] = false
first_is_high (b ∷ bs) = is_high b

-- `&value[start..]`, where `start` is the place of the first byte that is not zero, or the last one.
unfoldable pub drop_zeros : Bytes → Bytes
drop_zeros [] = []
drop_zeros (b ∷ []) = b ∷ []
drop_zeros (b ∷ c ∷ bs) = let rest = drop_zeros (c ∷ bs) in if b == 0 then rest else b ∷ c ∷ bs

-- The length byte and the contents of a minimal INTEGER.
abbrev sized : Bytes → Bytes
sized value =
    if first_is_high value then (length value + 1) ∷ 0x00 ∷ value else length value ∷ value

-- `integer` of `ecdsa_signature_to_der`
unfoldable pub write_integer : Bytes → Bytes
unfolding drop_zeros
write_integer value = 0x02 ∷ sized (drop_zeros value)

unfoldable pub ecdsa_signature_to_der : Bytes → Bytes
unfolding write_integer
ecdsa_signature_to_der raw =
    let body = write_integer (take 32 raw) ++ write_integer (drop 32 raw) in
    0x30 ∷ length body ∷ body

-- `rest.get(..len)`
unfoldable pub get_to : ℕ → Bytes → Option Bytes
get_to n bytes = if leb n (length bytes) then some (take n bytes) else none

-- The `match` on the contents of an INTEGER: a leading zero is legal in front of a high byte, or
-- alone.
unfoldable pub strip_zero : Bytes → Result MtlsError Bytes
strip_zero [] = ok []
strip_zero (b ∷ []) = ok (b ∷ [])
strip_zero (b ∷ c ∷ bs) =
    if b == 0 then (if is_high c then ok (c ∷ bs) else err invalid_signature) else ok (b ∷ c ∷ bs)

-- `integer` of `ecdsa_signature_from_der`: the value, and the input behind it.
unfoldable pub read_integer : Bytes → Result MtlsError (Bytes × Bytes)
unfolding get_to strip_zero
read_integer [] = err invalid_signature
read_integer (tag ∷ []) = err invalid_signature
read_integer (tag ∷ len ∷ rest) = do
  ensure (tag == 0x02) invalid_signature
  contents ← ok_or (get_to len rest) invalid_signature
  value ← strip_zero contents
  ensure (not (ltb 32 (length value) || is_empty value)) invalid_signature
  ok (value, drop len rest)

-- A value at the end of 32 bytes of zeros.
abbrev padded : Bytes → Bytes
padded value = replicate (32 - length value) 0 ++ value

unfoldable pub ecdsa_signature_from_der : Bytes → Result MtlsError Bytes
unfolding read_integer
ecdsa_signature_from_der [] = err invalid_signature
ecdsa_signature_from_der (tag ∷ []) = err invalid_signature
ecdsa_signature_from_der (tag ∷ len ∷ rest) = do
  ensure (tag == 0x30) invalid_signature
  ensure (length rest == len) invalid_signature
  first ← read_integer rest
  second ← read_integer first.1
  ensure (is_empty second.1) invalid_signature
  ok (padded first.0 ++ padded second.0)
