-- ===== src/Mtls/Der/Halves.antt =====
-- Both halves of a signature in DER.
use wimsey.Common.{
  ℕ, ◌-◌, ◌≤◌, ◌≡◌, refl, ap, sym, ◌∙◌, true, not, ◌||◌, [], ◌∷◌, ◌++◌, append-nil, ok, ensure,
  ok_or, arith, length, length-append, take, drop, take-drop, length-take, length-drop,
  length-replicate, replicate, ==_refl, ◌==◌, >>=-eq-ok, then-eq-ok, ensure-eq-ok, ltb,
}
use wimsey.Text.{Bytes, is_empty}
use wimsey.Mtls.Error.{invalid_signature}
use wimsey.Mtls.Der.{
  drop_zeros, write_integer, read_integer, strip_zero, get_to, padded, ecdsa_signature_to_der,
  ecdsa_signature_from_der,
}
use wimsey.Mtls.Der.Integer.{drop_zeros-padded, length-write_integer-le, read_integer-write_integer}

pub padded-drop_zeros : (v : Bytes) → length v ≡ 32 → padded (drop_zeros v) ≡ v
padded-drop_zeros v size =
    ap (λ n. replicate (n - length (drop_zeros v)) 0 ++ drop_zeros v) (sym size)
    ∙ drop_zeros-padded v

-- The body of the SEQUENCE, read back.
from_der-halves :
    (r s : Bytes)
    → length r ≡ 32
    → length s ≡ 32
    → ecdsa_signature_from_der
        (0x30 ∷ length (write_integer r ++ write_integer s) ∷ (write_integer r ++ write_integer s))
      ≡ ok (r ++ s)
unfolding ecdsa_signature_from_der
from_der-halves r s size size' =
    let first =
      read_integer-write_integer r (write_integer s) (omega (arith, size)) (omega (arith, size)) in
    let second : read_integer (write_integer s) ≡ ok (drop_zeros s, []) =
      ap read_integer (sym (append-nil (write_integer s)))
      ∙ read_integer-write_integer s [] (omega (arith, size')) (omega (arith, size')) in
    rw (==_refl (length (write_integer r ++ write_integer s)), first)
      (rw (second, padded-drop_zeros r size, padded-drop_zeros s size') refl)

-- A signature of 64 bytes is read back from the DER that is written for it.
pub from_der-to_der :
    (raw : Bytes) → length raw ≡ 64 → ecdsa_signature_from_der (ecdsa_signature_to_der raw) ≡ ok raw
unfolding ecdsa_signature_to_der
from_der-to_der raw size =
    let front = length-take 32 raw (omega (arith, size)) in
    let back : length (drop 32 raw) ≡ 32 = length-drop 32 raw ∙ omega (arith, size) in
    from_der-halves (take 32 raw) (drop 32 raw) front back ∙ ap ok (take-drop 32 raw)

-- The DER written for a signature of 64 bytes is a SEQUENCE whose length is written in one byte, at most 70, and is that of what follows.
pub to_der_bounds :
    (raw : Bytes)
    → length raw ≡ 64
    → (body : Bytes) × (ecdsa_signature_to_der raw ≡ 0x30 ∷ length body ∷ body) × (length body ≤ 70)
unfolding ecdsa_signature_to_der
to_der_bounds raw size =
    let front = length-take 32 raw (omega (arith, size)) in
    let back = length-drop 32 raw in
    let whole = length-append (write_integer (take 32 raw)) (write_integer (drop 32 raw)) in
    let a = length-write_integer-le (take 32 raw) in
    let b = length-write_integer-le (drop 32 raw) in
    (
      write_integer (take 32 raw) ++ write_integer (drop 32 raw),
      refl,
      omega (arith, size, front, back, whole, a, b),
    )

read_integer_bounds :
    (input : Bytes) {value rest : Bytes} → read_integer input ≡ ok (value, rest) → length value ≤ 32
unfolding read_integer
read_integer_bounds [] h = cc
read_integer_bounds (tag ∷ []) h = cc
read_integer_bounds (tag ∷ len ∷ input) {value} {rest} h =
    let (h0, k0) = then-eq-ok (ensure (tag == 0x02) invalid_signature) _ h in
    let (contents, h1, k1) = >>=-eq-ok (ok_or (get_to len input) invalid_signature) _ k0 in
    let (v, h2, k2) = >>=-eq-ok (strip_zero contents) _ k1 in
    let (h3, k3) =
      then-eq-ok (ensure (not (ltb 32 (length v) || is_empty v)) invalid_signature) _ k2 in
    let same : v ≡ value = cc in
    let fits : not (ltb 32 (length v) || is_empty v) ≡ true = ensure-eq-ok _ _ h3 in
    rw (← same) (ground arith)

length-padded : (v : Bytes) → length v ≤ 32 → length (padded v) ≡ 32
length-padded v h =
    let a = length-append (replicate (32 - length v) 0) v in
    let b = length-replicate {0} {A = ℕ} (32 - length v) 0 in omega (arith, a, b, h)

-- Whatever DER is accepted, the signature read from it has 64 bytes.
from_der_bounds :
    (der : Bytes) {raw : Bytes} → ecdsa_signature_from_der der ≡ ok raw → length raw ≡ 64
unfolding ecdsa_signature_from_der
from_der_bounds [] h = cc
from_der_bounds (tag ∷ []) h = cc
from_der_bounds (tag ∷ len ∷ input) {raw} h =
    let (h0, k0) = then-eq-ok (ensure (tag == 0x30) invalid_signature) _ h in
    let (h1, k1) = then-eq-ok (ensure (length input == len) invalid_signature) _ k0 in
    let (first, h2, k2) = >>=-eq-ok (read_integer input) _ k1 in
    let (second, h3, k3) = >>=-eq-ok (read_integer first.1) _ k2 in
    let (h4, k4) = then-eq-ok (ensure (is_empty second.1) invalid_signature) _ k3 in
    let same : padded first.0 ++ padded second.0 ≡ raw = cc in
    let a = length-padded first.0 (read_integer_bounds input h2) in
    let b = length-padded second.0 (read_integer_bounds first.1 h3) in
    let c = length-append (padded first.0) (padded second.0) in rw (← same) (omega (arith, a, b, c))
