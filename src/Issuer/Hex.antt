-- ===== src/Issuer/Hex.antt =====
-- crates/issuer/src/lib.rs: `random_id`, and that it keeps its bytes apart.
use wimsey.Common.{
  Bool, true, ◌&&◌, &&-true, ==_iff, ◌==◌, ltb, ◌-◌, if◌then◌else◌, Bool-cases, inl, inr, sym, ℕ,
  zero, suc, ◌+◌, ◌*◌, ◌/◌, ◌%◌, ◌<◌, ◌≡◌, refl, ap, ◌∙◌, [], ◌∷◌, Result, ok, ok-injective, arith,
  length, All, ◌>>=◌,
}
use wimsey.Text.{Str, Bytes, codes}

-- `HEX[n]`, where `n` is below 16.
abbrev pub nth : Str → ℕ → ℕ
nth [] n = 0
nth (c ∷ s) zero = c
nth (c ∷ s) (suc n) = nth s n

abbrev pub hex : ℕ → ℕ
hex n = nth (codes "0123456789abcdef") n

-- The loop over the bytes.
unfoldable pub push_all : Bytes → Str
push_all [] = []
push_all (b ∷ bytes) = hex (b / 16) ∷ hex (b % 16) ∷ push_all bytes

-- `random_id`, on what `getrandom::fill` gives for 16 bytes.
unfoldable pub random_id : Result Str Bytes → Result Str Str
unfolding push_all
random_id fill = do bytes ← fill; ok (push_all bytes)

-- The value of a digit that `hex` gives.
abbrev unhex : ℕ → ℕ
unhex c = if ltb c b'a' then c - b'0' else c - b'a' + 10

abbrev below_all : (ℕ → Bool) → ℕ → Bool
below_all p zero = true
below_all p (suc n) = p n && below_all p n

below_all-lt : (p : ℕ → Bool) (n k : ℕ) → below_all p n ≡ true → k < n → p k ≡ true
below_all-lt p zero k h low = absurd (omega arith)
below_all-lt p (suc n) k h low =
    let (top, rest) = &&-true (p n) (below_all p n) h in
    elim (Bool-cases (k == n)) [
      | inl e ↦ let same : n ≡ k = ground arith in rw (← same) top
      | inr e ↦ below_all-lt p n k rest (ground arith)
    ]

unhex-hex : (n : ℕ) → n < 16 → unhex (hex n) ≡ n
unhex-hex n low =
    (==_iff (unhex (hex n)) n).0 (below_all-lt (λ k. unhex (hex k) == k) 16 n refl low)

hex_injective : (m n : ℕ) → m < 16 → n < 16 → hex m ≡ hex n → m ≡ n
hex_injective m n low low' e = sym (unhex-hex m low) ∙ (ap unhex e ∙ unhex-hex n low')

byte_injective :
    (a b : ℕ)
    → a < 256
    → b < 256
    → hex (a / 16) ≡ hex (b / 16)
    → hex (a % 16) ≡ hex (b % 16)
    → a ≡ b
byte_injective a b low low' high_half low_half =
    let high = hex_injective (a / 16) (b / 16) (omega arith) (omega arith) high_half in
    let rest = hex_injective (a % 16) (b % 16) (omega arith) (omega arith) low_half in
    omega (arith, high, rest)

-- Two rows of bytes for which the same identifier is written are the same row.
push_all_injective :
    (x y : Bytes) → All (λ b. b < 256) x → All (λ b. b < 256) y → push_all x ≡ push_all y → x ≡ y
unfolding push_all
push_all_injective [] [] h k e = refl
push_all_injective [] (b ∷ y) h k e = cc
push_all_injective (a ∷ x) [] h k e = cc
push_all_injective (a ∷ x) (b ∷ y) h k e =
    let one : hex (a / 16) ≡ hex (b / 16) = cc in
    let two : hex (a % 16) ≡ hex (b % 16) = cc in
    let more : push_all x ≡ push_all y = cc in
    let same : a ≡ b = byte_injective a b h.0 k.0 one two in
    let rest : x ≡ y = push_all_injective x y h.1 k.1 more in cc

length-push_all : (x : Bytes) → length (push_all x) ≡ 2 * length x
unfolding push_all
length-push_all [] = refl
length-push_all (b ∷ x) = omega (arith, length-push_all x)

-- Rows of bytes below 256 for which `random_id` gives the same identifier are the same row.
pub random_id_injective :
    (x y : Bytes)
    → All (λ b. b < 256) x
    → All (λ b. b < 256) y
    → random_id (ok x) ≡ random_id (ok y)
    → x ≡ y
unfolding random_id
random_id_injective x y h k e = push_all_injective x y h k (ok-injective e)
