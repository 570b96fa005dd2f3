-- ===== src/Identifier/Classes.antt =====
-- The tests on characters and bytes decide the character classes.
use wimsey.Common.{
  ℕ, ◌+◌, ◌-◌, ◌*◌, ◌%◌, ◌^◌, ◌<◌, ◌≡◌, ◌↔◌, inl, inr, true, false, ◌||◌, arith, Bool-cases, ok,
  ltb, within,
}
use wimsey.Identifier.Validate.{
  is_trust_domain_char, is_spiffe_char, is_unreserved_byte, is_pchar_byte, is_ascii_hexdigit,
  is_ascii_lowercase, decode_hex, check_escape,
}
use wimsey.Identifier.Grammar.{
  IsHostChar, IsSpiffeChar, IsUnreserved, IsPlainPchar, HexValue, digit, letter,
}

pub is_trust_domain_char_iff : (c : ℕ) → (is_trust_domain_char c ≡ true) ↔ IsHostChar c
unfolding is_trust_domain_char
is_trust_domain_char_iff c = (λ h. ground arith, λ h. ground arith)

pub is_spiffe_char_iff : (c : ℕ) → (is_spiffe_char c ≡ true) ↔ IsSpiffeChar c
unfolding is_spiffe_char
is_spiffe_char_iff c = (λ h. ground arith, λ h. ground arith)

pub is_unreserved_byte_iff : (c : ℕ) → (is_unreserved_byte c ≡ true) ↔ IsUnreserved c
unfolding is_unreserved_byte
is_unreserved_byte_iff c = (λ h. ground arith, λ h. ground arith)

pub is_pchar_byte_iff : (c : ℕ) → (is_pchar_byte c ≡ true) ↔ IsPlainPchar c
unfolding is_pchar_byte is_unreserved_byte
is_pchar_byte_iff c = (λ h. ground arith, λ h. ground arith)

pub HexValue-hexdigit : {c v : ℕ} → HexValue c v → is_ascii_hexdigit c ≡ true
unfolding is_ascii_hexdigit
HexValue-hexdigit (digit v e h) = ground arith
HexValue-hexdigit (letter v e h) = ground arith

pub HexValue-lowercase : {c v : ℕ} → HexValue c v → is_ascii_lowercase c ≡ false
unfolding is_ascii_lowercase
HexValue-lowercase (digit v e h) = ground arith
HexValue-lowercase (letter v e h) = ground arith

pub HexValue-decode_hex : {c v : ℕ} → HexValue c v → decode_hex c ≡ v
unfolding decode_hex
HexValue-decode_hex (digit v e h) = ground arith
HexValue-decode_hex (letter v e h) = ground arith

pub HexValue-lt : {c v : ℕ} → HexValue c v → v < 16
HexValue-lt (digit v e h) = omega arith
HexValue-lt (letter v e h) = omega arith

pub decode_hex-HexValue :
    (c : ℕ) → is_ascii_hexdigit c ≡ true → is_ascii_lowercase c ≡ false → (v : ℕ) × HexValue c v
unfolding is_ascii_hexdigit is_ascii_lowercase
decode_hex-HexValue c h k = elim (Bool-cases (within b'0' b'9' c)) [
  | inl d ↦ (c - b'0', digit (c - b'0') (ground arith) (ground arith))
  | inr d ↦ (10 + (c - b'A'), letter (c - b'A') (ground arith) (ground arith))
]

-- The byte that an escape stands for, without a wrap.
byte_of_escape :
    {h l v w : ℕ}
    → HexValue h v
    → HexValue l w
    → (decode_hex h * 16 + decode_hex l) % 2 ^ 8 ≡ v * 16 + w
byte_of_escape {h} {l} {v} {w} hv lw =
    rw (HexValue-decode_hex hv, HexValue-decode_hex lw)
      (omega (arith, HexValue-lt hv, HexValue-lt lw))

-- An escape passes exactly if its digits are uppercase ones of a character that is not unreserved.
pub check_escape_sound :
    (h l : ℕ)
    → check_escape h l ≡ ok tt
    → (v w : ℕ) × HexValue h v × HexValue l w × (¬ IsUnreserved (v * 16 + w))
unfolding check_escape
check_escape_sound h l e =
    let hex_h : is_ascii_hexdigit h ≡ true = ground arith in
    let hex_l : is_ascii_hexdigit l ≡ true = ground arith in
    let up_h : is_ascii_lowercase h ≡ false = ground arith in
    let up_l : is_ascii_lowercase l ≡ false = ground arith in
    let (v, hv) = decode_hex-HexValue h hex_h up_h in
    let (w, lw) = decode_hex-HexValue l hex_l up_l in
    let reserved : is_unreserved_byte ((decode_hex h * 16 + decode_hex l) % 2 ^ 8) ≡ false =
      ground arith in
    (
      v,
      w,
      hv,
      lw,
      λ u. cc (reserved, byte_of_escape hv lw, (is_unreserved_byte_iff (v * 16 + w)).1 u),
    )

pub check_escape_complete :
    {h l v w : ℕ}
    → HexValue h v
    → HexValue l w
    → ¬ IsUnreserved (v * 16 + w)
    → check_escape h l ≡ ok tt
unfolding check_escape
check_escape_complete {h} {l} {v} {w} hv lw out =
    let reserved : is_unreserved_byte (v * 16 + w) ≡ false =
      elim (Bool-cases (is_unreserved_byte (v * 16 + w))) [
        | inl p ↦ absurd (out ((is_unreserved_byte_iff (v * 16 + w)).0 p))
        | inr p ↦ p
      ] in
    rw (
      HexValue-hexdigit hv,
      HexValue-hexdigit lw,
      HexValue-lowercase hv,
      HexValue-lowercase lw,
      byte_of_escape hv lw,
      reserved,
    )

pub HexValue-ascii : {c v : ℕ} → HexValue c v → ltb c 0x80 ≡ true
HexValue-ascii (digit v e h) = ground arith
HexValue-ascii (letter v e h) = ground arith

pub HexValue-alnum : {c v : ℕ} → HexValue c v → within b'0' b'9' c || within b'A' b'F' c ≡ true
HexValue-alnum (digit v e h) = ground arith
HexValue-alnum (letter v e h) = ground arith
