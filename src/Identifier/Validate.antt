-- ===== src/Identifier/Validate.antt =====
-- crates/identifier/src/lib.rs: `validate_trust_domain`, `validate_path` and the segment checks.
use wimsey.Common.{
  ℕ, ◌+◌, ◌-◌, ◌*◌, ◌%◌, ◌^◌, Bool, true, false, not, ◌&&◌, ◌||◌, List, [], ◌∷◌, leb, ◌==◌, within,
  if◌then◌else◌, Result, ok, err, ◌>>◌, ensure, drop,
}
use wimsey.Text.{Str, Bytes, codes, len, as_bytes, split, str_eq, slice_from, first_char, is_empty}

pub data Scheme : Type 0 where
  spiffe wimse : Scheme

pub data ParseError : Type 0 where
  too_long unsupported_scheme has_query has_fragment has_user_info has_port : ParseError
  empty_trust_domain trust_domain_too_long : ParseError
  invalid_trust_domain_char : ℕ → ParseError
  empty_path_segment dot_segment : ParseError
  invalid_path_char : ℕ → ParseError
  bad_percent_encoding : ParseError
  non_normalized_percent_encoding : Str → ParseError

abbrev pub max_trust_domain_len : ℕ
max_trust_domain_len = 255

abbrev pub is_spiffe : Scheme → Bool
is_spiffe spiffe = true
is_spiffe wimse = false

-- The characters that `matches!` lists in `validate_trust_domain`.
unfoldable pub is_trust_domain_char : ℕ → Bool
is_trust_domain_char c =
    within b'a' b'z' c || within b'0' b'9' c || c == b'.' || c == b'-' || c == b'_'

-- A `for` loop over the characters that returns at the first one refused.
unfoldable pub check_chars : (ℕ → Bool) → (ℕ → ParseError) → Str → Result ParseError Unit
check_chars allowed error [] = ok tt
check_chars allowed error (c ∷ s) = ensure (allowed c) (error c) >> check_chars allowed error s

unfoldable pub validate_trust_domain : Scheme → Str → Result ParseError Unit
unfolding check_chars
validate_trust_domain scheme td = do
  ensure (not (is_empty td)) empty_trust_domain
  ensure (not (is_spiffe scheme && not (leb (len td) max_trust_domain_len))) trust_domain_too_long
  check_chars is_trust_domain_char invalid_trust_domain_char td

unfoldable pub is_spiffe_char : ℕ → Bool
is_spiffe_char c =
    within b'A' b'Z' c
    || within b'a' b'z' c
    || within b'0' b'9' c
    || c == b'.'
    || c == b'-'
    || c == b'_'

unfoldable pub validate_spiffe_segment : Str → Result ParseError Unit
unfolding check_chars
validate_spiffe_segment = check_chars is_spiffe_char invalid_path_char

unfoldable pub is_ascii_hexdigit : ℕ → Bool
is_ascii_hexdigit b = within b'0' b'9' b || within b'a' b'f' b || within b'A' b'F' b

unfoldable pub is_ascii_lowercase : ℕ → Bool
is_ascii_lowercase b = within b'a' b'z' b

-- `u8` arithmetic: subtraction is reached only above `b'0'` and `b'A'`.
unfoldable pub decode_hex : ℕ → ℕ
decode_hex b = if within b'0' b'9' b then b - b'0' else (b + 2 ^ 8 - b'A' + 10) % 2 ^ 8

unfoldable pub is_unreserved_byte : ℕ → Bool
is_unreserved_byte b =
    within b'A' b'Z' b
    || within b'a' b'z' b
    || within b'0' b'9' b
    || b == b'-'
    || b == b'.'
    || b == b'_'
    || b == b'~'

unfoldable pub is_pchar_byte : ℕ → Bool
unfolding is_unreserved_byte
is_pchar_byte b =
    is_unreserved_byte b
    || b == b'!'
    || b == b'$'
    || b == b'&'
    || b == b'\''
    || b == b'('
    || b == b')'
    || b == b'*'
    || b == b'+'
    || b == b','
    || b == b';'
    || b == b'='
    || b == b':'
    || b == b'@'

-- The checks on the two bytes behind a `%`.
unfoldable pub check_escape : ℕ → ℕ → Result ParseError Unit
check_escape h l = do
  ensure (is_ascii_hexdigit h && is_ascii_hexdigit l) bad_percent_encoding
  ensure (not (is_ascii_lowercase h || is_ascii_lowercase l))
      (non_normalized_percent_encoding (h ∷ l ∷ []))
  ensure (not (is_unreserved_byte ((decode_hex h * 16 + decode_hex l) % 2 ^ 8)))
      (non_normalized_percent_encoding (h ∷ l ∷ []))

-- One byte other than `%`, at the byte offset `i` of the segment.
unfoldable pub check_pchar : Str → ℕ → ℕ → Result ParseError Unit
check_pchar segment i b =
    ensure (is_pchar_byte b) (invalid_path_char (first_char 0xfffd (slice_from segment i)))

-- The `while` loop from the byte offset `i` on, the bytes from there given.
unfoldable pub check_bytes : Str → ℕ → Bytes → Result ParseError Unit
unfolding check_escape check_pchar
check_bytes segment i [] = ok tt
check_bytes segment i (b ∷ []) =
    if b == b'%' then err bad_percent_encoding else check_pchar segment i b
check_bytes segment i (b ∷ h ∷ []) =
    let next = check_bytes segment (i + 1) (h ∷ []) in
    if b == b'%' then err bad_percent_encoding else (check_pchar segment i b >> next)
check_bytes segment i (b ∷ h ∷ l ∷ bs) =
    let next = check_bytes segment (i + 1) (h ∷ l ∷ bs) in
    let after = check_bytes segment (i + 3) bs in
    if b == b'%' then (check_escape h l >> after) else (check_pchar segment i b >> next)

unfoldable pub validate_pchar_segment : Str → Result ParseError Unit
unfolding check_bytes
validate_pchar_segment segment = check_bytes segment 0 (as_bytes segment)

unfoldable pub validate_chars : Scheme → Str → Result ParseError Unit
unfolding validate_spiffe_segment validate_pchar_segment
validate_chars spiffe segment = validate_spiffe_segment segment
validate_chars wimse segment = validate_pchar_segment segment

unfoldable pub validate_segment : Scheme → Str → Result ParseError Unit
unfolding validate_chars
validate_segment scheme segment = do
  ensure (not (is_empty segment)) empty_path_segment
  ensure (not (str_eq segment (codes ".") || str_eq segment (codes ".."))) dot_segment
  validate_chars scheme segment

unfoldable pub validate_segments : Scheme → List Str → Result ParseError Unit
validate_segments scheme [] = ok tt
validate_segments scheme (segment ∷ rest) =
    validate_segment scheme segment >> validate_segments scheme rest

-- `path.split('/').skip(1)`
unfoldable pub validate_path : Scheme → Str → Result ParseError Unit
unfolding validate_segments
validate_path scheme [] = ok tt
validate_path scheme (c ∷ s) = validate_segments scheme (drop 1 (split b'/' (c ∷ s)))
