-- ===== src/Identifier/Grammar.antt =====
-- What a workload identifier is, stated apart from the parser: the character classes of RFC 3986
-- and of the SPIFFE ID specification, segments in normalized form, and the whole URI.
use wimsey.Common.{ℕ, ◌+◌, ◌*◌, ◌≤◌, ◌≡◌, ◌≢◌, ◌⊎◌, List, [], ◌∷◌, ◌++◌, All}
use wimsey.Text.{Str, codes, len}
use wimsey.Identifier.Validate.{Scheme, spiffe, wimse}
use wimsey.Identifier.{WorkloadIdentifier, prefix}

abbrev pub IsUpper : ℕ → Type 0
IsUpper c = (b'A' ≤ c) × (c ≤ b'Z')

abbrev pub IsLower : ℕ → Type 0
IsLower c = (b'a' ≤ c) × (c ≤ b'z')

abbrev pub IsDigit : ℕ → Type 0
IsDigit c = (b'0' ≤ c) × (c ≤ b'9')

-- A character of a trust domain, under both schemes.
abbrev pub IsHostChar : ℕ → Type 0
IsHostChar c = IsLower c ⊎ (IsDigit c ⊎ ((c ≡ b'.') ⊎ ((c ≡ b'-') ⊎ (c ≡ b'_'))))

-- A character of a SPIFFE path segment.
abbrev pub IsSpiffeChar : ℕ → Type 0
IsSpiffeChar c = IsUpper c ⊎ IsHostChar c

-- RFC 3986 `unreserved`.
abbrev pub IsUnreserved : ℕ → Type 0
IsUnreserved c =
    IsUpper c ⊎ (IsLower c ⊎ (IsDigit c ⊎ ((c ≡ b'-') ⊎ ((c ≡ b'.') ⊎ ((c ≡ b'_') ⊎ (c ≡ b'~'))))))

-- RFC 3986 `sub-delims`.
abbrev pub IsSubDelim : ℕ → Type 0
IsSubDelim c =
    (c ≡ b'!')
    ⊎ ((c ≡ b'$')
        ⊎ ((c ≡ b'&')
            ⊎ ((c ≡ b'\'')
                ⊎ ((c ≡ b'(')
                    ⊎ ((c ≡ b')')
                        ⊎ ((c ≡ b'*')
                            ⊎ ((c ≡ b'+') ⊎ ((c ≡ b',') ⊎ ((c ≡ b';') ⊎ (c ≡ b'='))))))))))

-- RFC 3986 `pchar`, the escapes aside.
abbrev pub IsPlainPchar : ℕ → Type 0
IsPlainPchar c = IsUnreserved c ⊎ (IsSubDelim c ⊎ ((c ≡ b':') ⊎ (c ≡ b'@')))

-- The value of an uppercase hexadecimal digit.
pub data HexValue : ℕ → ℕ → Type 0 where
  digit : {c : ℕ} (v : ℕ) → c ≡ b'0' + v → v ≤ 9 → HexValue c v
  letter : {c : ℕ} (v : ℕ) → c ≡ b'A' + v → v ≤ 5 → HexValue c (10 + v)

-- Segments of `pchar`, with escapes in the form that normalization leaves alone: uppercase digits,
-- and no escape of an unreserved character.
pub data IsNormalPchars : Str → Type 0 where
  done : IsNormalPchars []
  plain : {c : ℕ} {s : Str} → IsPlainPchar c → IsNormalPchars s → IsNormalPchars (c ∷ s)
  escape :
      {h l v w : ℕ} {s : Str}
      → HexValue h v
      → HexValue l w
      → ¬ IsUnreserved (v * 16 + w)
      → IsNormalPchars s
      → IsNormalPchars (b'%' ∷ h ∷ l ∷ s)

abbrev pub HasSegmentChars : Scheme → Str → Type 0
HasSegmentChars spiffe s = All IsSpiffeChar s
HasSegmentChars wimse s = IsNormalPchars s

pub record IsSegment (scheme : Scheme) (s : Str) : Type 0 where
  pub nonempty : s ≢ []
  pub not_dot : s ≢ codes "."
  pub not_dot_dot : s ≢ codes ".."
  pub chars : HasSegmentChars scheme s

-- `/segment` for each segment.
abbrev pub render : List Str → Str
render [] = []
render (g ∷ gs) = b'/' ∷ (g ++ render gs)

abbrev pub FitsScheme : Scheme → Str → Type 0
FitsScheme spiffe td = len td ≤ 255
FitsScheme wimse td = Unit

pub record IsTrustDomain (scheme : Scheme) (td : Str) : Type 0 where
  pub nonempty : td ≢ []
  pub fits : FitsScheme scheme td
  pub chars : All IsHostChar td

-- The text is the identifier of this scheme, trust domain and path.
pub record IsIdentifier (input : Str) (scheme : Scheme) (td : Str) (segments : List Str)
    : Type 0 where
  pub spelled : input ≡ prefix scheme ++ (td ++ render segments)
  pub short : len input ≤ 2048
  pub domain : IsTrustDomain scheme td
  pub path : All (IsSegment scheme) segments

abbrev pub identifier : Str → Scheme → Str → WorkloadIdentifier
identifier input scheme td = record { uri = input; scheme = scheme; trust_domain_len = len td }
