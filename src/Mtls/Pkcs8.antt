-- ===== src/Mtls/Pkcs8.antt =====
-- crates/mtls/src/wic.rs: the seed of a PKCS#8 key, and the `SubjectPublicKeyInfo` of a public key.
pub mod Seeds
use wimsey.Common.{
  ℕ, Bool, true, false, ◌&&◌, ◌||◌, Option, none, some, List, [], ◌∷◌, ◌++◌, Result, ok, err, ◌>>=◌,
  ◌>>◌, ensure, ok_or, and_then, drop, ◌==◌,
}
use wimsey.Text.{Bytes, strip_prefix}
use wimsey.Jose.Primitives.{Crypto}
use wimsey.Jose.Algorithm.{Algorithm, ed_dsa, es256}
use wimsey.Jose.Key.{VerifyingKey, algorithm, to_raw_bytes}
use wimsey.Mtls.Error.{MtlsError, invalid_key, unsupported_algorithm}
use wimsey.Mtls.Der.{get_to}

-- `ED25519_SPKI_PREFIX`
abbrev pub ed25519_spki_prefix : Bytes
ed25519_spki_prefix =
    0x30 ∷ 0x2a ∷ 0x30 ∷ 0x05 ∷ 0x06 ∷ 0x03 ∷ 0x2b ∷ 0x65 ∷ 0x70 ∷ 0x03 ∷ 0x21 ∷ 0x00 ∷ []

-- `P256_SPKI_PREFIX`
abbrev pub p256_spki_prefix : Bytes
p256_spki_prefix =
    0x30 ∷ 0x59 ∷ 0x30 ∷ 0x13 ∷ 0x06 ∷ 0x07 ∷ 0x2a ∷ 0x86 ∷ 0x48 ∷ 0xce ∷ 0x3d ∷ 0x02 ∷ 0x01 ∷ 0x06
    ∷ 0x08 ∷ 0x2a ∷ 0x86 ∷ 0x48 ∷ 0xce ∷ 0x3d ∷ 0x03 ∷ 0x01 ∷ 0x07 ∷ 0x03 ∷ 0x42 ∷ 0x00 ∷ []

-- `ED25519_PKCS8_INNER`
abbrev pub ed25519_pkcs8_inner : Bytes
ed25519_pkcs8_inner =
    0x30 ∷ 0x05 ∷ 0x06 ∷ 0x03 ∷ 0x2b ∷ 0x65 ∷ 0x70 ∷ 0x04 ∷ 0x22 ∷ 0x04 ∷ 0x20 ∷ []

-- `[0x30, _, 0x02, 0x01, 0x00 | 0x01]`
abbrev pub is_header : Bytes → Bool
is_header (a ∷ b ∷ c ∷ d ∷ e ∷ []) =
    a == 0x30 && (c == 0x02 && (d == 0x01 && (e == 0x00 || e == 0x01)))
is_header _ = false

unfoldable pub ed25519_seed_from_pkcs8 : Bytes → Result MtlsError Bytes
unfolding get_to
ed25519_seed_from_pkcs8 der = do
  header ← ok_or (get_to 5 der) invalid_key
  ensure (is_header header) invalid_key
  rest ← ok_or (strip_prefix (drop 5 der) ed25519_pkcs8_inner) unsupported_algorithm
  ok_or (get_to 32 rest) invalid_key

abbrev spki_prefix : Algorithm → Bytes
spki_prefix es256 = p256_spki_prefix
spki_prefix ed_dsa = ed25519_spki_prefix

-- `spki`, over the parser of `rcgen`.
module _ {c : Crypto} {Spki : Type 0} (from_der : Bytes → Option Spki) where
  unfoldable pub spki : VerifyingKey c → Result MtlsError Spki
  spki public_key =
      ok_or (from_der (spki_prefix (algorithm public_key) ++ to_raw_bytes public_key)) invalid_key
