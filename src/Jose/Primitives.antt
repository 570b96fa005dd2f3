-- ===== src/Jose/Primitives.antt =====
-- The crates that crates/jose calls: `ed25519_dalek`, `p256` and `base64`.
use wimsey.Common.{ℕ, ◌≡◌, Bool, true, Option, some, length, all, ◌==◌, ◌||◌, within, ◌∷◌, ◌++◌}
use wimsey.Text.{Str, Bytes}

-- One signature scheme: its key types and operations. A public key read from bytes may be refused;
-- `verify` also refuses bytes that are no signature of the scheme.
pub record SignatureScheme : Type 1 where
  pub Secret : Type 0
  pub Public : Type 0
  pub secret_to_bytes : Secret → Bytes
  pub public_of : Secret → Public
  pub public_from_bytes : Bytes → Option Public
  pub public_to_bytes : Public → Bytes
  pub public_eq : Public → Public → Bool
  pub sign : Secret → Bytes → Bytes
  pub verify : Public → Bytes → Bytes → Bool

-- What is relied on: a signature is 64 bytes long and verifies under the public half of its key,
-- and a public key survives its byte form.
pub record IsCorrect (s : SignatureScheme) : Type 0 where
  pub sign_length : (k : s.Secret) (m : Bytes) → length (s.sign k m) ≡ 64
  pub verify_sign : (k : s.Secret) (m : Bytes) → s.verify (s.public_of k) m (s.sign k m) ≡ true
  pub secret_length : (k : s.Secret) → length (s.secret_to_bytes k) ≡ 32
  pub public_bytes : (p : s.Public) → s.public_from_bytes (s.public_to_bytes p) ≡ some p
  pub public_eq_refl : (p : s.Public) → s.public_eq p p ≡ true

-- Ed25519, whose seed is any 32 bytes, with strict verification; and ECDSA over P-256, whose scalar
-- may be refused, and whose public key is a point with two coordinates.
pub record Crypto : Type 1 where
  pub ed25519 : SignatureScheme
  pub ed25519_secret : Bytes → ed25519.Secret
  pub p256 : SignatureScheme
  pub p256_secret : Bytes → Option p256.Secret
  pub p256_x : p256.Public → Bytes
  pub p256_y : p256.Public → Bytes

-- Secrets survive their byte forms. An Ed25519 public key is 32 bytes; the uncompressed SEC1 form
-- of a P-256 public key is 0x04 and the two coordinates, of 32 bytes each.
pub record IsCorrectCrypto (c : Crypto) : Type 0 where
  pub ed25519_scheme : IsCorrect c.ed25519
  pub ed25519_seed : (k : c.ed25519.Secret) → c.ed25519_secret (c.ed25519.secret_to_bytes k) ≡ k
  pub ed25519_public_length : (p : c.ed25519.Public) → length (c.ed25519.public_to_bytes p) ≡ 32
  pub p256_scheme : IsCorrect c.p256
  pub p256_scalar : (k : c.p256.Secret) → c.p256_secret (c.p256.secret_to_bytes k) ≡ some k
  pub p256_x_length : (p : c.p256.Public) → length (c.p256_x p) ≡ 32
  pub p256_y_length : (p : c.p256.Public) → length (c.p256_y p) ≡ 32
  pub p256_sec1 : (p : c.p256.Public) → c.p256.public_to_bytes p ≡ 0x04 ∷ (c.p256_x p ++ c.p256_y p)

-- A Base64 engine.
pub record Base64 : Type 0 where
  pub encode : Bytes → Str
  pub decode : Str → Option Bytes

-- The characters that either engine writes.
abbrev pub is_base64_char : ℕ → Bool
is_base64_char c =
    within b'A' b'Z' c
    || within b'a' b'z' c
    || within b'0' b'9' c
    || c == b'+'
    || c == b'/'
    || c == b'-'
    || c == b'_'
    || c == b'='

pub record IsBase64 (b : Base64) : Type 0 where
  pub decode-encode : (x : Bytes) → b.decode (b.encode x) ≡ some x
  pub encode_chars : (x : Bytes) → all is_base64_char (b.encode x) ≡ true
