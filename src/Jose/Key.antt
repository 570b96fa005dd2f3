-- ===== src/Jose/Key.antt =====
-- crates/jose/src/key.rs: signing and verifying keys.
use wimsey.Common.{ℕ, Bool, true, false, ◌≡◌, refl, Result, ok, ◌>>◌, ensure, ok_or, ◌==◌, length}
use mathlib.Core.Option
use wimsey.Text.{Bytes}
use wimsey.Jose.Primitives.{Crypto, IsCorrectCrypto}
use wimsey.Jose.Algorithm.{Algorithm, ed_dsa, es256, JoseError, invalid_key, invalid_signature}

abbrev pub signature_len : ℕ
signature_len = 64

pub data SigningKey (c : Crypto) : Type 0 where
  ed25519 : c.ed25519.Secret → SigningKey c
  p256 : c.p256.Secret → SigningKey c

pub data VerifyingKey (c : Crypto) : Type 0 where
  ed25519 : c.ed25519.Public → VerifyingKey c
  p256 : c.p256.Public → VerifyingKey c

module _ {c : Crypto} where
  -- On a seed of 32 bytes, as the type of the argument says.
  abbrev pub from_ed25519_seed : Bytes → SigningKey c
  from_ed25519_seed seed = SigningKey.ed25519 (c.ed25519_secret seed)

  abbrev pub from_p256_scalar : Bytes → Result JoseError (SigningKey c)
  from_p256_scalar scalar = ok_or (Option.map SigningKey.p256 (c.p256_secret scalar)) invalid_key

  -- `SigningKey::algorithm`
  abbrev pub signing_algorithm : SigningKey c → Algorithm
  signing_algorithm (SigningKey.ed25519 k) = ed_dsa
  signing_algorithm (SigningKey.p256 k) = es256

  abbrev pub verifying_key : SigningKey c → VerifyingKey c
  verifying_key (SigningKey.ed25519 k) = VerifyingKey.ed25519 (c.ed25519.public_of k)
  verifying_key (SigningKey.p256 k) = VerifyingKey.p256 (c.p256.public_of k)

  -- `SigningKey::to_bytes`
  abbrev pub to_bytes : SigningKey c → Bytes
  to_bytes (SigningKey.ed25519 k) = c.ed25519.secret_to_bytes k
  to_bytes (SigningKey.p256 k) = c.p256.secret_to_bytes k

  unfoldable pub sign : SigningKey c → Bytes → Bytes
  sign (SigningKey.ed25519 k) message = c.ed25519.sign k message
  sign (SigningKey.p256 k) message = c.p256.sign k message

  -- `VerifyingKey::algorithm`
  abbrev pub algorithm : VerifyingKey c → Algorithm
  algorithm (VerifyingKey.ed25519 k) = ed_dsa
  algorithm (VerifyingKey.p256 k) = es256

  -- `==` on verifying keys.
  unfoldable pub key_eq : VerifyingKey c → VerifyingKey c → Bool
  key_eq (VerifyingKey.ed25519 a) (VerifyingKey.ed25519 b) = c.ed25519.public_eq a b
  key_eq (VerifyingKey.p256 a) (VerifyingKey.p256 b) = c.p256.public_eq a b
  key_eq _ _ = false

  unfoldable pub to_raw_bytes : VerifyingKey c → Bytes
  to_raw_bytes (VerifyingKey.ed25519 k) = c.ed25519.public_to_bytes k
  to_raw_bytes (VerifyingKey.p256 k) = c.p256.public_to_bytes k

  unfoldable pub from_raw_bytes : Algorithm → Bytes → Result JoseError (VerifyingKey c)
  from_raw_bytes ed_dsa bytes = do
    ensure (length bytes == 32) invalid_key
    ok_or (Option.map VerifyingKey.ed25519 (c.ed25519.public_from_bytes bytes)) invalid_key
  from_raw_bytes es256 bytes =
      ok_or (Option.map VerifyingKey.p256 (c.p256.public_from_bytes bytes)) invalid_key

  -- The scheme's own verification, on a signature of the right length.
  abbrev verify_raw : VerifyingKey c → Bytes → Bytes → Bool
  verify_raw (VerifyingKey.ed25519 k) message signature = c.ed25519.verify k message signature
  verify_raw (VerifyingKey.p256 k) message signature = c.p256.verify k message signature

  unfoldable pub verify : VerifyingKey c → Bytes → Bytes → Result JoseError Unit
  verify key message signature = do
    ensure (length signature == signature_len) invalid_signature
    ensure (verify_raw key message signature) invalid_signature

module _ {c : Crypto} (laws : IsCorrectCrypto c) where
  pub length-sign : (k : SigningKey c) (m : Bytes) → length (sign k m) ≡ 64
  unfolding sign
  length-sign (SigningKey.ed25519 k) m = laws.ed25519_scheme.sign_length k m
  length-sign (SigningKey.p256 k) m = laws.p256_scheme.sign_length k m

  -- A signature verifies under the public half of the key that made it.
  pub verify-sign : (k : SigningKey c) (m : Bytes) → verify (verifying_key k) m (sign k m) ≡ ok tt
  unfolding verify sign
  verify-sign (SigningKey.ed25519 k) m =
      rw (laws.ed25519_scheme.sign_length k m, laws.ed25519_scheme.verify_sign k m)
  verify-sign (SigningKey.p256 k) m =
      rw (laws.p256_scheme.sign_length k m, laws.p256_scheme.verify_sign k m)

  -- A public key is read back from its raw bytes under its own algorithm.
  pub from_raw_bytes-to_raw_bytes :
      (k : VerifyingKey c) → from_raw_bytes (algorithm k) (to_raw_bytes k) ≡ ok k
  unfolding from_raw_bytes to_raw_bytes
  from_raw_bytes-to_raw_bytes (VerifyingKey.ed25519 k) =
      rw (laws.ed25519_public_length k, laws.ed25519_scheme.public_bytes k)
  from_raw_bytes-to_raw_bytes (VerifyingKey.p256 k) = rw (laws.p256_scheme.public_bytes k)

  pub key_eq_refl : (k : VerifyingKey c) → key_eq k k ≡ true
  unfolding key_eq
  key_eq_refl (VerifyingKey.ed25519 k) = laws.ed25519_scheme.public_eq_refl k
  key_eq_refl (VerifyingKey.p256 k) = laws.p256_scheme.public_eq_refl k

pub algorithm-verifying_key :
    {c : Crypto} (k : SigningKey c) → algorithm (verifying_key k) ≡ signing_algorithm k
algorithm-verifying_key (SigningKey.ed25519 k) = refl
algorithm-verifying_key (SigningKey.p256 k) = refl
