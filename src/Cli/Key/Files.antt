-- ===== src/Cli/Key/Files.antt =====
-- Key files give back the keys that were written to them.
use wimsey.Common.{◌≡◌, refl, ap, true, false, [], ◌∷◌, ok, all, arith, map_err}
use wimsey.Text.{Str, trim, trim_start_matches, trim_end_matches, trim_matches, is_whitespace}
use wimsey.Jose.Primitives.{Crypto, IsCorrectCrypto, Base64, IsBase64, is_base64_char}
use wimsey.Jose.Key as Keys
use wimsey.Jose.Key.{SigningKey}
use wimsey.Jose.Jwk
use wimsey.Jose.Jwk.{to_verifying_key, from_verifying_key}
use wimsey.Jose.Accepts.{to_signing_key-from_signing_key, to_verifying_key-from_verifying_key}
use wimsey.Cli.Error.{jose}
use wimsey.Cli.Key.{from_signing_key, signing_key, verifying_key}

trim_end_solid : (s : Str) → all is_base64_char s ≡ true → trim_end_matches is_whitespace s ≡ s
unfolding trim_end_matches is_whitespace
trim_end_solid [] h = refl
trim_end_solid (c ∷ []) h = let e : is_whitespace c ≡ false = ground arith in rw e refl
trim_end_solid (c ∷ d ∷ s) h = rw (trim_end_solid (d ∷ s) (ground arith)) refl

trim_start_solid : (s : Str) → all is_base64_char s ≡ true → trim_start_matches is_whitespace s ≡ s
unfolding trim_start_matches is_whitespace
trim_start_solid [] h = refl
trim_start_solid (c ∷ s) h = let e : is_whitespace c ≡ false = ground arith in rw e refl

trim_solid : (s : Str) → all is_base64_char s ≡ true → trim s ≡ s
unfolding trim trim_matches
trim_solid s h = rw (trim_start_solid s h) (trim_end_solid s h)

module _ {c : Crypto} (laws : IsCorrectCrypto c) (b : Base64) (base64 : IsBase64 b) where
  -- Under the laws of the schemes and of Base64, the key file of a signing key gives that key.
  pub signing_key-from_signing_key :
      (k : SigningKey c) → signing_key b (from_signing_key b k) ≡ ok k
  unfolding signing_key from_signing_key Jwk.from_signing_key from_verifying_key
  signing_key-from_signing_key (SigningKey.ed25519 k) =
      let key = SigningKey.ed25519 k in
      rw
        (trim_solid (b.encode (Keys.to_bytes {c = c} key))
          (base64.encode_chars (Keys.to_bytes {c = c} key)))
        (ap (map_err jose) (to_signing_key-from_signing_key b laws base64 key))
  signing_key-from_signing_key (SigningKey.p256 k) =
      let key = SigningKey.p256 k in
      rw
        (trim_solid (b.encode (Keys.to_bytes {c = c} key))
          (base64.encode_chars (Keys.to_bytes {c = c} key)))
        (ap (map_err jose) (to_signing_key-from_signing_key b laws base64 key))

  -- The key file of a signing key also gives the public half.
  pub verifying_key-from_signing_key :
      (k : SigningKey c) → verifying_key b (from_signing_key b k) ≡ ok (Keys.verifying_key k)
  unfolding verifying_key from_signing_key Jwk.from_signing_key from_verifying_key
  verifying_key-from_signing_key (SigningKey.ed25519 k) = ap (map_err jose) (
      to_verifying_key-from_verifying_key b laws base64 (Keys.verifying_key (SigningKey.ed25519 k)))
  verifying_key-from_signing_key (SigningKey.p256 k) =
      ap (map_err jose)
        (to_verifying_key-from_verifying_key b laws base64 (Keys.verifying_key (SigningKey.p256 k)))
