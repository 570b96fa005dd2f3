-- ===== src/Jose/Jwk.antt =====
-- crates/jose/src/jwk.rs: the JSON Web Key.
use wimsey.Common.{
  not, ◌||◌, Option, none, some, ◌∷◌, ◌++◌, Result, ok, ◌>>=◌, ◌>>◌, ensure, ok_or, ◌==◌, length,
  is_some,
}
use mathlib.Core.Option
use wimsey.Text.{Str, Bytes, codes, str_eq}
use wimsey.Jose.Primitives.{Crypto, Base64}
use wimsey.Jose.Algorithm
use wimsey.Jose.Algorithm.{
  Algorithm, ed_dsa, es256, JoseError, missing_alg, invalid_key, invalid_encoding,
}
use wimsey.Jose.Key.{
  SigningKey, VerifyingKey, verifying_key, from_ed25519_seed, from_p256_scalar, to_bytes, key_eq,
}

pub record Jwk : Type 0 where
  pub alg : Option Str
  pub kty : Str
  pub crv : Str
  pub x : Str
  pub y : Option Str

pub record PrivateJwk : Type 0 where
  pub alg : Option Str
  pub kty : Str
  pub crv : Str
  pub x : Str
  pub y : Option Str
  pub d : Str

-- `Jwk::validated_alg`
unfoldable pub validated_alg : Jwk → Result JoseError Algorithm
validated_alg jwk = do alg ← ok_or jwk.alg missing_alg; Algorithm.parse alg

-- `PrivateJwk::to_public`
abbrev pub to_public : PrivateJwk → Jwk
to_public k = record { alg = k.alg; kty = k.kty; crv = k.crv; x = k.x; y = k.y }

module _ (url_safe : Base64) where
  -- Exactly 32 bytes.
  unfoldable pub coordinate : Str → Result JoseError Bytes
  coordinate value = do
    bytes ← ok_or (url_safe.decode value) invalid_encoding
    ensure (length bytes == 32) invalid_key
    ok bytes

module _ {c : Crypto} (url_safe : Base64) where
  -- `Jwk::from_verifying_key`
  unfoldable pub from_verifying_key : VerifyingKey c → Jwk
  from_verifying_key (VerifyingKey.ed25519 key) = record {
    alg = some (Algorithm.as_str ed_dsa);
    kty = codes "OKP";
    crv = codes "Ed25519";
    x = url_safe.encode (c.ed25519.public_to_bytes key);
    y = none;
  }
  from_verifying_key (VerifyingKey.p256 key) = record {
    alg = some (Algorithm.as_str es256);
    kty = codes "EC";
    crv = codes "P-256";
    x = url_safe.encode (c.p256_x key);
    y = some (url_safe.encode (c.p256_y key));
  }

  -- What `alg` decides: the key type, the curve and the coordinates must agree with it.
  unfoldable pub key_for : Algorithm → Jwk → Result JoseError (VerifyingKey c)
  unfolding coordinate
  key_for ed_dsa jwk = do
    ensure
        (not (
          not (str_eq jwk.kty (codes "OKP"))
          || not (str_eq jwk.crv (codes "Ed25519"))
          || is_some jwk.y))
        invalid_key
    x ← coordinate url_safe jwk.x
    ok_or (Option.map VerifyingKey.ed25519 (c.ed25519.public_from_bytes x)) invalid_key
  key_for es256 jwk = do
    ensure (not (not (str_eq jwk.kty (codes "EC")) || not (str_eq jwk.crv (codes "P-256"))))
        invalid_key
    x ← coordinate url_safe jwk.x
    encoded_y ← ok_or jwk.y invalid_key
    y ← coordinate url_safe encoded_y
    ok_or (Option.map VerifyingKey.p256 (c.p256.public_from_bytes (0x04 ∷ (x ++ y)))) invalid_key

  -- `Jwk::to_verifying_key`
  unfoldable pub to_verifying_key : Jwk → Result JoseError (VerifyingKey c)
  unfolding key_for validated_alg
  to_verifying_key jwk = do alg ← validated_alg jwk; key_for alg jwk

  -- `PrivateJwk::from_signing_key`
  unfoldable pub from_signing_key : SigningKey c → PrivateJwk
  unfolding from_verifying_key
  from_signing_key key =
      let public = from_verifying_key (verifying_key key) in
      record {
        alg = public.alg;
        kty = public.kty;
        crv = public.crv;
        x = public.x;
        y = public.y;
        d = url_safe.encode (to_bytes key);
      }

  abbrev pub secret_for : Algorithm → Bytes → Result JoseError (SigningKey c)
  secret_for ed_dsa secret = ok (from_ed25519_seed secret)
  secret_for es256 secret = from_p256_scalar secret

  -- `PrivateJwk::to_signing_key`
  unfoldable pub to_signing_key : PrivateJwk → Result JoseError (SigningKey c)
  unfolding coordinate
  to_signing_key jwk = do
    secret ← coordinate url_safe jwk.d
    alg ← validated_alg (to_public jwk)
    signing_key ← secret_for alg secret
    public ← to_verifying_key (to_public jwk)
    ensure (key_eq (verifying_key signing_key) public) invalid_key
    ok signing_key
