-- ===== src/Cli/Key.antt =====
-- crates/cli/src/key.rs: the private JSON Web Key files.
pub mod Files
use wimsey.Common.{
  Option, none, some, ◌&&◌, ◌∷◌, ◌++◌, Result, ok, err, ◌>>=◌, ok_or, map_err, if◌then◌else◌,
}
use wimsey.Text.{Str, Bytes, codes, str_eq, trim}
use wimsey.Jose.Primitives.{Crypto, Base64}
use wimsey.Jose.Key.{SigningKey, VerifyingKey}
use wimsey.Jose.Jwk
use wimsey.Jose.Jwk.{Jwk, PrivateJwk, to_signing_key, to_verifying_key}
use wimsey.Jws.Json.{Json}
use wimsey.Cli.Error.{CliError, message, jose, file, json}

pub record JwkKey : Type 0 where
  pub alg : Option Str
  pub kty : Str
  pub crv : Str
  pub x : Str
  pub y : Option Str
  pub d : Option Str

-- `JwkKey::to_public`
abbrev pub to_public : JwkKey → JwkKey
to_public k = record { alg = k.alg; kty = k.kty; crv = k.crv; x = k.x; y = k.y; d = none }

-- The algorithm named, or the one of the key type.
abbrev pub alg_of : Option Str → Str → Str → Result CliError Str
alg_of (some alg) kty crv = ok alg
alg_of none kty crv =
    if str_eq kty (codes "OKP") && str_eq crv (codes "Ed25519")
    then ok (codes "EdDSA")
    else if str_eq kty (codes "EC") && str_eq crv (codes "P-256")
    then ok (codes "ES256")
    else err (message (codes "unsupported key: kty=" ++ (kty ++ (codes ", crv=" ++ crv))))

-- `JwkKey::public_jwk`
unfoldable pub public_jwk : JwkKey → Result CliError Jwk
public_jwk k = do
  alg ← alg_of k.alg k.kty k.crv
  ok (record { alg = some alg; kty = k.kty; crv = k.crv; x = k.x; y = k.y })

-- The private key as `signing_key` hands it on.
abbrev pub private_jwk : Jwk → Str → PrivateJwk
private_jwk public d = record {
  alg = public.alg;
  kty = public.kty;
  crv = public.crv;
  x = public.x;
  y = public.y;
  d = trim d;
}

module _ {c : Crypto} (url_safe : Base64) where
  -- `JwkKey::from_signing_key`
  unfoldable pub from_signing_key : SigningKey c → JwkKey
  from_signing_key key =
      let jwk = Jwk.from_signing_key url_safe key in
      record { alg = jwk.alg; kty = jwk.kty; crv = jwk.crv; x = jwk.x; y = jwk.y; d = some jwk.d }

  -- `JwkKey::signing_key`
  unfoldable pub signing_key : JwkKey → Result CliError (SigningKey c)
  unfolding public_jwk
  signing_key k = do
    public ← public_jwk k
    d ← ok_or k.d (message (codes "key file has no private component `d`"))
    map_err jose (to_signing_key url_safe (private_jwk public d))

  -- `JwkKey::verifying_key`
  unfoldable pub verifying_key : JwkKey → Result CliError (VerifyingKey c)
  unfolding public_jwk
  verifying_key k = do public ← public_jwk k; map_err jose (to_verifying_key url_safe public)

-- `load`
unfoldable pub load : (Str → Option Bytes) → Json JwkKey → Str → Result CliError JwkKey
load read key_json path = do bytes ← ok_or (read path) file; ok_or (key_json.from_slice bytes) json
