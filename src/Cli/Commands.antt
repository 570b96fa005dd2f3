-- ===== src/Cli/Commands.antt =====
-- crates/cli/src/main.rs: the commands on keys, and the reading of tokens.
use wimsey.Common.{
  ℕ, zero, suc, Option, none, some, List, [], ◌∷◌, Result, ok, err, ◌>>=◌, ◌>>◌, ensure, ok_or,
  map_err, is_some, length, ◌==◌, if◌then◌else◌,
}
use wimsey.Text.{Str, Bytes, codes, trim, split}
use wimsey.Jose.Primitives.{Crypto, Base64}
use wimsey.Jose.Algorithm
use wimsey.Jose.Algorithm.{Algorithm, ed_dsa, es256}
use wimsey.Jose.Key.{SigningKey, from_ed25519_seed, from_p256_scalar}
use wimsey.Jws.Json.{Json}
use wimsey.Cli.Error.{CliError, message, jose, file, json, base64, random}
use wimsey.Cli.Key
use wimsey.Cli.Key.{JwkKey, load, to_public}

-- `nth(index)`
abbrev nth : List Str → ℕ → Option Str
nth [] n = none
nth (s ∷ ss) zero = some s
nth (s ∷ ss) (suc n) = nth ss n

unfoldable pub decode_part : Base64 → Str → ℕ → Result CliError Bytes
decode_part url_safe token index = do
  part ←
      ok_or (nth (split b'.' token) index)
        (message (codes "token does not have the expected number of parts"))
  ok_or (url_safe.decode part) base64

-- `read_token`, over `read_to_string`.
unfoldable pub read_token : (Str → Option Str) → Option Str → Option Str → Result CliError Str
read_token read (some token) path = ok (trim token)
read_token read none (some path) = do text ← ok_or (read path) file; ok (trim text)
read_token read none none = err (message (codes "provide --token or --token-file"))

-- `WitCmd::Inspect`, over the reading of any JSON value.
unfoldable pub inspect :
    {Value : Type 0}
    → Base64
    → (Bytes → Option Value)
    → (Str → Option Str)
    → Option Str
    → Option Str
    → Result CliError (Value × Value)
unfolding decode_part read_token
inspect url_safe from_slice read given path = do
  token ← read_token read given path
  header_bytes ← decode_part url_safe token 0
  header ← ok_or (from_slice header_bytes) json
  claims_bytes ← decode_part url_safe token 1
  claims ← ok_or (from_slice claims_bytes) json
  ok (header, claims)

module _ (c : Crypto) (url_safe : Base64) where
  -- The seed that is given, of 32 bytes, or a random one.
  abbrev secret_of : Option Str → Option Bytes → Result CliError Bytes
  secret_of none fill = ok_or fill random
  secret_of (some seed) fill = do
    bytes ← ok_or (url_safe.decode (trim seed)) base64
    ensure (length bytes == 32) (message (codes "seed is not 32 bytes"))
    ok bytes

  abbrev key_of : Algorithm → Bytes → Result CliError (SigningKey c)
  key_of ed_dsa secret = ok (from_ed25519_seed secret)
  key_of es256 secret =
      map_err (λ e. message (codes "the seed is not a valid P-256 scalar"))
        (from_p256_scalar secret)

  -- `KeyCmd::Generate`
  unfoldable pub generate_key : Str → Option Str → Option Bytes → Result CliError JwkKey
  generate_key alg seed fill = do
    algorithm ← map_err jose (Algorithm.parse (trim alg))
    secret ← secret_of seed fill
    signing_key ← key_of algorithm secret
    ok (Key.from_signing_key url_safe signing_key)

  -- The check before an export: of both halves, or of the public one.
  abbrev check_key : JwkKey → Result CliError Unit
  check_key jwk =
      if is_some jwk.d
      then Key.signing_key {c = c} url_safe jwk >> ok tt
      else Key.verifying_key {c = c} url_safe jwk >> ok tt

  module _ (key_json : Json JwkKey) (read : Str → Option Bytes) where
    -- `KeyCmd::Public`
    unfoldable pub public_key : Str → Result CliError JwkKey
    public_key path = do jwk ← load read key_json path; check_key jwk; ok (to_public jwk)
