-- ===== src/Issuer/Settings.antt =====
-- crates/issuer/src/main.rs: the settings that `main` reads from the environment.
use wimsey.Common.{
  ℕ, ◌<◌, ◌≡◌, true, not, Option, none, some, Result, ok, ◌>>=◌, ◌>>◌, ensure, ok_or, arith, length,
  ltb, ◌==◌, refl, then-eq-ok, >>=-eq-ok, ensure-eq-ok, ok-injective,
}
use wimsey.Text.{Str, Bytes, codes, trim, trim_end_matches, parse_u64}
use wimsey.Jose.Primitives.{Crypto, Base64}
use wimsey.Jose.Key.{SigningKey, from_ed25519_seed}
use wimsey.Jws.Json.{Json}
use wimsey.Issuer.{Issuer, Jwks, new, published, unwrap_or}

-- What stops `main` before it listens.
pub data SettingsError : Type 0 where
  invalid_ttl zero_ttl invalid_base64 invalid_seed getrandom panicked : SettingsError

-- The variables that are set, `WIMSEY_ISSUER_KEY` and so on.
pub record Environment : Type 0 where
  pub key : Option Str
  pub iss : Option Str
  pub kid : Option Str
  pub ttl : Option Str

-- `WIMSEY_ISSUER_TTL`
unfoldable pub ttl_setting : Option Str → Result SettingsError ℕ
ttl_setting none = ok 3600
ttl_setting (some value) = do
  ttl ← ok_or (parse_u64 value) invalid_ttl
  ensure (not (ttl == 0)) zero_ttl
  ok ttl

module _ (c : Crypto) (url_safe : Base64) where
  -- `load_key`, with what `getrandom` fills in.
  unfoldable pub load_key : Option Str → Option Bytes → Result SettingsError (SigningKey c)
  load_key none fill = do seed ← ok_or fill getrandom; ok (from_ed25519_seed seed)
  load_key (some seed) fill = do
    bytes ← ok_or (url_safe.decode (trim_end_matches (λ d. d == b'=') (trim seed))) invalid_base64
    ensure (length bytes == 32) invalid_seed
    ok (from_ed25519_seed bytes)

module _ (c : Crypto) (url_safe : Base64) (jwks_json : Json Jwks) where
  -- `main`, as far as the construction of the issuer.
  unfoldable pub start : Environment → Option Bytes → Result SettingsError (Issuer c)
  unfolding ttl_setting load_key
  start env fill =
      let iss = unwrap_or env.iss (codes "https://issuer.local") in
      do
        ttl ← ttl_setting env.ttl
        key ← load_key c url_safe env.key fill
        ok_or (new url_safe jwks_json key iss env.kid ttl) panicked

ttl_setting_positive : (value : Option Str) {ttl : ℕ} → ttl_setting value ≡ ok ttl → 0 < ttl
unfolding ttl_setting
ttl_setting_positive none h = let same = ok-injective h in omega (arith, same)
ttl_setting_positive (some value) {ttl} h =
    let (n, h0, k0) = >>=-eq-ok (ok_or (parse_u64 value) invalid_ttl) _ h in
    let (h1, k1) = then-eq-ok (ensure (not (n == 0)) zero_ttl) (ok n) k0 in
    let nonzero = ensure-eq-ok (not (n == 0)) zero_ttl h1 in
    let same = ok-injective k1 in ground arith

module _ (c : Crypto) (url_safe : Base64) (jwks_json : Json Jwks)
    (writes : (v : Jwks) → (x : Bytes) × (jwks_json.to_vec v ≡ some x)) where
  -- If the JWKS serializes, settings whose lifetime and key read give an issuer with that lifetime, which is above zero, and that key: the assertion in `new` cannot fail.
  pub start-ok :
      (env : Environment) (fill : Option Bytes) (ttl : ℕ) (key : SigningKey c)
      → ttl_setting env.ttl ≡ ok ttl
      → load_key c url_safe env.key fill ≡ ok key
      → (issuer : Issuer c) × (start c url_safe jwks_json env fill ≡ ok issuer)
        × (issuer.default_ttl ≡ ttl)
        × (issuer.signing_key ≡ key)
        × (0 < ttl)
  unfolding start new
  start-ok env fill ttl key read loaded =
      let positive = ttl_setting_positive env.ttl read in
      let test : ltb 0 ttl ≡ true = ground arith in
      let (x, written) = writes (published url_safe key env.kid) in
      (
        record {
          signing_key = key;
          iss = unwrap_or env.iss (codes "https://issuer.local");
          kid = env.kid;
          default_ttl = ttl;
          jwks = x;
        },
        rw (read, loaded, test, written) refl,
        refl,
        refl,
        positive,
      )
