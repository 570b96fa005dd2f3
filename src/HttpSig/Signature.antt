-- ===== src/HttpSig/Signature.antt =====
-- crates/httpsig/src/signature.rs: `sign` and `verify`.
use wimsey.Common.{
  ℕ, ◌-◌, Bool, true, false, not, ◌&&◌, ◌||◌, Option, none, some, List, [], ◌∷◌, ◌++◌, Result, ok,
  err, ◌>>=◌, ◌>>◌, ensure, map_err, is_some, is_none, any, leb, if◌then◌else◌, saturating_add,
}
use wimsey.Text.{Str, Bytes, codes, str_eq, as_bytes, contains_str}
use wimsey.Jose.Primitives.{Crypto, Base64}
use wimsey.Jose.Algorithm
use wimsey.Jose.Algorithm.{Algorithm, ed_dsa, es256, algorithm_eq}
use wimsey.Jose.Key
use wimsey.Jose.Key.{SigningKey, VerifyingKey, algorithm}
use wimsey.HttpSig.Error.{
  HttpSigError, missing_required_component, unsupported_alg, invalid_time_window, too_old,
  invalid_signature, expired, created_in_future, audience_mismatch, request_nonce_mismatch,
}
use wimsey.HttpSig.Message.{Component, quoted_id, contains, ComponentSource}
use wimsey.HttpSig.Params.{SignatureParams, serialize_params_value, signature_base_from_params_str}
use wimsey.HttpSig.Member.{InputMember, parse_signature, select_member}
use wimsey.HttpSig.Profile.{check_request_profile, check_response_profile, check_connect_components}

pub record SignedSignature : Type 0 where
  pub signature_input : Str
  pub signature : Str

pub record VerifiedSignature : Type 0 where
  pub label : Str
  pub components : List Component
  pub params : SignatureParams

pub record VerifyConfig : Type 0 where
  pub now : Option ℕ
  pub leeway : ℕ
  pub label : Option Str
  pub required_components : List Component
  pub max_age : Option ℕ
  pub wimse_profile : Bool
  pub expected_audiences : List Str
  pub wimse_response_profile : Bool
  pub expected_req_nonce : Option Str
  pub accepted_algorithms : List Algorithm

abbrev pub rfc9421_alg : Algorithm → Str
rfc9421_alg ed_dsa = codes "ed25519"
rfc9421_alg es256 = codes "ecdsa-p256-sha256"

abbrev pub is_profile : VerifyConfig → Bool
is_profile config = config.wimse_profile || config.wimse_response_profile

-- The two profile checks, each under its flag, and the `CONNECT` rule under either.
unfoldable pub check_profile :
    ComponentSource → VerifyConfig → InputMember → Result HttpSigError Unit
check_profile message config m = do
  (if config.wimse_profile then check_request_profile m.params else ok tt)
  (if config.wimse_response_profile then check_response_profile m.params else ok tt)
  (if is_profile config
      then check_connect_components message m.components config.wimse_response_profile
      else ok tt)

abbrev pub accepts_algorithm : List Algorithm → Algorithm → Bool
accepts_algorithm [] a = true
accepts_algorithm (x ∷ xs) a = any (λ y. algorithm_eq y a) (x ∷ xs)

abbrev pub check_alg_param : Option Str → Algorithm → Result HttpSigError Unit
check_alg_param none a = ok tt
check_alg_param (some alg) a = ensure (str_eq alg (rfc9421_alg a)) (unsupported_alg alg)

unfoldable pub check_algorithm :
    VerifyConfig → SignatureParams → Algorithm → Result HttpSigError Unit
check_algorithm config params a = do
  ensure (accepts_algorithm config.accepted_algorithms a) (unsupported_alg (Algorithm.as_str a))
  check_alg_param params.alg a

-- Every required component is covered.
unfoldable pub check_required : List Component → List Component → Result HttpSigError Unit
check_required components [] = ok tt
check_required components (r ∷ rs) =
    ensure (contains components r) (missing_required_component (quoted_id r))
    >> check_required components rs

abbrev pub is_expected : List Str → Option Str → Bool
is_expected audiences none = false
is_expected audiences (some aud) = contains_str audiences aud

abbrev pub is_nil : List Str → Bool
is_nil [] = true
is_nil (x ∷ xs) = false

unfoldable pub check_audience : VerifyConfig → SignatureParams → Result HttpSigError Unit
check_audience config params =
    ensure
      (not (
        (config.wimse_profile || not (is_nil config.expected_audiences))
        && not (is_expected config.expected_audiences params.wimse_aud)))
      audience_mismatch

abbrev pub is_some_str : Option Str → Str → Bool
is_some_str none s = false
is_some_str (some t) s = str_eq t s

unfoldable pub check_req_nonce : VerifyConfig → SignatureParams → Result HttpSigError Unit
check_req_nonce config params = elim config.expected_req_nonce [
  | none ↦ ok tt
  | some expected ↦ ensure (is_some_str params.wimse_req_nonce expected) request_nonce_mismatch
]

-- `expires` does not precede `created`.
abbrev pub in_order : Option ℕ → Option ℕ → Bool
in_order none expires = true
in_order (some created) none = true
in_order (some created) (some expires) = leb created expires

abbrev pub check_expires : ℕ → ℕ → Option ℕ → Result HttpSigError Unit
check_expires now leeway none = ok tt
check_expires now leeway (some expires) = ensure (leb now (saturating_add expires leeway)) expired

abbrev pub check_created : ℕ → ℕ → Option ℕ → Result HttpSigError Unit
check_created now leeway none = ok tt
check_created now leeway (some created) =
    ensure (leb created (saturating_add now leeway)) created_in_future

abbrev pub check_age : ℕ → Option ℕ → Option ℕ → Result HttpSigError Unit
check_age now none created = ok tt
check_age now (some max_age) none = err too_old
check_age now (some max_age) (some created) = ensure (leb (now - created) max_age) too_old

abbrev pub check_now : VerifyConfig → SignatureParams → Option ℕ → Result HttpSigError Unit
check_now config params none = ok tt
check_now config params (some now) = do
  check_expires now config.leeway params.expires
  check_created now config.leeway params.created
  check_age now config.max_age params.created

unfoldable pub check_times : VerifyConfig → SignatureParams → Result HttpSigError Unit
check_times config params = do
  ensure (in_order params.created params.expires) invalid_time_window
  ensure (not (is_some config.max_age && is_none config.now)) too_old
  check_now config params config.now

-- The checks on a parsed member and a decoded signature, in the order of `verify`.
module _ {c : Crypto} where
  unfoldable pub verify_member :
      ComponentSource
      → InputMember
      → Bytes
      → VerifyingKey c
      → VerifyConfig
      → Result HttpSigError VerifiedSignature
  unfolding check_profile check_algorithm check_required check_audience check_req_nonce check_times
  verify_member message m sig_bytes key config = do
    check_profile message config m
    check_algorithm config m.params (algorithm key)
    base ← signature_base_from_params_str message m.components m.params_value
    map_err (λ e. invalid_signature) (Key.verify key (as_bytes base) sig_bytes)
    check_required m.components config.required_components
    check_audience config m.params
    check_req_nonce config m.params
    check_times config m.params
    ok (record { label = m.label; components = m.components; params = m.params })

  unfoldable pub verify :
      Base64
      → ComponentSource
      → Str
      → Str
      → VerifyingKey c
      → VerifyConfig
      → Result HttpSigError VerifiedSignature
  unfolding verify_member
  verify standard message signature_input signature key config = do
    m ← select_member signature_input (is_profile config) config.label
    sig_bytes ← parse_signature standard signature m.label
    verify_member message m sig_bytes key config

  unfoldable pub sign :
      Base64
      → ComponentSource
      → List Component
      → SignatureParams
      → Str
      → SigningKey c
      → Result HttpSigError SignedSignature
  sign standard message components params label key =
      let params_value = serialize_params_value components params in
      do
        base ← signature_base_from_params_str message components params_value
        ok (record {
          signature_input = label ++ (b'=' ∷ params_value);
          signature =
              label
              ++ (codes "=:" ++ (standard.encode (Key.sign key (as_bytes base)) ++ codes ":"));
        })
