-- ===== src/HttpSig/Accepts.antt =====
-- What a verified signature promises, stated apart from `verify`: the rules of the profile, the
-- recipient's policy, the signature itself, coverage, audience, nonce and freshness.
pub mod Rules
pub mod Policy
pub mod Times
pub mod Bounds
pub mod Whole
use wimsey.Common.{
  ℕ, ◌+◌, ◌≤◌, ◌≡◌, ◌≢◌, ◌⊎◌, Bool, true, false, Option, none, some, List, [], ◌∷◌, ok, All,
  u64_max,
}
use wimsey.Text.{Str, Bytes, as_bytes}
use wimsey.Jose.Primitives.{Crypto}
use wimsey.Jose.Algorithm.{Algorithm}
use wimsey.Jose.Key
use wimsey.Jose.Key.{VerifyingKey, algorithm}
use wimsey.HttpSig.Message.{Component, method, path, query, req, contains, ComponentSource}
use wimsey.HttpSig.Params.{SignatureParams, signature_base_from_params_str}
use wimsey.HttpSig.Member.{InputMember, wimse_tag}
use wimsey.HttpSig.Profile.{connect, target}
use wimsey.HttpSig.Signature.{VerifyConfig, is_profile, rfc9421_alg}

abbrev pub IsPresent : {A : Type 0} → Option A → Type 0
IsPresent {A} o = (a : A) × (o ≡ some a)

abbrev pub Among : {A : Type 0} → A → List A → Type 0
Among a [] = ⊥
Among a (x ∷ xs) = (x ≡ a) ⊎ Among a xs

-- The parameters that both kinds of WIMSE signature need, and may not have.
pub record IsProfile (p : SignatureParams) : Type 0 where
  pub no_keyid : p.keyid ≡ none
  pub no_alg : p.alg ≡ none
  pub created : IsPresent p.created
  pub expires : IsPresent p.expires
  pub nonce : IsPresent p.nonce
  pub tag : p.tag ≡ some wimse_tag

pub record IsRequestProfile (p : SignatureParams) : Type 0 where
  pub shared : IsProfile p
  pub audience : IsPresent p.wimse_aud

pub record IsResponseProfile (p : SignatureParams) : Type 0 where
  pub shared : IsProfile p
  pub no_audience : p.wimse_aud ≡ none
  pub req_nonce : IsPresent p.wimse_req_nonce

-- A message whose method is `CONNECT` covers neither its path nor its query.
abbrev pub KeepsConnectRule : ComponentSource → List Component → Bool → Type 0
KeepsConnectRule message components response =
    message.component_value (target response method) ≡ ok connect
    → (contains components (target response path) ≡ false)
      × (contains components (target response query) ≡ false)

-- The recipient's policy, and the algorithm that the parameters may name.
pub record IsAcceptedAlgorithm (config : VerifyConfig) (p : SignatureParams) (a : Algorithm)
    : Type 0 where
  pub policy : (config.accepted_algorithms ≡ []) ⊎ Among a config.accepted_algorithms
  pub named : (alg : Str) → p.alg ≡ some alg → alg ≡ rfc9421_alg a

-- One of the recipient's audiences, where the check is asked for.
abbrev pub IsForAudience : VerifyConfig → SignatureParams → Type 0
IsForAudience config p =
    (config.wimse_profile ≡ true) ⊎ (config.expected_audiences ≢ [])
    → (aud : Str) × (p.wimse_aud ≡ some aud) × Among aud config.expected_audiences

abbrev pub AnswersNonce : VerifyConfig → SignatureParams → Type 0
AnswersNonce config p = (n : Str) → config.expected_req_nonce ≡ some n → p.wimse_req_nonce ≡ some n

-- The times, in plain arithmetic: the leeway never wraps, nor does the age go below zero.
pub record IsFresh (config : VerifyConfig) (p : SignatureParams) : Type 0 where
  pub window : (c e : ℕ) → p.created ≡ some c → p.expires ≡ some e → c ≤ e
  pub clock : IsPresent config.max_age → IsPresent config.now
  pub unexpired : (n e : ℕ) → config.now ≡ some n → p.expires ≡ some e → n ≤ e + config.leeway
  pub not_future : (n c : ℕ) → config.now ≡ some n → p.created ≡ some c → c ≤ n + config.leeway
  pub recent :
      (n age : ℕ)
      → config.now ≡ some n
      → config.max_age ≡ some age
      → (c : ℕ) × (p.created ≡ some c) × (n ≤ c + age)

-- The clock and the times received are 64-bit numbers.
pub record IsU64 (config : VerifyConfig) (p : SignatureParams) : Type 0 where
  pub now : (n : ℕ) → config.now ≡ some n → n ≤ u64_max
  pub created : (c : ℕ) → p.created ≡ some c → c ≤ u64_max

module _ {c : Crypto} where
  pub record IsAccepted (message : ComponentSource) (m : InputMember) (signature : Bytes)
      (key : VerifyingKey c) (config : VerifyConfig) : Type 0 where
    pub request_profile : config.wimse_profile ≡ true → IsRequestProfile m.params
    pub response_profile : config.wimse_response_profile ≡ true → IsResponseProfile m.params
    pub connect_rule :
        is_profile config ≡ true
        → KeepsConnectRule message m.components config.wimse_response_profile
    pub accepted_algorithm : IsAcceptedAlgorithm config m.params (algorithm key)
    pub signed :
        (base : Str) × (signature_base_from_params_str message m.components m.params_value
          ≡ ok base)
        × (Key.verify key (as_bytes base) signature ≡ ok tt)
    pub covered : All (λ r. contains m.components r ≡ true) config.required_components
    pub audience : IsForAudience config m.params
    pub nonce : AnswersNonce config m.params
    pub fresh : IsFresh config m.params
