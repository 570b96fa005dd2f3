-- ===== src/HttpSig/Accepts/Rules.antt =====
-- Each check of the WIMSE profile in `verify` decides its rule.
use wimsey.Common.{
  none-is_none, ◌≡◌, ◌↔◌, inl, inr, refl, ap, Bool, true, Option, none, some, List, Result, ok, err,
  arith, Bool-cases, is_some, is_none, ensure-eq-ok,
}
use wimsey.Text.{Str, str_eq_iff, str_eq_refl}
use wimsey.HttpSig.Error.{HttpSigError}
use wimsey.HttpSig.Message.{Component, method, ComponentSource}
use wimsey.HttpSig.Params.{SignatureParams}
use wimsey.HttpSig.Member.{wimse_tag}
use wimsey.HttpSig.Profile.{
  connect, target, is_connect, check_tag, check_request_profile, check_response_profile,
  check_connect_components,
}
use wimsey.HttpSig.Accepts.{IsPresent, IsRequestProfile, IsResponseProfile, KeepsConnectRule}

IsPresent-is_some : {A : Type 0} (o : Option A) → is_some o ≡ true → IsPresent o
IsPresent-is_some none h = cc
IsPresent-is_some (some a) h = (a, refl)

is_some-IsPresent : {A : Type 0} (o : Option A) → IsPresent o → is_some o ≡ true
is_some-IsPresent o h = ap is_some h.1

check_tag_iff : (o : Option Str) → (check_tag o ≡ ok tt) ↔ (o ≡ some wimse_tag)
check_tag_iff none = (λ h. cc, λ h. cc)
check_tag_iff (some t) = (
  λ h. ap some ((str_eq_iff t wimse_tag).0 (ensure-eq-ok _ _ h)),
  λ h. ground (arith, h, str_eq_refl wimse_tag),
)

pub check_request_profile_iff :
    (p : SignatureParams) → (check_request_profile p ≡ ok tt) ↔ IsRequestProfile p
unfolding check_request_profile
check_request_profile_iff p = (
  λ h.
      let keyid : is_none p.keyid ≡ true = ground arith in
      let alg : is_none p.alg ≡ true = ground arith in
      let created : is_some p.created ≡ true = ground arith in
      let expires : is_some p.expires ≡ true = ground arith in
      let nonce : is_some p.nonce ≡ true = ground arith in
      let tag : check_tag p.tag ≡ ok tt = ground arith in
      let aud : is_some p.wimse_aud ≡ true = ground arith in
      record {
        shared = record {
          no_keyid = none-is_none _ keyid;
          no_alg = none-is_none _ alg;
          created = IsPresent-is_some _ created;
          expires = IsPresent-is_some _ expires;
          nonce = IsPresent-is_some _ nonce;
          tag = (check_tag_iff p.tag).0 tag;
        };
        audience = IsPresent-is_some _ aud;
      },
  λ r.
      rw
        (
          r.shared.no_keyid,
          r.shared.no_alg,
          r.shared.created.1,
          r.shared.expires.1,
          r.shared.nonce.1,
          r.shared.tag,
          r.audience.1,
          str_eq_refl wimse_tag,
        )
        refl,
)

pub check_response_profile_iff :
    (p : SignatureParams) → (check_response_profile p ≡ ok tt) ↔ IsResponseProfile p
unfolding check_response_profile
check_response_profile_iff p = (
  λ h.
      let keyid : is_none p.keyid ≡ true = ground arith in
      let alg : is_none p.alg ≡ true = ground arith in
      let created : is_some p.created ≡ true = ground arith in
      let expires : is_some p.expires ≡ true = ground arith in
      let nonce : is_some p.nonce ≡ true = ground arith in
      let tag : check_tag p.tag ≡ ok tt = ground arith in
      let aud : is_none p.wimse_aud ≡ true = ground arith in
      let req_nonce : is_some p.wimse_req_nonce ≡ true = ground arith in
      record {
        shared = record {
          no_keyid = none-is_none _ keyid;
          no_alg = none-is_none _ alg;
          created = IsPresent-is_some _ created;
          expires = IsPresent-is_some _ expires;
          nonce = IsPresent-is_some _ nonce;
          tag = (check_tag_iff p.tag).0 tag;
        };
        no_audience = none-is_none _ aud;
        req_nonce = IsPresent-is_some _ req_nonce;
      },
  λ r.
      rw
        (
          r.shared.no_keyid,
          r.shared.no_alg,
          r.shared.created.1,
          r.shared.expires.1,
          r.shared.nonce.1,
          r.shared.tag,
          r.no_audience,
          r.req_nonce.1,
          str_eq_refl wimse_tag,
        )
        refl,
)

-- The test for `CONNECT` on a value that may be missing.
is_connect_iff : (v : Result HttpSigError Str) → (is_connect v ≡ true) ↔ (v ≡ ok connect)
is_connect_iff (ok m) =
    (λ h. ap ok ((str_eq_iff m connect).0 h), λ h. ground (arith, h, str_eq_refl connect))
is_connect_iff (err e) = (λ h. cc, λ h. cc)

pub check_connect_components_iff :
    (message : ComponentSource) (components : List Component) (response : Bool)
    → (check_connect_components message components response ≡ ok tt)
      ↔ KeepsConnectRule message components response
unfolding check_connect_components
check_connect_components_iff message components response = (
  λ h v. let seen = (is_connect_iff _).1 v in (ground (arith, seen), ground (arith, seen)),
  λ r. elim (Bool-cases (is_connect (message.component_value (target response method)))) [
    | inl seen ↦ let (p, q) = r ((is_connect_iff _).0 seen) in rw (seen, p, q) refl
    | inr unseen ↦ rw unseen refl
  ],
)
