-- ===== src/HttpSig/Accepts/Whole.antt =====
-- `verify` accepts exactly the signatures that meet every rule of `IsAccepted`.
use wimsey.Common.{
  ℕ, ◌≡◌, ◌↔◌, refl, Bool, true, false, some, ok, err, Result, map_err, then-eq-ok, >>=-eq-ok,
  if◌then◌else◌, ◌≤◌, u64_max,
}
use wimsey.Text.{Str, Bytes, as_bytes}
use wimsey.Jose.Primitives.{Crypto, Base64}
use wimsey.Jose.Algorithm.{JoseError}
use wimsey.Jose.Key
use wimsey.Jose.Key.{VerifyingKey, algorithm}
use wimsey.HttpSig.Error.{HttpSigError, invalid_signature}
use wimsey.HttpSig.Message.{ComponentSource}
use wimsey.HttpSig.Params.{signature_base_from_params_str}
use wimsey.HttpSig.Member.{InputMember, select_member, parse_signature}
use wimsey.HttpSig.Profile.{check_request_profile, check_response_profile}
use wimsey.HttpSig.Signature.{
  VerifyConfig, VerifiedSignature, is_profile, check_profile, check_algorithm, check_required,
  check_audience, check_req_nonce, check_times, verify_member, verify,
}
use wimsey.HttpSig.Accepts.{
  IsAccepted, IsU64, IsRequestProfile, IsResponseProfile, KeepsConnectRule,
}
use wimsey.HttpSig.Accepts.Rules.{
  check_request_profile_iff, check_response_profile_iff, check_connect_components_iff,
}
use wimsey.HttpSig.Accepts.Policy.{
  check_algorithm_iff, check_required_iff, check_audience_iff, check_req_nonce_iff,
}
use wimsey.HttpSig.Accepts.Bounds.{select_member-AllSmall}
use wimsey.HttpSig.Accepts.Times.{check_times_iff}

-- A check under a flag.
under_flag_iff :
    {P : Type 0} (flag : Bool) (check : Result HttpSigError Unit)
    → (check ≡ ok tt) ↔ P
    → ((if flag then check else ok tt) ≡ ok tt) ↔ (flag ≡ true → P)
under_flag_iff true check decides = (λ h on. decides.0 h, λ h. decides.1 (h refl))
under_flag_iff false check decides = (λ h on. cc, λ h. refl)

check_profile_iff :
    (message : ComponentSource) (config : VerifyConfig) (m : InputMember)
    → (check_profile message config m ≡ ok tt) ↔ (
        (config.wimse_profile ≡ true → IsRequestProfile m.params)
        × (config.wimse_response_profile ≡ true → IsResponseProfile m.params)
        × (is_profile config ≡ true
            → KeepsConnectRule message m.components config.wimse_response_profile))
unfolding check_profile
check_profile_iff message config m =
    let (request_in, request_out) =
      under_flag_iff config.wimse_profile _ (check_request_profile_iff m.params) in
    let (response_in, response_out) =
      under_flag_iff config.wimse_response_profile _ (check_response_profile_iff m.params) in
    let (connect_in, connect_out) =
      under_flag_iff (is_profile config) _
        (check_connect_components_iff message m.components config.wimse_response_profile) in
    (
      λ h.
          let (h0, h1) =
            then-eq-ok (if config.wimse_profile then check_request_profile m.params else ok tt) _
              h in
          let (h2, h3) =
            then-eq-ok
              (if config.wimse_response_profile then check_response_profile m.params else ok tt) _
              h1 in
          (request_in h0, response_in h2, connect_in h3),
      λ (q, r, c). rw (request_out q, response_out r) (connect_out c),
    )

abbrev verified : InputMember → VerifiedSignature
verified m = record { label = m.label; components = m.components; params = m.params }

map_err-passed :
    (r : Result JoseError Unit) → (map_err (λ e. invalid_signature) r ≡ ok tt) ↔ (r ≡ ok tt)
map_err-passed (ok tt) = (λ h. refl, λ h. refl)
map_err-passed (err e) = (λ h. cc, λ h. cc)

IsU64-selected :
    (config : VerifyConfig) (input : Str) (m : InputMember)
    → ((n : ℕ) → config.now ≡ some n → n ≤ u64_max)
    → select_member input (is_profile config) config.label ≡ ok m
    → IsU64 config m.params
IsU64-selected config input m clock chosen = record {
  now = clock;
  created = (select_member-AllSmall input (is_profile config) config.label m chosen).0;
}

module _ {c : Crypto} where
  -- What `verify` checks once the member and the signature's bytes are in hand.
  pub verify_member_iff :
      (message : ComponentSource) (m : InputMember) (signature : Bytes) (key : VerifyingKey c)
      (config : VerifyConfig) (v : VerifiedSignature)
      → IsU64 config m.params
      → (verify_member message m signature key config ≡ ok v)
        ↔ (IsAccepted message m signature key config × (v ≡ verified m))
  unfolding verify_member
  verify_member_iff message m signature key config v small =
      let (profile_in, profile_out) = check_profile_iff message config m in
      let (alg_in, alg_out) = check_algorithm_iff config m.params (algorithm key) in
      let (required_in, required_out) =
        check_required_iff m.components config.required_components in
      let (audience_in, audience_out) = check_audience_iff config m.params in
      let (nonce_in, nonce_out) = check_req_nonce_iff config m.params in
      let (times_in, times_out) = check_times_iff config m.params small in
      (
        λ h.
            let (h0, k0) = then-eq-ok (check_profile message config m) _ h in
            let (h1, k1) = then-eq-ok (check_algorithm config m.params (algorithm key)) _ k0 in
            let (base, h2, k2) =
              >>=-eq-ok (signature_base_from_params_str message m.components m.params_value) _ k1 in
            let (h3, k3) =
              then-eq-ok
                (map_err (λ e. invalid_signature) (Key.verify key (as_bytes base) signature)) _
                k2 in
            let (h4, k4) =
              then-eq-ok (check_required m.components config.required_components) _ k3 in
            let (h5, k5) = then-eq-ok (check_audience config m.params) _ k4 in
            let (h6, k6) = then-eq-ok (check_req_nonce config m.params) _ k5 in
            let (h7, k7) = then-eq-ok (check_times config m.params) _ k6 in
            let (q, r, rule) = profile_in h0 in
            (
              record {
                request_profile = q;
                response_profile = r;
                connect_rule = rule;
                accepted_algorithm = alg_in h1;
                signed = (base, h2, (map_err-passed _).0 h3);
                covered = required_in h4;
                audience = audience_in h5;
                nonce = nonce_in h6;
                fresh = times_in h7;
              },
              cc k7,
            ),
        λ (a, same).
            let (base, built, checks) = a.signed in
            rw
              (
                profile_out (a.request_profile, a.response_profile, a.connect_rule),
                alg_out a.accepted_algorithm,
                built,
                checks,
                required_out a.covered,
                audience_out a.audience,
                nonce_out a.nonce,
                times_out a.fresh,
                same,
              )
              refl,
      )

  -- What a value that `verify` returns stands for.
  abbrev pub IsVerified :
      Base64
      → ComponentSource
      → Str
      → Str
      → VerifyingKey c
      → VerifyConfig
      → VerifiedSignature
      → Type 0
  IsVerified standard message signature_input signature key config v =
      (m : InputMember) × (bytes : Bytes) × (select_member signature_input (is_profile config)
          config.label
        ≡ ok m)
      × (parse_signature standard signature m.label ≡ ok bytes)
      × IsAccepted message m bytes key config
      × (v ≡ verified m)

  -- For a 64-bit clock, `verify` returns a value exactly when a member is selected, its signature decodes to bytes, and the two meet every rule of `IsAccepted`; the value is then the label, the components and the parameters of that member.
  pub verify_iff :
      (standard : Base64) (message : ComponentSource) (signature_input signature : Str)
      (key : VerifyingKey c) (config : VerifyConfig) (v : VerifiedSignature)
      → ((n : ℕ) → config.now ≡ some n → n ≤ u64_max)
      → (verify standard message signature_input signature key config ≡ ok v)
        ↔ IsVerified standard message signature_input signature key config v
  unfolding verify
  verify_iff standard message signature_input signature key config v clock = (
    λ h.
        let (m, h0, k0) =
          >>=-eq-ok (select_member signature_input (is_profile config) config.label) _ h in
        let (bytes, h1, k1) = >>=-eq-ok (parse_signature standard signature m.label) _ k0 in
        let small = IsU64-selected config signature_input m clock h0 in
        let (accepted, same) = (verify_member_iff message m bytes key config v small).0 k1 in
        (m, bytes, h0, h1, accepted, same),
    λ (m, bytes, h0, h1, accepted, same).
        let small = IsU64-selected config signature_input m clock h0 in
        rw (h0, h1) ((verify_member_iff message m bytes key config v small).1 (accepted, same)),
  )
