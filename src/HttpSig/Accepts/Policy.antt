-- ===== src/HttpSig/Accepts/Policy.antt =====
-- Each check of the recipient's policy in `verify` decides its rule: algorithms, coverage,
-- audience and nonce.
use wimsey.Common.{
  ◌≡◌, ◌≢◌, ◌↔◌, ◌⊎◌, inl, inr, refl, ap, Bool, true, false, Option, none, some, List, [], ◌∷◌, ok,
  ensure, All, any, arith, Bool-cases, Option-cases, ensure-eq-ok, then-eq-ok,
}
use wimsey.Text.{Str, str_eq, str_eq_iff, contains_str}
use wimsey.Jose.Algorithm.{algorithm_eq_iff, Algorithm, algorithm_eq}
use wimsey.HttpSig.Message.{Component, contains}
use wimsey.HttpSig.Params.{SignatureParams}
use wimsey.HttpSig.Signature.{
  VerifyConfig, rfc9421_alg, accepts_algorithm, check_algorithm, check_required, check_audience,
  is_expected, is_nil, is_some_str, check_alg_param, check_req_nonce,
}
use wimsey.HttpSig.Accepts.{Among, IsAcceptedAlgorithm, IsForAudience, AnswersNonce}

-- `iter().any(..)` under a test that decides equality.
any_iff :
    {A : Type 0} (test : A → A → Bool)
    → ((x y : A) → (test x y ≡ true) ↔ (x ≡ y))
    → (a : A) (xs : List A) → (any (λ x. test x a) xs ≡ true) ↔ Among a xs
any_iff test decides a [] = (λ h. cc, λ h. absurd h)
any_iff test decides a (x ∷ xs) =
    let (there, back) = any_iff test decides a xs in
    let (same, known) = decides x a in
    (
      λ h. elim (Bool-cases (test x a)) [
        | inl found_it ↦ inl (same found_it)
        | inr unmet ↦ inr (there (ground arith))
      ],
      λ h. elim h [ inl eq ↦ ground (arith, known eq) | inr rest ↦ ground (arith, back rest) ],
    )

contains_str_iff : (xs : List Str) (s : Str) → (contains_str xs s ≡ true) ↔ Among s xs
unfolding contains_str
contains_str_iff [] s = (λ h. cc, λ h. absurd h)
contains_str_iff (x ∷ xs) s =
    let (there, back) = contains_str_iff xs s in
    let (same, known) = str_eq_iff x s in
    (
      λ h. elim (Bool-cases (str_eq x s)) [
        | inl found_it ↦ inl (same found_it)
        | inr unmet ↦ inr (there (ground arith))
      ],
      λ h. elim h [ inl eq ↦ ground (arith, known eq) | inr rest ↦ ground (arith, back rest) ],
    )

accepts_algorithm_iff :
    (xs : List Algorithm) (a : Algorithm)
    → (accepts_algorithm xs a ≡ true) ↔ ((xs ≡ []) ⊎ Among a xs)
accepts_algorithm_iff [] a = (λ h. inl refl, λ h. refl)
accepts_algorithm_iff (x ∷ xs) a =
    let (there, back) = any_iff algorithm_eq algorithm_eq_iff a (x ∷ xs) in
    (λ h. inr (there h), λ h. elim h [ inl nil ↦ cc | inr among ↦ back among ])

check_alg_param_iff :
    (o : Option Str) (a : Algorithm)
    → (check_alg_param o a ≡ ok tt) ↔ ((alg : Str) → o ≡ some alg → alg ≡ rfc9421_alg a)
check_alg_param_iff none a = (λ h alg eq. cc, λ h. refl)
check_alg_param_iff (some alg) a =
    let (same, known) = str_eq_iff alg (rfc9421_alg a) in
    (
      λ h alg' eq. let e : alg ≡ alg' = cc in rw (← e) (same (ensure-eq-ok _ _ h)),
      λ h. ground (arith, known (h alg refl)),
    )

pub check_algorithm_iff :
    (config : VerifyConfig) (p : SignatureParams) (a : Algorithm)
    → (check_algorithm config p a ≡ ok tt) ↔ IsAcceptedAlgorithm config p a
unfolding check_algorithm
check_algorithm_iff config p a =
    let (accepted, admits) = accepts_algorithm_iff config.accepted_algorithms a in
    let (names, agrees) = check_alg_param_iff p.alg a in
    (
      λ h.
          let (h0, h1) =
            then-eq-ok (ensure (accepts_algorithm config.accepted_algorithms a) _)
              (check_alg_param p.alg a) h in
          record { policy = accepted (ensure-eq-ok _ _ h0); named = names h1 },
      λ r. rw (admits r.policy, agrees r.named) refl,
    )

pub check_required_iff :
    (components required : List Component)
    → (check_required components required ≡ ok tt)
      ↔ All (λ r. contains components r ≡ true) required
unfolding check_required
check_required_iff components [] = (λ h. tt, λ h. refl)
check_required_iff components (r ∷ rs) =
    let (there, back) = check_required_iff components rs in
    (λ h. (ground arith, there (ground arith)), λ h. rw (h.0, back h.1) refl)

is_expected_iff :
    (audiences : List Str) (o : Option Str)
    → (is_expected audiences o ≡ true) ↔ ((aud : Str) × (o ≡ some aud) × Among aud audiences)
is_expected_iff audiences none = (λ h. cc, λ h. cc)
is_expected_iff audiences (some a) =
    let (there, back) = contains_str_iff audiences a in
    (λ h. (a, refl, there h), λ (b, eq, among). let e : a ≡ b = cc in back (rw e among))

is_nil_iff : (xs : List Str) → (is_nil xs ≡ false) ↔ (xs ≢ [])
is_nil_iff [] = (λ h. cc, λ h. absurd (h refl))
is_nil_iff (x ∷ xs) = (λ h eq. cc, λ h. refl)

pub check_audience_iff :
    (config : VerifyConfig) (p : SignatureParams)
    → (check_audience config p ≡ ok tt) ↔ IsForAudience config p
unfolding check_audience
check_audience_iff config p =
    let (found, finds) = is_expected_iff config.expected_audiences p.wimse_aud in
    let (filled, fills) = is_nil_iff config.expected_audiences in
    (
      λ h asked. elim asked [
        | inl profile ↦ found (ground arith)
        | inr list ↦ let e = fills list in found (ground arith)
      ],
      λ r. elim (Bool-cases (is_expected config.expected_audiences p.wimse_aud)) [
        | inl found_it ↦ ground arith
        | inr unmet ↦ elim (Bool-cases config.wimse_profile) [
          | inl profile ↦ cc (finds (r (inl profile)))
          | inr off ↦ elim (Bool-cases (is_nil config.expected_audiences)) [
            | inl nil ↦ ground arith
            | inr list ↦ cc (finds (r (inr (filled list))))
          ]
        ]
      ],
    )

is_some_str_iff : (o : Option Str) (s : Str) → (is_some_str o s ≡ true) ↔ (o ≡ some s)
is_some_str_iff none s = (λ h. cc, λ h. cc)
is_some_str_iff (some t) s =
    let (same, known) = str_eq_iff t s in (λ h. ap some (same h), λ h. known cc)

pub check_req_nonce_iff :
    (config : VerifyConfig) (p : SignatureParams)
    → (check_req_nonce config p ≡ ok tt) ↔ AnswersNonce config p
unfolding check_req_nonce
check_req_nonce_iff config p = elim (Option-cases config.expected_req_nonce) [
  | inl unset ↦ (λ h n eq. cc, λ r. rw unset refl)
  | inr (n, set) ↦
      let (same, known) = is_some_str_iff p.wimse_req_nonce n in
      (
        λ h m eq. let e : n ≡ m = cc in rw (← e) (same (ground arith)),
        λ r. rw (set, known (r n set)) refl,
      )
]
