-- ===== src/HttpSig/Accepts/Bounds.antt =====
-- `parse_params` reads times as 64-bit numbers.
use wimsey.Common.{
  ℕ, ◌≤◌, ◌≡◌, refl, Bool, true, false, Option, some, List, [], ◌∷◌, ok, err, ensure, ◌||◌, Result,
  ◌>>=◌, arith, Bool-cases, Option-cases, >>=-eq-ok, then-eq-ok, if◌then◌else◌, inl, inr, u64_max,
}
use wimsey.Text.{
  Str, codes, str_eq, trim, parse_u64, parse_u64_bound, split_once, is_empty, split_whitespace,
}
use wimsey.HttpSig.Error.{HttpSigError, label_mismatch}
use wimsey.HttpSig.Params.{SignatureParams, default}
use wimsey.HttpSig.Field.{parse_sf_string, split_unquoted_semicolons, split_dictionary}
use wimsey.HttpSig.Member.{
  InputMember, parse_int, parse_sf_boolean, set_param, parse_part, parse_parts, parse_params,
  parse_input_member, select_member, split_inner, parse_components, choose_member, label_agrees,
}

abbrev Small : Option ℕ → Type 0
Small o = (n : ℕ) → o ≡ some n → n ≤ u64_max

abbrev AllSmall : SignatureParams → Type 0
AllSmall p = Small p.created × Small p.expires

parse_int_bound : (raw : Str) (n : ℕ) → parse_int raw ≡ ok n → n ≤ u64_max
unfolding parse_int
parse_int_bound raw n h = elim (Option-cases (parse_u64 (trim raw))) [
  | inl missing ↦ ground arith
  | inr (m, found) ↦ let same : m ≡ n = ground arith in parse_u64_bound (trim raw) n (ground arith)
]

branches :
    {P : Type 0} {q : SignatureParams} (b : Bool) (x y : Result HttpSigError SignatureParams)
    → (x ≡ ok q → P)
    → (y ≡ ok q → P)
    → (if b then x else y) ≡ ok q
    → P
branches true x y f g h = f h
branches false x y f g h = g h

-- A parameter that is neither time leaves both as they are.
keeps :
    {A : Type 0} (p q : SignatureParams) (step : Result HttpSigError A) (f : A → SignatureParams)
    → ((a : A) → (f a).created ≡ p.created)
    → ((a : A) → (f a).expires ≡ p.expires)
    → AllSmall p
    → (step >>= λ a. ok (f a)) ≡ ok q
    → AllSmall q
keeps p q (err e) f same_c same_e small h = cc
keeps p q (ok a) f same_c same_e (c, e) h =
    let made : f a ≡ q = cc in rw (← made, same_c a, same_e a) (c, e)

set_param-AllSmall :
    (p q : SignatureParams) (name raw : Str) → AllSmall p → set_param p name raw ≡ ok q → AllSmall q
unfolding set_param
set_param-AllSmall p q name raw (c, e) =
    branches _ _ _
      (λ h.
        let (n, read, made) =
          >>=-eq-ok (parse_int raw) (λ n. ok (record p { created = some n })) h in
        let same : record p { created = some n } ≡ q = cc in
        rw (← same) ((λ m eq. let it : n ≡ m = cc in parse_int_bound raw m (rw (← it) read)), e))
      (branches _ _ _
        (λ h.
          let (n, read, made) =
            >>=-eq-ok (parse_int raw) (λ n. ok (record p { expires = some n })) h in
          let same : record p { expires = some n } ≡ q = cc in
          rw (← same) (c, (λ m eq. let it : n ≡ m = cc in parse_int_bound raw m (rw (← it) read))))
        (branches _ _ _
          (keeps p q (parse_sf_string raw) (λ s. record p { keyid = some s }) (λ s. refl)
            (λ s. refl) (c, e))
          (branches _ _ _
            (keeps p q (parse_sf_string raw) (λ s. record p { alg = some s }) (λ s. refl)
              (λ s. refl) (c, e))
            (branches _ _ _
              (keeps p q (parse_sf_string raw) (λ s. record p { nonce = some s }) (λ s. refl)
                (λ s. refl) (c, e))
              (branches _ _ _
                (keeps p q (parse_sf_string raw) (λ s. record p { tag = some s }) (λ s. refl)
                  (λ s. refl) (c, e))
                (branches _ _ _
                  (keeps p q (parse_sf_string raw) (λ s. record p { wimse_aud = some s })
                    (λ s. refl) (λ s. refl) (c, e))
                  (branches _ _ _
                    (keeps p q (parse_sf_boolean raw)
                      (λ s. record p { wimse_sign_response = some s }) (λ s. refl) (λ s. refl)
                      (c, e))
                    (branches _ _ _
                      (keeps p q (parse_sf_string raw) (λ s. record p { wimse_req_nonce = some s })
                        (λ s. refl) (λ s. refl) (c, e))
                      (keeps p q (ok tt) (λ u. p) (λ s. refl) (λ s. refl) (c, e))))))))))

parse_part-AllSmall :
    (p q : SignatureParams) (part : Str) → AllSmall p → parse_part p part ≡ ok q → AllSmall q
unfolding parse_part
parse_part-AllSmall p q part small h = elim (Option-cases (split_once b'=' part)) [
  | inl bare ↦
      let e : (if str_eq part (codes "wimse-sign-response")
            then record p { wimse_sign_response = some true }
            else p)
          ≡ q =
        ground arith in
      elim (Bool-cases (str_eq part (codes "wimse-sign-response"))) [
        | inl named ↦
            let same : record p { wimse_sign_response = some true } ≡ q = ground arith in
            rw (← same) small
        | inr other ↦ let same : p ≡ q = ground arith in rw (← same) small
      ]
  | inr (pair, found) ↦ set_param-AllSmall p q (trim pair.0) (trim pair.1) small (ground arith)
]

parse_parts-AllSmall :
    (parts : List Str) (p q : SignatureParams)
    → AllSmall p
    → parse_parts p parts ≡ ok q
    → AllSmall q
unfolding parse_parts
parse_parts-AllSmall [] p q small h = let same : p ≡ q = cc in rw (← same) small
parse_parts-AllSmall (part ∷ parts) p q small h =
    let (r, first, rest) =
      >>=-eq-ok (if is_empty (trim part) then ok p else parse_part p (trim part))
        (λ r. parse_parts r parts) h in
    parse_parts-AllSmall parts r q
      (elim (Bool-cases (is_empty (trim part))) [
        | inl empty ↦ let same : p ≡ r = ground arith in rw (← same) small
        | inr full ↦ parse_part-AllSmall p r (trim part) small (ground arith)
      ])
      rest

parse_input_member-AllSmall :
    (label member : Str) (m : InputMember)
    → parse_input_member label member ≡ ok m
    → AllSmall m.params
unfolding parse_input_member parse_params
parse_input_member-AllSmall label member m h =
    let (parts, h0, k0) = >>=-eq-ok (split_inner (trim member)) _ h in
    let (components, h1, k1) = >>=-eq-ok (parse_components (split_whitespace parts.0)) _ k0 in
    let (params, h2, k2) =
      >>=-eq-ok (parse_parts default (split_unquoted_semicolons parts.1)) _ k1 in
    let small : AllSmall params =
      parse_parts-AllSmall (split_unquoted_semicolons parts.1) default params (λ n e. cc, λ n e. cc)
        h2 in
    let same : params ≡ m.params = cc in rw (← same) small

-- A member that is selected carries 64-bit times.
pub select_member-AllSmall :
    (input : Str) (profile : Bool) (label : Option Str) (m : InputMember)
    → select_member input profile label ≡ ok m
    → AllSmall m.params
unfolding select_member
select_member-AllSmall input profile label m h =
    let (members, h0, k0) = >>=-eq-ok (split_dictionary input) _ h in
    let (member, h1, k1) = >>=-eq-ok (choose_member members profile label) _ k0 in
    let (h2, k2) =
      then-eq-ok (ensure (profile || label_agrees label member.0) label_mismatch)
        (parse_input_member member.0 member.1) k1 in
    parse_input_member-AllSmall member.0 member.1 m k2
