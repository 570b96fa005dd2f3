-- ===== src/HttpSig/Signs.antt =====
-- When `sign` produces a signature.
use wimsey.Common.{
  ◌≡◌, ◌↔◌, refl, Bool, true, false, not, List, [], ◌∷◌, ◌++◌, Result, ok, err, is_ok, ensure,
  arith, All, >>=-eq-ok, then-eq-ok, ensure-eq-ok,
}
use wimsey.Text.{Str, codes}
use wimsey.Jose.Primitives.{Crypto, Base64}
use wimsey.Jose.Key.{SigningKey}
use wimsey.HttpSig.Error.{invalid_component_value, parse}
use wimsey.HttpSig.Message.{Component, quoted_id, ComponentSource}
use wimsey.HttpSig.Params.{
  SignatureParams, has_newline, base_lines, signature_base_from_params_str, serialize_params_value,
}
use wimsey.HttpSig.Signature.{sign}

-- A component that the message gives a value on one line.
abbrev pub IsOneLine : ComponentSource → Component → Type 0
IsOneLine message c = (v : Str) × (message.component_value c ≡ ok v) × (has_newline v ≡ false)

Result-cases : {E A : Type 0} (r : Result E A) → is_ok r ≡ true → (a : A) × (r ≡ ok a)
Result-cases (ok a) h = (a, refl)
Result-cases (err e) h = cc

not-true : (b : Bool) → not b ≡ true → b ≡ false
not-true b h = ground arith

base_lines-ok_iff :
    (message : ComponentSource) (cs : List Component) (last : Str)
    → (is_ok (base_lines message cs last) ≡ true) ↔ All (IsOneLine message) cs
unfolding base_lines
base_lines-ok_iff message [] last = (λ h. tt, λ h. refl)
base_lines-ok_iff message (c ∷ cs) last =
    let (there, back) = base_lines-ok_iff message cs last in
    (
      λ h.
          let (out, made) = Result-cases (base_lines message (c ∷ cs) last) h in
          let (v, h0, k0) = >>=-eq-ok (message.component_value c) _ made in
          let (h1, k1) =
            then-eq-ok (ensure (not (has_newline v)) (invalid_component_value (quoted_id c))) _
              k0 in
          let (rest, h2, k2) = >>=-eq-ok (base_lines message cs last) _ k1 in
          ((v, h0, not-true _ (ensure-eq-ok _ _ h1)), there (rw h2 refl)),
      λ ((v, found, clean), others).
          let (rest, made) = Result-cases (base_lines message cs last) (back others) in
          rw (found, clean, made) refl,
    )

signature_base-ok_iff :
    (message : ComponentSource) (cs : List Component) (value : Str)
    → (is_ok (signature_base_from_params_str message cs value) ≡ true)
      ↔ ((has_newline value ≡ false) × All (IsOneLine message) cs)
unfolding signature_base_from_params_str
signature_base-ok_iff message cs value =
    let (there, back) = base_lines-ok_iff message cs (codes "\"@signature-params\": " ++ value) in
    (
      λ h.
          let (out, made) = Result-cases (signature_base_from_params_str message cs value) h in
          let (h0, k0) =
            then-eq-ok
              (ensure (not (has_newline value))
                (parse (codes "signature parameters contain CR or LF")))
              _ made in
          (not-true _ (ensure-eq-ok _ _ h0), there (rw k0 refl)),
      λ (clean, lines). rw clean (back lines),
    )

module _ {c : Crypto} where
  -- `sign` succeeds exactly if the text of the parameters has no CR or LF and the message gives every covered component a value without CR or LF.
  pub sign_ok_iff :
      (standard : Base64) (message : ComponentSource) (components : List Component)
      (params : SignatureParams) (label : Str) (key : SigningKey c)
      → (is_ok (sign standard message components params label key) ≡ true) ↔ (
          (has_newline (serialize_params_value components params) ≡ false)
          × All (IsOneLine message) components)
  unfolding sign
  sign_ok_iff standard message components params label key =
      let (there, back) =
        signature_base-ok_iff message components (serialize_params_value components params) in
      (
        λ h.
            let (out, made) = Result-cases (sign standard message components params label key) h in
            let (base, h0, k0) =
              >>=-eq-ok
                (signature_base_from_params_str message components
                  (serialize_params_value components params))
                _ made in
            there (rw h0 refl),
        λ lines.
            let (base, made) =
              Result-cases
                (signature_base_from_params_str message components
                  (serialize_params_value components params))
                (back lines) in
            rw made refl,
      )
