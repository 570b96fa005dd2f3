-- ===== src/Wpt/Checks.antt =====
-- What the header and the claims of a proof must say, and that the checks decide it.
use wimsey.Common.{
  ℕ, ◌+◌, ◌-◌, ◌≤◌, ◌<◌, ◌≡◌, ◌↔◌, refl, ap, subst, true, Option, none, some, [], ◌∷◌, ok, ensure,
  ok_or, map_err, arith, All, leb, ltb, is_none, Option-cases, then-eq-ok, >>=-eq-ok, ensure-eq-ok,
  u64_max, none-is_none, ok_or-eq-ok, map_err-eq-ok, saturating_add, inl, inr,
}
use mathlib.Core.Option
use wimsey.Text.{Str, Bytes, str_eq, str_eq_iff, str_eq_refl}
use wimsey.Jose.Primitives.{Base64}
use wimsey.Jose.Algorithm
use wimsey.Jose.Algorithm.{Algorithm, algorithm_eq, algorithm_eq_iff, algorithm_eq_refl}
use wimsey.Wpt.Error.{
  base64, json, expired, audience_mismatch, wit_binding_mismatch, other_token_binding_mismatch,
  algorithm_mismatch, unsupported_critical, wrong_type,
}
use wimsey.Wpt.Token.{
  typ, Header, Validation, WptClaims, Entries, get, wit_thumbprint, txn_token_thumbprint,
  other_token_entry, alg_error, check_header, check_lifetime, check_txn_token, check_entries,
  check_oth, check_claims, decode_with,
}

-- The header names the token type and the key's algorithm, and no critical extension.
pub record IsHeader (header : Header) (a : Algorithm) : Type 0 where
  pub typ : header.typ ≡ typ
  pub alg : Algorithm.parse header.alg ≡ ok a
  pub crit : header.crit ≡ none

module _ (sha256 : Bytes → Bytes) (url_safe : Base64) where
  -- An entry of `oth` names a token that was presented, and holds its hash.
  abbrev pub IsEntry : Entries → Str × Str → Type 0
  IsEntry presented e =
      (value : Str) × (get presented e.0 ≡ some value)
      × (e.1 ≡ (other_token_entry sha256 url_safe e.0 value).1)

  -- The proof is for this clock, this audience and these tokens.
  pub record IsBound (claims : WptClaims) (v : Validation) : Type 0 where
    pub unexpired : (v.now < claims.exp + v.leeway) × (v.now < u64_max)
    pub lifetime : (max : ℕ) → v.max_lifetime ≡ some max → claims.exp ≤ v.now + max
    pub audience : claims.aud ≡ v.audience
    pub wit : claims.wth ≡ wit_thumbprint sha256 url_safe v.wit
    pub txn_token : claims.tth ≡ Option.map (txn_token_thumbprint sha256 url_safe) v.txn_token
    pub others : (oth : Entries) → claims.oth ≡ some oth → All (IsEntry v.other_tokens) oth

-- A text that decodes, and the value that JSON reads from it.
abbrev pub IsDecoded : {T : Type 0} → Base64 → (Bytes → Option T) → Str → T → Type 0
IsDecoded url_safe from_slice text t =
    (x : Bytes) × (url_safe.decode text ≡ some x) × (from_slice x ≡ some t)

pub decode_with_iff :
    {T : Type 0} (url_safe : Base64) (from_slice : Bytes → Option T) (text : Str) (t : T)
    → (decode_with url_safe from_slice text ≡ ok t) ↔ IsDecoded url_safe from_slice text t
decode_with_iff url_safe from_slice text t = (
  λ h.
      let (x, found, read) =
        >>=-eq-ok (ok_or (url_safe.decode text) base64) (λ x. ok_or (from_slice x) json) h in
      (x, ok_or-eq-ok _ _ x found, ok_or-eq-ok _ _ t read),
  λ (x, found, read). rw (found, read) refl,
)

pub check_header_iff :
    (header : Header) (a : Algorithm) → (check_header header a ≡ ok tt) ↔ IsHeader header a
unfolding check_header
check_header_iff header a = (
  λ h.
      let (h0, k0) = then-eq-ok (ensure (str_eq header.typ typ) (wrong_type header.typ)) _ h in
      let (alg, h1, k1) =
        >>=-eq-ok (map_err (alg_error header.alg) (Algorithm.parse header.alg)) _ k0 in
      let (h2, h3) =
        then-eq-ok (ensure (algorithm_eq alg a) algorithm_mismatch)
          (ensure (is_none header.crit) unsupported_critical) k1 in
      let same = (algorithm_eq_iff alg a).0 (ensure-eq-ok _ _ h2) in
      record {
        typ = (str_eq_iff header.typ typ).0 (ensure-eq-ok _ _ h0);
        alg =
            subst (λ b. Algorithm.parse header.alg ≡ ok b) same
              (map_err-eq-ok (alg_error header.alg) _ alg h1);
        crit = none-is_none _ (ensure-eq-ok _ _ h3);
      },
  λ r. rw (r.typ, r.alg, r.crit, str_eq_refl typ, algorithm_eq_refl a) refl,
)

check_lifetime_iff :
    (v : Validation) (exp : ℕ)
    → (check_lifetime v exp ≡ ok tt) ↔ ((max : ℕ) → v.max_lifetime ≡ some max → exp ≤ v.now + max)
check_lifetime_iff v exp = elim (Option-cases v.max_lifetime) [
  | inl unset ↦ (λ h max e. cc, λ h. rw unset refl)
  | inr (max, set) ↦ (
    λ h m e.
        let same : max ≡ m = cc in
        let near : leb (exp - v.now) max ≡ true = ground arith in
        subst (λ n. exp ≤ v.now + n) same (ground arith),
    λ h.
        let near : exp ≤ v.now + max = h max set in
        let low : leb (exp - v.now) max ≡ true = ground arith in rw (set, low) refl,
  )
]

module _ (sha256 : Bytes → Bytes) (url_safe : Base64) where
  check_txn_token_iff :
      (txn_token tth : Option Str)
      → (check_txn_token sha256 url_safe txn_token tth ≡ ok tt)
        ↔ (tth ≡ Option.map (txn_token_thumbprint sha256 url_safe) txn_token)
  unfolding check_txn_token
  check_txn_token_iff none none = (λ h. refl, λ h. refl)
  check_txn_token_iff none (some tth) = (λ h. cc, λ h. cc)
  check_txn_token_iff (some txn_token) none = (λ h. cc, λ h. cc)
  check_txn_token_iff (some txn_token) (some tth) =
      let (same, known) = str_eq_iff tth (txn_token_thumbprint sha256 url_safe txn_token) in
      (λ h. ap some (same (ensure-eq-ok _ _ h)), λ h. rw (known cc) refl)

  check_entries_iff :
      (presented oth : Entries)
      → (check_entries sha256 url_safe presented oth ≡ ok tt)
        ↔ All (IsEntry sha256 url_safe presented) oth
  unfolding check_entries
  check_entries_iff presented [] = (λ h. tt, λ h. refl)
  check_entries_iff presented ((name, hash) ∷ rest) =
      let (there, back) = check_entries_iff presented rest in
      (
        λ h.
            let (value, h0, k0) =
              >>=-eq-ok (ok_or (get presented name) (other_token_binding_mismatch name)) _ h in
            let (h1, h2) =
              then-eq-ok
                (ensure (str_eq hash (other_token_entry sha256 url_safe name value).1)
                  (other_token_binding_mismatch name))
                (check_entries sha256 url_safe presented rest) k0 in
            (
              (value, ok_or-eq-ok _ _ value h0, (str_eq_iff hash _).0 (ensure-eq-ok _ _ h1)),
              there h2,
            ),
        λ ((value, found, same), others).
            rw
              (
                found,
                (str_eq_iff hash (other_token_entry sha256 url_safe name value).1).1 same,
                back others,
              )
              refl,
      )

  check_oth_iff :
      (presented : Entries) (oth : Option Entries)
      → (check_oth sha256 url_safe presented oth ≡ ok tt) ↔ (
          (entries : Entries)
          → oth ≡ some entries
          → All (IsEntry sha256 url_safe presented) entries)
  check_oth_iff presented none = (λ h entries e. cc, λ h. refl)
  check_oth_iff presented (some oth) =
      let (there, back) = check_entries_iff presented oth in
      (
        λ h entries e.
            let same : oth ≡ entries = cc in
            subst (All (IsEntry sha256 url_safe presented)) same (there h),
        λ h. back (h oth refl),
      )

  pub check_claims_iff :
      (claims : WptClaims) (v : Validation)
      → (check_claims sha256 url_safe claims v ≡ ok tt) ↔ IsBound sha256 url_safe claims v
  unfolding check_claims
  check_claims_iff claims v =
      let (lifetime_in, lifetime_out) = check_lifetime_iff v claims.exp in
      let (txn_in, txn_out) = check_txn_token_iff v.txn_token claims.tth in
      let (oth_in, oth_out) = check_oth_iff v.other_tokens claims.oth in
      let (aud_in, aud_out) = str_eq_iff claims.aud v.audience in
      let (wth_in, wth_out) = str_eq_iff claims.wth (wit_thumbprint sha256 url_safe v.wit) in
      (
        λ h.
            let (h0, k0) =
              then-eq-ok (ensure (ltb v.now (saturating_add claims.exp v.leeway)) expired) _ h in
            let (h1, k1) = then-eq-ok (check_lifetime v claims.exp) _ k0 in
            let (h2, k2) =
              then-eq-ok (ensure (str_eq claims.aud v.audience) audience_mismatch) _ k1 in
            let (h3, k3) =
              then-eq-ok
                (ensure (str_eq claims.wth (wit_thumbprint sha256 url_safe v.wit))
                  wit_binding_mismatch)
                _ k2 in
            let (h4, h5) =
              then-eq-ok (check_txn_token sha256 url_safe v.txn_token claims.tth)
                (check_oth sha256 url_safe v.other_tokens claims.oth) k3 in
            let early : ltb v.now (saturating_add claims.exp v.leeway) ≡ true =
              ensure-eq-ok _ _ h0 in
            record {
              unexpired = (ground arith, ground arith);
              lifetime = lifetime_in h1;
              audience = aud_in (ensure-eq-ok _ _ h2);
              wit = wth_in (ensure-eq-ok _ _ h3);
              txn_token = txn_in h4;
              others = oth_in h5;
            },
        λ r.
            let (below, small) = r.unexpired in
            let early : ltb v.now (saturating_add claims.exp v.leeway) ≡ true = ground arith in
            rw
              (
                early,
                lifetime_out r.lifetime,
                aud_out r.audience,
                wth_out r.wit,
                txn_out r.txn_token,
                oth_out r.others,
              )
              refl,
      )
