-- ===== src/Mtls/Checks.antt =====
-- What the two certificates must say, and that the checks decide it.
use wimsey.Common.{
  ◌≡◌, ◌↔◌, refl, ap, true, Option, none, some, List, [], ◌∷◌, ok, ok_or, arith, >>=-eq-ok,
  ok_or-eq-ok, map_err-eq-ok,
}
use wimsey.Text.{Str, str_eq, str_eq_iff, str_eq_refl}
use wimsey.Identifier
use wimsey.Identifier.{WorkloadIdentifier}
use wimsey.Jose.Algorithm.{Algorithm, ed_dsa, es256}
use wimsey.Mtls.Error.{parse, missing_identifier, identifier}
use wimsey.Mtls.Certificate.{
  Oid, GeneralName, X509Certificate, oid_sig_ed25519, oid_key_type_ec_public_key,
}
use wimsey.Mtls.Verify.{oid_ec_p256, key_algorithm_of, is_curve, uris, only_uri, uri_san}

only_uri_iff :
    (us : List Str) (id : WorkloadIdentifier)
    → (only_uri us ≡ ok id) ↔ ((u : Str) × (us ≡ u ∷ []) × (Identifier.parse u ≡ ok id))
only_uri_iff [] id = (λ h. cc, λ (u, e, good). cc)
only_uri_iff (u ∷ []) id = (
  λ h. (u, refl, map_err-eq-ok identifier _ id h),
  λ (v, e, good). let same : u ≡ v = cc in rw same (rw good refl),
)
only_uri_iff (u ∷ v ∷ us) id = (λ h. cc, λ (w, e, good). cc)

curve_iff : (p : Option Oid) → (is_curve es256 p ≡ true) ↔ (p ≡ some oid_ec_p256)
curve_iff none = (λ h. cc, λ e. cc)
curve_iff (some oid) =
    (λ h. ap some ((str_eq_iff oid oid_ec_p256).0 h), λ e. (str_eq_iff oid oid_ec_p256).1 cc)

-- The two object identifiers of keys differ.
other_algorithm : key_algorithm_of oid_key_type_ec_public_key ≡ ok es256
unfolding key_algorithm_of str_eq
other_algorithm = refl

module _ {Time : Type 0} where
  -- The key of an authority is one of the algorithm: Ed25519, or EC on the curve P-256.
  abbrev pub IsKeyOf : Algorithm → X509Certificate Time → Type 0
  IsKeyOf ed_dsa ca = ca.key_algorithm ≡ oid_sig_ed25519
  IsKeyOf es256 ca =
      (ca.key_algorithm ≡ oid_key_type_ec_public_key) × (ca.key_parameters ≡ some oid_ec_p256)

  -- There is one URI among the alternative names, and it is a workload identifier.
  abbrev pub IsNamed : X509Certificate Time → WorkloadIdentifier → Type 0
  IsNamed cert id =
      (names : List GeneralName) × (cert.alternative_names ≡ some (some names))
      × (u : Str) × (uris names ≡ u ∷ [])
      × (Identifier.parse u ≡ ok id)

  pub key_algorithm_iff :
      (ca : X509Certificate Time) (a : Algorithm)
      → ((key_algorithm_of ca.key_algorithm ≡ ok a) × (is_curve a ca.key_parameters ≡ true))
        ↔ IsKeyOf a ca
  unfolding key_algorithm_of
  key_algorithm_iff ca ed_dsa = (
    λ (h, k). ground (arith, str_eq_iff ca.key_algorithm oid_sig_ed25519),
    λ e. (rw (e, str_eq_refl oid_sig_ed25519) refl, refl),
  )
  key_algorithm_iff ca es256 = (
    λ (h, k). (
      ground (arith, str_eq_iff ca.key_algorithm oid_key_type_ec_public_key),
      (curve_iff ca.key_parameters).0 k,
    ),
    λ (e, p). (rw e other_algorithm, (curve_iff ca.key_parameters).1 p),
  )

  pub uri_san_iff :
      (cert : X509Certificate Time) (id : WorkloadIdentifier)
      → (uri_san cert ≡ ok id) ↔ IsNamed cert id
  unfolding uri_san
  uri_san_iff cert id = (
    λ h.
        let (san, h0, k0) = >>=-eq-ok (ok_or cert.alternative_names parse) _ h in
        let (names, h1, k1) =
          >>=-eq-ok (ok_or san missing_identifier) (λ n. only_uri (uris n)) k0 in
        let (u, one, good) = (only_uri_iff (uris names) id).0 k1 in
        let e0 = ok_or-eq-ok cert.alternative_names _ san h0 in
        let e1 = ok_or-eq-ok san _ names h1 in (names, cc, u, one, good),
    λ (names, e, u, one, good). rw (e, one, good) refl,
  )
