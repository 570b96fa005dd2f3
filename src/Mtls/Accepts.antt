-- ===== src/Mtls/Accepts.antt =====
-- What a verified certificate promises, stated apart from `verify`, and that `verify` accepts just
-- that.
use wimsey.Common.{
  ℕ, ◌≡◌, ◌↔◌, ◌≤◌, refl, ap, true, false, not, ◌||◌, Bool, some, [], ◌∷◌, ok, ensure, ok_or,
  map_err, arith, leb, ◌==◌, then-eq-ok, >>=-eq-ok, ensure-eq-ok, ok_or-eq-ok, map_err-eq-ok,
}
use wimsey.Text.{Bytes, is_empty, str_eq_iff, str_eq_refl}
use wimsey.Identifier.{WorkloadIdentifier}
use wimsey.Jose.Primitives.{Crypto}
use wimsey.Jose.Algorithm.{Algorithm}
use wimsey.Jose.Key
use wimsey.Jose.Key.{VerifyingKey, from_raw_bytes}
use wimsey.Mtls.Error.{
  parse, time, not_valid, invalid_key, invalid_signature, unsupported_algorithm,
}
use wimsey.Mtls.Certificate.{X509Certificate, X509}
use wimsey.Mtls.Ca.{i64_max}
use wimsey.Mtls.Verify.{
  signature_oid, key_algorithm_of, is_curve, is_expected, raw_signature, uri_san, asn1_time,
  ca_verifying_key, check_signature, verify,
}
use wimsey.Mtls.Checks.{IsKeyOf, IsNamed, key_algorithm_iff, uri_san_iff}

both_true : (a b : Bool) → not (not a || not b) ≡ true → (a ≡ true) × (b ≡ true)
both_true true true h = (refl, refl)
both_true true false h = cc
both_true false b h = cc

empty-is_empty : (x : Bytes) → is_empty x ≡ true → x ≡ []
empty-is_empty [] h = refl
empty-is_empty (b ∷ x) h = cc

module _ {c : Crypto} {Time : Type 0} where
  -- The leaf names the algorithm of the authority's key, inside and outside what is signed, and
  -- the key is readable from whole octets.
  pub record IsAuthority (leaf ca : X509Certificate Time) (a : Algorithm) (key : VerifyingKey c)
      : Type 0 where
    pub algorithm : IsKeyOf a ca
    pub outer : leaf.signature_algorithm ≡ signature_oid a
    pub inner : leaf.tbs_signature_algorithm ≡ signature_oid a
    pub whole : ca.key.unused_bits ≡ 0
    pub readable : from_raw_bytes a ca.key.bytes ≡ ok key

  -- The signature of the leaf, of whole octets, verifies in the form that its key reads.
  abbrev pub IsSigned : X509Certificate Time → Algorithm → VerifyingKey c → Type 0
  IsSigned leaf a key =
      (leaf.signature_value.unused_bits ≡ 0)
      × (x : Bytes) × (raw_signature a leaf.signature_value.bytes ≡ ok x)
      × (Key.verify key leaf.tbs_certificate x ≡ ok tt)

  ca_verifying_key_iff :
      (leaf ca : X509Certificate Time) (a : Algorithm) (key : VerifyingKey c)
      → (ca_verifying_key c leaf ca ≡ ok (a, key)) ↔ IsAuthority leaf ca a key
  unfolding ca_verifying_key
  ca_verifying_key_iff leaf ca a key = (
    λ h.
        let (b, h0, k0) = >>=-eq-ok (key_algorithm_of ca.key_algorithm) _ h in
        let (h1, k1) = then-eq-ok (ensure (is_expected leaf b) unsupported_algorithm) _ k0 in
        let (h2, k2) =
          then-eq-ok (ensure (is_curve b ca.key_parameters) unsupported_algorithm) _ k1 in
        let (h3, k3) = then-eq-ok (ensure (ca.key.unused_bits == 0) invalid_key) _ k2 in
        let (k, h4, k4) =
          >>=-eq-ok (map_err (λ e. invalid_key) (from_raw_bytes b ca.key.bytes)) (λ k. ok (b, k))
            k3 in
        let (outer, inner) = both_true _ _ (ensure-eq-ok _ _ h1) in
        let whole : (ca.key.unused_bits == 0) ≡ true = ensure-eq-ok _ _ h3 in
        let made : ◌≡◌ {A = Algorithm × VerifyingKey c} (b, k) (a, key) = cc in
        let one : b ≡ a = ap (λ p. p.0) made in
        let two : k ≡ key = ap (λ p. p.1) made in
        rw (← one, ← two)
          (record {
            algorithm = (key_algorithm_iff ca b).0 (h0, ensure-eq-ok _ _ h2);
            outer = (str_eq_iff _ _).0 outer;
            inner = (str_eq_iff _ _).0 inner;
            whole = ground arith;
            readable = map_err-eq-ok _ _ k h4;
          }),
    λ r.
        let (found, curve) = (key_algorithm_iff ca a).1 r.algorithm in
        rw (found, curve, r.outer, r.inner, str_eq_refl (signature_oid a), r.whole, r.readable)
          refl,
  )

  check_signature_iff :
      (leaf : X509Certificate Time) (a : Algorithm) (key : VerifyingKey c)
      → (check_signature leaf a key ≡ ok tt) ↔ IsSigned leaf a key
  unfolding check_signature
  check_signature_iff leaf a key = (
    λ h.
        let (h0, k0) =
          then-eq-ok (ensure (leaf.signature_value.unused_bits == 0) invalid_signature) _ h in
        let (x, h1, k1) = >>=-eq-ok (raw_signature a leaf.signature_value.bytes) _ k0 in
        let whole : (leaf.signature_value.unused_bits == 0) ≡ true = ensure-eq-ok _ _ h0 in
        (ground arith, x, h1, map_err-eq-ok _ _ tt k1),
    λ (whole, x, form, good). rw (whole, form, good) refl,
  )

module _ (x : X509) where
  asn1_time_iff :
      (now : ℕ) (at : x.Time)
      → (asn1_time x now ≡ ok at) ↔ ((now ≤ i64_max) × (x.from_timestamp now ≡ some at))
  unfolding asn1_time
  asn1_time_iff now at = (
    λ h. (ground arith, ok_or-eq-ok (x.from_timestamp now) time at (ground arith)),
    λ (early, instant).
        let small : leb now i64_max ≡ true = ground arith in rw (small, instant) refl,
  )

module _ (c : Crypto) (x : X509) where
  -- Both certificates parse whole, the authority signed the leaf, and both are valid at the clock.
  pub record IsVerified (wic_der ca_der : Bytes) (now : ℕ) (id : WorkloadIdentifier) : Type 0 where
    pub leaf : X509Certificate x.Time
    pub ca : X509Certificate x.Time
    pub parsed : (x.from_der wic_der ≡ some ([], leaf)) × (x.from_der ca_der ≡ some ([], ca))
    pub signed :
        (a : Algorithm) × (key : VerifyingKey c) × IsAuthority leaf ca a key × IsSigned leaf a key
    pub valid :
        (at : x.Time) × (now ≤ i64_max)
        × (x.from_timestamp now ≡ some at)
        × (ca.is_valid_at at ≡ true)
        × (leaf.is_valid_at at ≡ true)
    pub named : IsNamed leaf id

  -- `verify` accepts a certificate under an authority's certificate at a clock, with an identifier, exactly if both parse with nothing behind them, the leaf names inside and outside the signed part the algorithm of the authority's key, that key is Ed25519 or EC on P-256, whole octets and readable, the leaf's signature is whole octets and verifies over the signed part in the raw form of that algorithm, the clock fits 63 bits and both certificates are valid at it, and the leaf has one URI name, which parses to the identifier.
  pub mtls_verify_iff :
      (wic_der ca_der : Bytes) (now : ℕ) (id : WorkloadIdentifier)
      → (verify c x wic_der ca_der now ≡ ok id) ↔ IsVerified wic_der ca_der now id
  unfolding verify
  mtls_verify_iff wic_der ca_der now id = (
    λ h.
        let ((rest_wic, leaf), h0, k0) = >>=-eq-ok (ok_or (x.from_der wic_der) parse) _ h in
        let ((rest_ca, ca), h1, k1) = >>=-eq-ok (ok_or (x.from_der ca_der) parse) _ k0 in
        let (h2, k2) = then-eq-ok (ensure _ parse) _ k1 in
        let ((a, key), h3, k3) = >>=-eq-ok (ca_verifying_key c leaf ca) _ k2 in
        let (h4, k4) = then-eq-ok (check_signature leaf a key) _ k3 in
        let (at, h5, k5) = >>=-eq-ok (asn1_time x now) _ k4 in
        let (h6, k6) = then-eq-ok (ensure _ not_valid) (uri_san leaf) k5 in
        let (whole_wic, whole_ca) = both_true _ _ (ensure-eq-ok _ _ h2) in
        let none_wic : rest_wic ≡ [] = empty-is_empty rest_wic whole_wic in
        let none_ca : rest_ca ≡ [] = empty-is_empty rest_ca whole_ca in
        let (ca_valid, leaf_valid) = both_true _ _ (ensure-eq-ok _ _ h6) in
        let (early, instant) = (asn1_time_iff x now at).0 h5 in
        record {
          leaf = leaf;
          ca = ca;
          parsed = (
            rw (← none_wic) (ok_or-eq-ok _ _ (rest_wic, leaf) h0),
            rw (← none_ca) (ok_or-eq-ok _ _ (rest_ca, ca) h1),
          );
          signed = (
            a,
            key,
            (ca_verifying_key_iff leaf ca a key).0 h3,
            (check_signature_iff leaf a key).0 h4,
          );
          valid = (at, early, instant, ca_valid, leaf_valid);
          named = (uri_san_iff leaf id).0 k6;
        },
    λ r.
        let (read_leaf, read_ca) = r.parsed in
        let (a, key, authority, signed) = r.signed in
        let (at, early, instant, ca_valid, leaf_valid) = r.valid in
        rw
          (
            read_leaf,
            read_ca,
            (ca_verifying_key_iff r.leaf r.ca a key).1 authority,
            (check_signature_iff r.leaf a key).1 signed,
            (asn1_time_iff x now at).1 (early, instant),
            ca_valid,
            leaf_valid,
          )
          ((uri_san_iff r.leaf id).1 r.named),
  )
