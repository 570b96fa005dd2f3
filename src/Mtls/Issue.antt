-- ===== src/Mtls/Issue.antt =====
-- `issue` writes certificates that `verify` accepts.
use wimsey.Common.{
  ℕ, ◌≡◌, ◌≤◌, refl, ap, subst, true, some, [], ◌∷◌, length, ok, ok_or, arith, >>=-eq-ok,
  then-eq-ok, ok_or-eq-ok, ok-injective,
}
use wimsey.Text.{Bytes}
use wimsey.Identifier
use wimsey.Identifier.{WorkloadIdentifier}
use wimsey.Jose.Primitives.{Crypto, IsCorrectCrypto}
use wimsey.Jose.Algorithm.{Algorithm, ed_dsa, es256}
use wimsey.Jose.Key
use wimsey.Jose.Key.{
  SigningKey, VerifyingKey, verifying_key, signing_algorithm, to_raw_bytes, from_raw_bytes,
  from_raw_bytes-to_raw_bytes, algorithm-verifying_key, length-sign,
}
use wimsey.Mtls.Error.{time, generate, missing_identifier}
use wimsey.Mtls.Der.Halves.{from_der-to_der}
use wimsey.Mtls.Certificate.{X509Certificate, Signer, X509, uri}
use wimsey.Mtls.Pkcs8.{spki}
use wimsey.Mtls.Ca.{
  WorkloadCa, i64_max, certificate_signature, ca_key, to_time, from_key, from_signing_key,
  ca_params, leaf_params, issue,
}
use wimsey.Mtls.Verify.{raw_signature, uris, verify}
use wimsey.Mtls.Accepts.{IsAuthority, IsSigned, mtls_verify_iff}
use wimsey.Mtls.Laws.{IsX509, IsCertified, IsIssued}

-- The DER form of a signature is read back to the raw one.
raw-certificate_signature :
    (a : Algorithm) (raw : Bytes)
    → length raw ≡ 64
    → raw_signature a (certificate_signature a raw) ≡ ok raw
raw-certificate_signature es256 raw size = from_der-to_der raw size
raw-certificate_signature ed_dsa raw size = refl

module _ (x : X509) where
  to_time-eq-ok :
      (unix : ℕ) {at : x.Time} → to_time x unix ≡ ok at → x.from_timestamp unix ≡ some at
  unfolding to_time
  to_time-eq-ok unix {at} h = ok_or-eq-ok (x.from_timestamp unix) time at (ground arith)

module _ {c : Crypto} (laws : IsCorrectCrypto c) where
  read_key :
      (key : SigningKey c)
      → from_raw_bytes (signing_algorithm key) (to_raw_bytes (verifying_key key))
        ≡ ok (verifying_key key)
  read_key key =
      subst (λ a. from_raw_bytes a (to_raw_bytes (verifying_key key)) ≡ ok (verifying_key key))
        (algorithm-verifying_key key) (from_raw_bytes-to_raw_bytes laws (verifying_key key))

  certificate-authority :
      (x : X509) (key : SigningKey c) (leaf ca : X509Certificate x.Time)
      → IsCertified x (ca_key key) ca
      → IsIssued x (ca_key key) leaf
      → IsAuthority leaf ca (signing_algorithm key) (verifying_key key)
  unfolding ca_key
  certificate-authority x key leaf ca certified issued = record {
    algorithm = certified.algorithm;
    outer = issued.outer;
    inner = issued.inner;
    whole = ap (λ b. b.unused_bits) certified.key;
    readable = rw (certified.key) (read_key key);
  }

  certificate-signature :
      (x : X509) (key : SigningKey c) (leaf : X509Certificate x.Time)
      → IsIssued x (ca_key key) leaf
      → IsSigned leaf (signing_algorithm key) (verifying_key key)
  unfolding ca_key
  certificate-signature x key leaf issued =
      let raw = Key.sign key leaf.tbs_certificate in
      let size = length-sign laws key leaf.tbs_certificate in
      (
        ap (λ b. b.unused_bits) issued.signature,
        raw,
        rw (issued.signature) (raw-certificate_signature (signing_algorithm key) raw size),
        Key.verify-sign laws key leaf.tbs_certificate,
      )

module _ (x : X509) where
  -- A certificate is valid from the start to the end.
  abbrev IsValid : ℕ → ℕ → X509Certificate x.Time → Type 0
  IsValid start end cert =
      (now : ℕ) (at : x.Time)
      → x.from_timestamp now ≡ some at
      → start ≤ now
      → now ≤ end
      → cert.is_valid_at at ≡ true

  -- The authority keeps the key, and its certificate parses.
  abbrev IsRead : Signer → ℕ → ℕ → WorkloadCa x → Type 0
  IsRead signer start end ca =
      (cert : X509Certificate x.Time) × (x.from_der ca.certificate_der ≡ some ([], cert))
      × IsCertified x signer cert
      × IsValid start end cert
      × (ca.key ≡ signer)

module _ (x : X509) (certificates : IsX509 x) where
  from_key-reads :
      (signer : Signer) (start end : ℕ) {ca : WorkloadCa x}
      → from_key x signer start end ≡ ok ca
      → IsRead x signer start end ca
  unfolding from_key
  from_key-reads signer start end {ca} made =
      let (h0, k0) = then-eq-ok (ok_or x.new generate) _ made in
      let (from, h1, k1) = >>=-eq-ok (to_time x start) _ k0 in
      let (until, h2, k2) = >>=-eq-ok (to_time x end) _ k1 in
      let (der, h3, k3) =
        >>=-eq-ok (ok_or (x.self_signed (ca_params x from until) signer) generate)
          (λ d. ok (record { params = ca_params x from until; key = signer; certificate_der = d }))
          k2 in
      let (cert, reads, certified, window) =
        certificates.self_signed_reads (ca_params x from until) signer der
          (ok_or-eq-ok _ _ der h3) in
      subst (IsRead x signer start end) (ok-injective k3) (
        cert,
        reads,
        certified,
        λ now at. window start end now at (to_time-eq-ok x start h1) (to_time-eq-ok x end h2),
        refl,
      )

  issue-reads :
      {c : Crypto} (ca : WorkloadCa x) (id : WorkloadIdentifier) (key : VerifyingKey c)
      (start end : ℕ) {der : Bytes}
      → issue x ca id key start end ≡ ok der
      → (leaf : X509Certificate x.Time) × (x.from_der der ≡ some ([], leaf))
        × IsIssued x ca.key leaf
        × IsValid x start end leaf
        × (leaf.alternative_names ≡ some (some (uri id.uri ∷ [])))
  unfolding issue
  issue-reads {c} ca id key start end {der} made =
      let (h0, k0) = then-eq-ok (ok_or x.new generate) _ made in
      let (name, h1, k1) = >>=-eq-ok (ok_or (x.ia5 id.uri) missing_identifier) _ k0 in
      let (from, h2, k2) = >>=-eq-ok (to_time x start) _ k1 in
      let (until, h3, k3) = >>=-eq-ok (to_time x end) _ k2 in
      let (info, h4, k4) = >>=-eq-ok (spki x.spki_from_der key) _ k3 in
      let same : name ≡ id.uri = certificates.ia5_same id.uri name (ok_or-eq-ok _ _ name h1) in
      let (leaf, reads, issued, window, names) =
        certificates.signed_by_reads (leaf_params x name from until) info ca.params ca.key der
          (ok_or-eq-ok _ _ der k4) in
      (
        leaf,
        reads,
        issued,
        λ now at. window start end now at (to_time-eq-ok x start h2) (to_time-eq-ok x end h3),
        subst (λ n. leaf.alternative_names ≡ some (some (uri n ∷ []))) same names,
      )

module _ {c : Crypto} (laws : IsCorrectCrypto c) (x : X509) (certificates : IsX509 x) where
  -- Under the laws of the parameters, a certificate that `issue` returned for a parsed identifier verifies, under the certificate of the authority that a signing key made, to that identifier, provided the clock fits 63 bits, is an instant, and lies in the window of the authority and in the window of the certificate.
  pub mtls_verify-issue :
      (key : SigningKey c) (ca_start ca_end : ℕ) (ca : WorkloadCa x) (id : WorkloadIdentifier)
      (public_key : VerifyingKey c) (start end : ℕ) (der : Bytes) (now : ℕ) (at : x.Time)
      → from_signing_key x key ca_start ca_end ≡ ok ca
      → issue x ca id public_key start end ≡ ok der
      → Identifier.parse id.uri ≡ ok id
      → now ≤ i64_max
      → x.from_timestamp now ≡ some at
      → (ca_start ≤ now) × (now ≤ ca_end)
      → (start ≤ now) × (now ≤ end)
      → verify c x der ca.certificate_der now ≡ ok id
  unfolding from_signing_key uris
  mtls_verify-issue key ca_start ca_end ca id public_key start end der now at made issued parsed
        early instant ca_window window =
      let (cert, ca_reads, certified, ca_valid, same) =
        from_key-reads x certificates (ca_key key) ca_start ca_end made in
      let (leaf, reads, signed, valid, names) =
        issue-reads x certificates ca id public_key start end issued in
      let signed_by = subst (λ s. IsIssued x s leaf) same signed in
      (mtls_verify_iff c x der ca.certificate_der now id).1 (record {
        leaf = leaf;
        ca = cert;
        parsed = (reads, ca_reads);
        signed = (
          signing_algorithm key,
          verifying_key key,
          certificate-authority laws x key leaf cert certified signed_by,
          certificate-signature laws x key leaf signed_by,
        );
        valid = (
          at,
          early,
          instant,
          ca_valid now at instant ca_window.0 ca_window.1,
          valid now at instant window.0 window.1,
        );
        named = (uri id.uri ∷ [], names, id.uri, refl, parsed);
      })
