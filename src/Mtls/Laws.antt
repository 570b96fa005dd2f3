-- ===== src/Mtls/Laws.antt =====
-- What crates/mtls relies on of the crates that write and read certificates.
use wimsey.Common.{ℕ, ◌≡◌, ◌≤◌, true, some, [], map}
use wimsey.Text.{Str, Bytes}
use wimsey.Mtls.Certificate.{uri, X509Certificate, CertificateParams, Signer, X509}
use wimsey.Mtls.Verify.{signature_oid}
use wimsey.Mtls.Checks.{IsKeyOf}

module _ (x : X509) where
  open x use {Time}

  -- A certificate is valid from its first instant to its last one.
  abbrev pub IsWindow : CertificateParams Time → X509Certificate Time → Type 0
  IsWindow params cert =
      (start end now : ℕ) (at : Time)
      → x.from_timestamp start ≡ some params.not_before
      → x.from_timestamp end ≡ some params.not_after
      → x.from_timestamp now ≡ some at
      → start ≤ now
      → now ≤ end
      → cert.is_valid_at at ≡ true

  -- The certificate carries the public key, under its algorithm and in whole octets.
  pub record IsCertified (signer : Signer) (cert : X509Certificate Time) : Type 0 where
    pub algorithm : IsKeyOf signer.algorithm cert
    pub key : cert.key ≡ record { bytes = signer.public_key; unused_bits = 0 }

  -- The certificate names the algorithm of its signer twice, and carries the signature of its
  -- signed part in whole octets.
  pub record IsIssued (signer : Signer) (cert : X509Certificate Time) : Type 0 where
    pub outer : cert.signature_algorithm ≡ signature_oid signer.algorithm
    pub inner : cert.tbs_signature_algorithm ≡ signature_oid signer.algorithm
    pub signature :
        cert.signature_value ≡ record { bytes = signer.sign cert.tbs_certificate; unused_bits = 0 }

  -- A name is kept as it is, and certificates parse back, whole, with what was written.
  pub record IsX509 : Type 0 where
    pub ia5_same : (s n : Str) → x.ia5 s ≡ some n → n ≡ s
    pub self_signed_reads :
        (params : CertificateParams Time) (signer : Signer) (der : Bytes)
        → x.self_signed params signer ≡ some der
        → (cert : X509Certificate Time) × (x.from_der der ≡ some ([], cert))
          × IsCertified signer cert
          × IsWindow params cert
    pub signed_by_reads :
        (params : CertificateParams Time) (info : x.Spki) (issuer : CertificateParams Time)
        (signer : Signer) (der : Bytes)
        → x.signed_by params info issuer signer ≡ some der
        → (cert : X509Certificate Time) × (x.from_der der ≡ some ([], cert))
          × IsIssued signer cert
          × IsWindow params cert
          × (cert.alternative_names ≡ some (some (map uri params.subject_alt_names)))
