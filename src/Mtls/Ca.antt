-- ===== src/Mtls/Ca.antt =====
-- crates/mtls/src/wic.rs: the certificate authority and the certificates that it issues.
use wimsey.Common.{
  ℕ, true, false, [], ◌∷◌, Result, ok, err, ◌>>=◌, ◌>>◌, ensure, ok_or, leb, if◌then◌else◌,
}
use wimsey.Text.{Str, Bytes, codes}
use wimsey.Identifier.{WorkloadIdentifier}
use wimsey.Jose.Primitives.{Crypto}
use wimsey.Jose.Algorithm.{Algorithm, ed_dsa, es256, algorithm_eq}
use wimsey.Jose.Key
use wimsey.Jose.Key.{
  SigningKey, VerifyingKey, verifying_key, signing_algorithm, to_raw_bytes, from_ed25519_seed,
}
use wimsey.Mtls.Error.{MtlsError, generate, time, unsupported_algorithm, missing_identifier}
use wimsey.Mtls.Der.{ecdsa_signature_to_der}
use wimsey.Mtls.Pkcs8.{ed25519_seed_from_pkcs8, spki}
use wimsey.Mtls.Certificate.{Signer, CertificateParams, X509}

-- `CA_COMMON_NAME`, `LEAF_COMMON_NAME`
abbrev pub ca_common_name : Str
ca_common_name = codes "wimsey workload CA"

abbrev pub leaf_common_name : Str
leaf_common_name = codes "wimsey workload"

-- `i64::MAX`
abbrev pub i64_max : ℕ
i64_max = 9223372036854775807

-- A signature in the form that a certificate carries.
abbrev pub certificate_signature : Algorithm → Bytes → Bytes
certificate_signature es256 raw = ecdsa_signature_to_der raw
certificate_signature ed_dsa raw = raw

module _ {c : Crypto} where
  -- `CaKey`: `new`, `der_bytes`, `algorithm` and `sign`.
  unfoldable pub ca_key : SigningKey c → Signer
  ca_key key = record {
    algorithm = signing_algorithm key;
    public_key = to_raw_bytes (verifying_key key);
    sign = λ message. certificate_signature (signing_algorithm key) (Key.sign key message);
  }

module _ (x : X509) where
  open x use {Time}

  -- `Issuer` keeps the parameters of the authority's own certificate.
  pub record WorkloadCa : Type 0 where
    pub params : CertificateParams Time
    pub key : Signer
    pub certificate_der : Bytes

  -- The parameters of the authority's own certificate.
  abbrev pub ca_params : Time → Time → CertificateParams Time
  ca_params start end = record {
    common_name = ca_common_name;
    is_ca = true;
    not_before = start;
    not_after = end;
    subject_alt_names = [];
    extended_key_usages = [];
  }

  -- The parameters of a leaf, which names the workload only as an alternative name.
  abbrev pub leaf_params : Str → Time → Time → CertificateParams Time
  leaf_params name start end = record {
    common_name = leaf_common_name;
    is_ca = false;
    not_before = start;
    not_after = end;
    subject_alt_names = name ∷ [];
    extended_key_usages = codes "ClientAuth" ∷ codes "ServerAuth" ∷ [];
  }

  unfoldable pub to_time : ℕ → Result MtlsError Time
  to_time unix = if leb unix i64_max then ok_or (x.from_timestamp unix) time else err time

  unfoldable pub from_key : Signer → ℕ → ℕ → Result MtlsError WorkloadCa
  unfolding to_time
  from_key key not_before not_after = do
    ok_or x.new generate
    start ← to_time not_before
    end ← to_time not_after
    der ← ok_or (x.self_signed (ca_params start end) key) generate
    ok (record { params = ca_params start end; key = key; certificate_der = der })

module _ {c : Crypto} (x : X509) where
  unfoldable pub from_signing_key : SigningKey c → ℕ → ℕ → Result MtlsError (WorkloadCa x)
  from_signing_key key not_before not_after = from_key x (ca_key key) not_before not_after

  unfoldable pub from_ed25519 : SigningKey c → ℕ → ℕ → Result MtlsError (WorkloadCa x)
  from_ed25519 key not_before not_after = do
    ensure (algorithm_eq (signing_algorithm key) ed_dsa) unsupported_algorithm
    from_signing_key key not_before not_after

  unfoldable pub issue :
      WorkloadCa x → WorkloadIdentifier → VerifyingKey c → ℕ → ℕ → Result MtlsError Bytes
  unfolding to_time
  issue ca identifier public_key not_before not_after = do
    ok_or x.new generate
    name ← ok_or (x.ia5 identifier.uri) missing_identifier
    start ← to_time x not_before
    end ← to_time x not_after
    info ← spki x.spki_from_der public_key
    ok_or (x.signed_by (leaf_params x name start end) info ca.params ca.key) generate

module _ (c : Crypto) (x : X509) where
  unfoldable pub from_pkcs8_der : Bytes → ℕ → ℕ → Result MtlsError (WorkloadCa x)
  from_pkcs8_der pkcs8_der not_before not_after = do
    seed ← ed25519_seed_from_pkcs8 pkcs8_der
    from_signing_key {c = c} x (from_ed25519_seed seed) not_before not_after

  -- `WorkloadCa::generate`
  unfoldable pub generate_ca : ℕ → ℕ → Result MtlsError (WorkloadCa x)
  unfolding from_pkcs8_der
  generate_ca not_before not_after = do
    pkcs8 ← ok_or x.generate_ed25519 generate
    from_pkcs8_der pkcs8 not_before not_after
