-- ===== src/Mtls/Certificate.antt =====
-- The crates that crates/mtls calls: `rcgen` writes certificates, `x509_parser` reads them, and
-- `time` represents instants.
use wimsey.Common.{ℕ, Bool, Option, List, [], ◌∷◌}
use wimsey.Text.{Str, Bytes}
use wimsey.Jose.Algorithm.{Algorithm}

-- An object identifier, by its arcs.
abbrev pub Oid : Type 0
Oid = List ℕ

-- `OID_SIG_ED25519`, `OID_KEY_TYPE_EC_PUBLIC_KEY`, `OID_SIG_ECDSA_WITH_SHA256`
abbrev pub oid_sig_ed25519 : Oid
oid_sig_ed25519 = 1 ∷ 3 ∷ 101 ∷ 112 ∷ []

abbrev pub oid_key_type_ec_public_key : Oid
oid_key_type_ec_public_key = 1 ∷ 2 ∷ 840 ∷ 10045 ∷ 2 ∷ 1 ∷ []

abbrev pub oid_sig_ecdsa_with_sha256 : Oid
oid_sig_ecdsa_with_sha256 = 1 ∷ 2 ∷ 840 ∷ 10045 ∷ 4 ∷ 3 ∷ 2 ∷ []

-- A BIT STRING: its bytes, and how many bits of the last one are not used.
pub record BitString : Type 0 where
  pub bytes : Bytes
  pub unused_bits : ℕ

pub data GeneralName : Type 0 where
  uri : Str → GeneralName
  other_name : GeneralName

-- What `x509_parser` reads of a certificate. The alternative names may be malformed, or absent.
pub record X509Certificate (Time : Type 0) : Type 0 where
  pub key_algorithm : Oid
  pub key_parameters : Option Oid
  pub key : BitString
  pub signature_algorithm : Oid
  pub tbs_signature_algorithm : Oid
  pub signature_value : BitString
  pub tbs_certificate : Bytes
  pub is_valid_at : Time → Bool
  pub alternative_names : Option (Option (List GeneralName))

-- What `rcgen` writes into a certificate.
pub record CertificateParams (Time : Type 0) : Type 0 where
  pub common_name : Str
  pub is_ca : Bool
  pub not_before : Time
  pub not_after : Time
  pub subject_alt_names : List Str
  pub extended_key_usages : List Str

-- The signing key of a certificate authority, as `rcgen` sees it.
pub record Signer : Type 0 where
  pub algorithm : Algorithm
  pub public_key : Bytes
  pub sign : Bytes → Bytes

-- The operations. `new` is `CertificateParams::new`, as far as it may fail; `ia5` makes a URI name;
-- `from_timestamp` serves both `OffsetDateTime` and `ASN1Time`.
pub record X509 : Type 1 where
  pub Time : Type 0
  pub Spki : Type 0
  pub from_timestamp : ℕ → Option Time
  pub new : Option (Unit {0})
  pub ia5 : Str → Option Str
  pub generate_ed25519 : Option Bytes
  pub spki_from_der : Bytes → Option Spki
  pub self_signed : CertificateParams Time → Signer → Option Bytes
  pub signed_by : CertificateParams Time → Spki → CertificateParams Time → Signer → Option Bytes
  pub from_der : Bytes → Option (Bytes × X509Certificate Time)
