-- ===== src/Mtls/Verify.antt =====
-- crates/mtls/src/wic.rs: the verification of a certificate.
use wimsey.Common.{
  ℕ, Bool, true, false, not, ◌||◌, Option, none, some, List, [], ◌∷◌, Result, ok, err, ◌>>=◌, ◌>>◌,
  ensure, ok_or, map_err, leb, ◌==◌, if◌then◌else◌,
}
use wimsey.Text.{Str, Bytes, str_eq, is_empty}
use wimsey.Identifier
use wimsey.Identifier.{WorkloadIdentifier}
use wimsey.Jose.Primitives.{Crypto}
use wimsey.Jose.Algorithm.{Algorithm, ed_dsa, es256}
use wimsey.Jose.Key
use wimsey.Jose.Key.{VerifyingKey, from_raw_bytes}
use wimsey.Mtls.Error.{
  MtlsError, parse, unsupported_algorithm, invalid_key, invalid_signature, not_valid,
  missing_identifier, multiple_identifiers, identifier, time,
}
use wimsey.Mtls.Der.{ecdsa_signature_from_der}
use wimsey.Mtls.Certificate.{
  Oid, GeneralName, uri, other_name, X509Certificate, X509, oid_sig_ed25519,
  oid_key_type_ec_public_key, oid_sig_ecdsa_with_sha256,
}
use wimsey.Mtls.Ca.{i64_max}

-- `OID_EC_P256`
abbrev pub oid_ec_p256 : Oid
oid_ec_p256 = 1 ∷ 2 ∷ 840 ∷ 10045 ∷ 3 ∷ 1 ∷ 7 ∷ []

-- `==` on object identifiers.
abbrev pub oid_eq : Oid → Oid → Bool
oid_eq a b = str_eq a b

-- The algorithm of the authority's own key.
unfoldable pub key_algorithm_of : Oid → Result MtlsError Algorithm
key_algorithm_of oid =
    if oid_eq oid oid_sig_ed25519
    then ok ed_dsa
    else if oid_eq oid oid_key_type_ec_public_key
    then ok es256
    else err unsupported_algorithm

abbrev pub signature_oid : Algorithm → Oid
signature_oid es256 = oid_sig_ecdsa_with_sha256
signature_oid ed_dsa = oid_sig_ed25519

-- `curve != Some(OID_EC_P256)`, for an EC key.
abbrev pub is_curve : Algorithm → Option Oid → Bool
is_curve ed_dsa parameters = true
is_curve es256 none = false
is_curve es256 (some oid) = oid_eq oid oid_ec_p256

-- The signature in the form that the key verifies.
abbrev pub raw_signature : Algorithm → Bytes → Result MtlsError Bytes
raw_signature es256 value = ecdsa_signature_from_der value
raw_signature ed_dsa value = ok value

-- The URI names among the alternative names.
unfoldable pub uris : List GeneralName → List Str
uris [] = []
uris (uri u ∷ names) = u ∷ uris names
uris (other_name ∷ names) = uris names

abbrev pub only_uri : List Str → Result MtlsError WorkloadIdentifier
only_uri [] = err missing_identifier
only_uri (u ∷ []) = map_err identifier (Identifier.parse u)
only_uri (u ∷ v ∷ us) = err multiple_identifiers

module _ {Time : Type 0} where
  unfoldable pub uri_san : X509Certificate Time → Result MtlsError WorkloadIdentifier
  unfolding uris
  uri_san cert = do
    san ← ok_or cert.alternative_names parse
    names ← ok_or san missing_identifier
    only_uri (uris names)

module _ (x : X509) where
  -- A certificate, with nothing behind it.
  unfoldable pub from_whole_der : Bytes → Result MtlsError (X509Certificate x.Time)
  from_whole_der der = do
    parsed ← ok_or (x.from_der der) parse
    ensure (is_empty parsed.0) parse
    ok parsed.1

  unfoldable pub workload_identifier : Bytes → Result MtlsError WorkloadIdentifier
  unfolding from_whole_der
  workload_identifier wic_der = do cert ← from_whole_der wic_der; uri_san cert

  -- `ASN1Time::from_timestamp` on a 64-bit signed number.
  unfoldable pub asn1_time : ℕ → Result MtlsError x.Time
  asn1_time now = if leb now i64_max then ok_or (x.from_timestamp now) time else err time

module _ {Time : Type 0} where
  -- The outer and the inner algorithm of the leaf are the expected one.
  abbrev pub is_expected : X509Certificate Time → Algorithm → Bool
  is_expected leaf algorithm = not (
      not (oid_eq leaf.signature_algorithm (signature_oid algorithm))
      || not (oid_eq leaf.tbs_signature_algorithm (signature_oid algorithm)))

module _ (c : Crypto) {Time : Type 0} where
  -- The algorithms that the two certificates name, and the authority's key.
  unfoldable pub ca_verifying_key :
      X509Certificate Time → X509Certificate Time → Result MtlsError (Algorithm × VerifyingKey c)
  unfolding key_algorithm_of
  ca_verifying_key leaf ca = do
    algorithm ← key_algorithm_of ca.key_algorithm
    ensure (is_expected leaf algorithm) unsupported_algorithm
    ensure (is_curve algorithm ca.key_parameters) unsupported_algorithm
    ensure (ca.key.unused_bits == 0) invalid_key
    key ← map_err (λ e. invalid_key) (from_raw_bytes algorithm ca.key.bytes)
    ok (algorithm, key)

module _ {c : Crypto} {Time : Type 0} where
  unfoldable pub check_signature :
      X509Certificate Time → Algorithm → VerifyingKey c → Result MtlsError Unit
  check_signature leaf algorithm key = do
    ensure (leaf.signature_value.unused_bits == 0) invalid_signature
    signature ← raw_signature algorithm leaf.signature_value.bytes
    map_err (λ e. invalid_signature) (Key.verify key leaf.tbs_certificate signature)

module _ (c : Crypto) (x : X509) where
  unfoldable pub verify : Bytes → Bytes → ℕ → Result MtlsError WorkloadIdentifier
  unfolding ca_verifying_key check_signature asn1_time
  verify wic_der ca_der now = do
    parsed_leaf ← ok_or (x.from_der wic_der) parse
    parsed_ca ← ok_or (x.from_der ca_der) parse
    ensure (not (not (is_empty parsed_leaf.0) || not (is_empty parsed_ca.0))) parse
    key ← ca_verifying_key c parsed_leaf.1 parsed_ca.1
    check_signature parsed_leaf.1 key.0 key.1
    at ← asn1_time x now
    ensure (not (not (parsed_ca.1.is_valid_at at) || not (parsed_leaf.1.is_valid_at at))) not_valid
    uri_san parsed_leaf.1
