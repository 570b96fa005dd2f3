-- ===== src/Tests/Certificates.antt =====
-- Certificates, their signatures and keys, issued and verified with concrete crates.
use wimsey.Common.{
  ℕ, ◌+◌, ◌≡◌, ◌≤◌, ◌↔◌, refl, true, Option, none, some, [], ◌∷◌, ◌++◌, ok, arith, length,
  replicate,
}
use wimsey.Text.{Bytes, codes, len, strip_prefix, contains_char, split_once}
use wimsey.Identifier
use wimsey.Identifier.{WorkloadIdentifier}
use wimsey.Identifier.Validate.{wimse, validate_trust_domain, is_trust_domain_char, validate_path}
use wimsey.Jose.Key
use wimsey.Jose.Key.{SigningKey, VerifyingKey}
use wimsey.Mtls.Der.{write_integer, ecdsa_signature_to_der, ecdsa_signature_from_der, first_is_high}
use wimsey.Mtls.Der.Halves.{from_der-to_der, to_der_bounds}
use wimsey.Mtls.Der.Negative.{from_der-negative}
use wimsey.Mtls.Pkcs8.{ed25519_spki_prefix, ed25519_pkcs8_inner, ed25519_seed_from_pkcs8, spki}
use wimsey.Mtls.Pkcs8.Seeds.{IsSeed, pkcs8-IsSeed_iff}
use wimsey.Mtls.Certificate.{CertificateParams}
use wimsey.Mtls.Ca.{
  WorkloadCa, ca_params, leaf_params, ca_key, from_signing_key, from_key, to_time, issue,
}
use wimsey.Mtls.Verify.{verify}
use wimsey.Mtls.Accepts.{IsVerified, mtls_verify_iff}
use wimsey.Mtls.Issue.{mtls_verify-issue}
use wimsey.Tests.Toy.{toy, toy-IsCorrectCrypto}
use wimsey.Tests.Rows.{rows, rows-IsX509}

abbrev high : Bytes
high = 0x80 ∷ replicate 31 1

abbrev low : Bytes
low = replicate 31 0 ++ 5 ∷ []

from_der-to_der_example :
    ecdsa_signature_from_der (ecdsa_signature_to_der (high ++ low)) ≡ ok (high ++ low)
from_der-to_der_example = from_der-to_der (high ++ low) refl

to_der_bounds_example :
    (body : Bytes) × (ecdsa_signature_to_der (high ++ low) ≡ 0x30 ∷ length body ∷ body)
    × (length body ≤ 70)
to_der_bounds_example = to_der_bounds (high ++ low) refl

high_is_high : first_is_high high ≡ true
high_is_high = refl

from_der-negative_example :
    (ecdsa_signature_to_der (high ++ low)
      ≡ 0x30 ∷ (35 + length (write_integer low)) ∷ 0x02 ∷ 33 ∷ 0x00 ∷ (high ++ write_integer low))
    × (ecdsa_signature_from_der
          (0x30 ∷ (34 + length (write_integer low)) ∷ 0x02 ∷ 32 ∷ (high ++ write_integer low))
        ≡ ok (high ++ low))
from_der-negative_example = from_der-negative high low refl refl high_is_high

abbrev seed : Bytes
seed = replicate 32 9

abbrev pkcs8 : Bytes
pkcs8 = 0x30 ∷ 0x2e ∷ 0x02 ∷ 0x01 ∷ 0x00 ∷ (ed25519_pkcs8_inner ++ seed)

pkcs8-IsSeed_iff_example : (ed25519_seed_from_pkcs8 pkcs8 ≡ ok seed) ↔ IsSeed pkcs8 seed
pkcs8-IsSeed_iff_example = pkcs8-IsSeed_iff pkcs8 seed

abbrev pub authority_key : SigningKey toy
authority_key = SigningKey.p256 true

abbrev pub workload_key : VerifyingKey toy
workload_key = VerifyingKey.ed25519 true

abbrev pub workload : WorkloadIdentifier
workload = record { uri = codes "wimse://a"; scheme = wimse; trust_domain_len = 1 }

abbrev pub bytes_of : Option Bytes → Bytes
bytes_of none = []
bytes_of (some x) = x

abbrev pub authority_params : CertificateParams ℕ
authority_params = ca_params rows 10 100

abbrev pub authority : WorkloadCa rows
authority = record {
  params = authority_params;
  key = ca_key authority_key;
  certificate_der = bytes_of (rows.self_signed authority_params (ca_key authority_key));
}

pub authority_made : from_signing_key rows authority_key 10 100 ≡ ok authority
unfolding from_signing_key from_key to_time
authority_made = refl

abbrev wic : Bytes
wic = bytes_of (
    rows.signed_by (leaf_params rows workload.uri 20 90)
      (ed25519_spki_prefix ++ Key.to_raw_bytes workload_key) authority_params authority.key)

wic_issued : issue rows authority workload workload_key 20 90 ≡ ok wic
unfolding issue spki to_time
wic_issued = refl

pub workload_parsed : Identifier.parse workload.uri ≡ ok workload
unfolding Identifier.parse len strip_prefix Identifier.parse_rest contains_char Identifier.validate
    Identifier.split_path split_once validate_trust_domain is_trust_domain_char validate_path
workload_parsed = refl

mtls_verify-issue_example : verify toy rows wic authority.certificate_der 60 ≡ ok workload
mtls_verify-issue_example =
    mtls_verify-issue toy-IsCorrectCrypto rows rows-IsX509 authority_key 10 100 authority workload
      workload_key 20 90 wic 60 60 authority_made wic_issued workload_parsed (omega arith) refl
      (omega arith, omega arith) (omega arith, omega arith)

mtls_verify_iff_example :
    (verify toy rows wic authority.certificate_der 60 ≡ ok workload)
    ↔ IsVerified toy rows wic authority.certificate_der 60 workload
mtls_verify_iff_example = mtls_verify_iff toy rows wic authority.certificate_der 60 workload
