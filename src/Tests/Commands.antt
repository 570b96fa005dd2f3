-- ===== src/Tests/Commands.antt =====
-- A run of `wic issue` and `wic verify` with the concrete primitives.
use wimsey.Common.{
  ℕ, zero, suc, if◌then◌else◌, ◌∙◌, ◌≡◌, refl, true, Option, some, [], ◌∷◌, ◌++◌, ok, all,
  all-append, arith, replicate,
}
use wimsey.Text.{
  Str, Bytes, codes, str_eq, as_bytes, trim, trim_matches, trim_start_matches, trim_end_matches,
  is_whitespace,
}
use wimsey.Jose.Key as Keys
use wimsey.Jose.Key.{SigningKey}
use wimsey.Jws.Json.{Json, IsJson}
use wimsey.Mtls.Pkcs8.{ed25519_spki_prefix, spki}
use wimsey.Mtls.Ca
use wimsey.Mtls.Ca.{leaf_params, to_time}
use wimsey.Cli.Key
use wimsey.Cli.Key.{JwkKey, load}
use wimsey.Cli.Key.Files.{signing_key-from_signing_key, verifying_key-from_signing_key}
use wimsey.Cli.Certificates.{pem, WicIssueArgs, wic_issue, wic_verify}
use wimsey.Cli.Pem.{IsStandard, is_standard_char}
use wimsey.Cli.Wic.{wic_verify-wic_issue}
use wimsey.Tests.Toy.{toy, toy-IsCorrectCrypto, unary, unary-IsBase64, write}
use wimsey.Tests.Codec.{Codec, option, pair, text, json_of, json_of-IsJson}
use wimsey.Tests.Tokens.{jwk_codec}
use wimsey.Tests.Rows.{rows, rows-IsX509}
use wimsey.Tests.Certificates.{
  authority_key, authority_params, authority, authority_made, workload, workload_key,
  workload_parsed, bytes_of,
}

abbrev key_codec : Codec ((Option Str × (Str × (Str × (Str × Option Str)))) × Option Str)
key_codec = pair jwk_codec (option text)

abbrev key_json : Json JwkKey
key_json =
    json_of (λ k. ((k.alg, (k.kty, (k.crv, (k.x, k.y)))), k.d))
      (λ r. record {
        alg = r.0.0;
        kty = r.0.1.0;
        crv = r.0.1.1.0;
        x = r.0.1.1.1.0;
        y = r.0.1.1.1.1;
        d = r.1;
      })
      key_codec

key_json-IsJson : IsJson key_json
key_json-IsJson = json_of-IsJson _ _ key_codec (λ k. refl)

abbrev holder_key : SigningKey toy
holder_key = SigningKey.ed25519 true

abbrev files : Str → Option Bytes
files path = key_json.to_vec (
    if str_eq path (codes "ca")
    then Key.from_signing_key unary authority_key
    else Key.from_signing_key unary holder_key)

ca_loaded : load files key_json (codes "ca") ≡ ok (Key.from_signing_key unary authority_key)
unfolding load str_eq
ca_loaded =
    rw (key_json-IsJson.from_slice-to_vec (Key.from_signing_key unary authority_key) _ refl) refl

key_loaded : load files key_json (codes "key") ≡ ok (Key.from_signing_key unary holder_key)
unfolding load str_eq
key_loaded =
    rw (key_json-IsJson.from_slice-to_vec (Key.from_signing_key unary holder_key) _ refl) refl

abbrev wic : Bytes
wic = bytes_of (
    rows.signed_by (leaf_params rows workload.uri 10 90)
      (ed25519_spki_prefix ++ Keys.to_raw_bytes workload_key) authority_params authority.key)

wic_issued : Ca.issue rows authority workload workload_key 10 90 ≡ ok wic
unfolding Ca.issue spki to_time
wic_issued = refl

abbrev args : WicIssueArgs
args = record {
  ca_key = codes "ca";
  key = codes "key";
  sub = codes "wimse://a ";
  ttl = 80;
  ca_ttl = 90;
  now = some 10;
}

trimmed : trim args.sub ≡ workload.uri
unfolding trim trim_matches trim_start_matches trim_end_matches is_whitespace
trimmed = refl

abbrev ca_text : Str
ca_text = pem unary (codes "CERTIFICATE") authority.certificate_der

abbrev wic_text : Str
wic_text = pem unary (codes "CERTIFICATE") wic

written : wic_issue toy rows unary unary files key_json args 0 ≡ ok (ca_text, wic_text)
unfolding wic_issue
written =
    rw
      (
        ca_loaded,
        signing_key-from_signing_key toy-IsCorrectCrypto unary unary-IsBase64 authority_key,
        key_loaded,
        verifying_key-from_signing_key toy-IsCorrectCrypto unary unary-IsBase64 holder_key,
        authority_made,
        trimmed,
        workload_parsed,
        wic_issued,
      )
      refl

abbrev certificates : Str → Option Bytes
certificates path = some (as_bytes (if str_eq path (codes "ca.pem") then ca_text else wic_text))

ca_there : certificates (codes "ca.pem") ≡ some (as_bytes ca_text)
unfolding str_eq
ca_there = refl

wic_there : certificates (codes "wic.pem") ≡ some (as_bytes wic_text)
unfolding str_eq
wic_there = refl

replicate_standard : (n : ℕ) → all is_standard_char (replicate n b'A') ≡ true
replicate_standard zero = refl
replicate_standard (suc n) = replicate_standard n

write_standard : (x : Bytes) → all is_standard_char (write x) ≡ true
unfolding write
write_standard [] = refl
write_standard (n ∷ x) =
    all-append is_standard_char (replicate n b'A') (b'B' ∷ write x)
    ∙ rw (replicate_standard n, write_standard x) refl

unary-IsStandard : IsStandard unary
unary-IsStandard = record {
  decode-encode = unary-IsBase64.decode-encode;
  alphabet = write_standard;
}

wic_verify-wic_issue_example :
    wic_verify toy rows unary unary certificates some (codes "wic.pem") (codes "ca.pem") (some 60) 0
    ≡ ok (trim args.sub)
wic_verify-wic_issue_example =
    wic_verify-wic_issue toy-IsCorrectCrypto rows rows-IsX509 unary unary unary-IsStandard some
      (λ s h. refl) files key_json args 0 ca_text wic_text certificates (codes "ca.pem")
      (codes "wic.pem") 60 0 60 written ca_there wic_there (omega arith) refl (omega arith)
      (omega arith) (omega arith)
