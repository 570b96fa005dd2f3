-- ===== src/Tests/Trusted.antt =====
-- A run of `httpsig verify` with the concrete primitives.
use wimsey.Common.{
  ◌≡◌, refl, true, Option, none, some, [], ◌∷◌, ◌++◌, Result, ok, err, arith, replicate,
}
use wimsey.Text.{Str, Bytes, codes}
use wimsey.Identifier
use wimsey.Identifier.Validate.{validate_trust_domain, is_trust_domain_char, validate_path}
use wimsey.Jose.Primitives.{Base64}
use wimsey.Jose.Algorithm
use wimsey.Jose.Algorithm.{is_forbidden_alg}
use wimsey.Jose.Key as Keys
use wimsey.Jose.Key.{SigningKey, VerifyingKey}
use wimsey.Jose.Jwk
use wimsey.Jose.Jwk.{to_verifying_key, validated_alg, coordinate, key_for, from_verifying_key}
use wimsey.Jws.Compact.{three_parts}
use wimsey.Jws.Json.{Json}
use wimsey.HttpSig.Error.{HttpSigError}
use wimsey.HttpSig.Message.{HttpRequest, of_request}
use wimsey.HttpSig.Params.{SignatureParams}
use wimsey.HttpSig.Member.{wimse_tag}
use wimsey.HttpSig.Signature
use wimsey.HttpSig.Signature.{SignedSignature}
use wimsey.Wit.Claims.{ClaimsText, deserialize}
use wimsey.Wit.Token
use wimsey.Cli.Key
use wimsey.Cli.Key.{JwkKey, load, public_jwk}
use wimsey.Cli.Request.{
  parse_headers, build_request, checked_method, checked_authority, checked_path,
  is_valid_header_name, is_tchar, chosen_components,
}
use wimsey.Cli.HttpSign.{
  VerifyArgs, with_wit, with_digest, read_body, check_wit, check_body, run_verify,
}
use wimsey.Cli.HttpSign.Trust.{IsTrusted, run_verify-IsTrusted}
use wimsey.Tests.Toy.{toy, unary}
use wimsey.Text.{str_eq, lower, to_ascii_lowercase, eq_ignore_ascii_case, contains_str}
use wimsey.Text.{contains_char, strip_prefix, strip_suffix, split_once, split, join}
use wimsey.Text.{
  is_whitespace, trim_start_matches, trim_end_matches, trim_matches, trim, split_whitespace,
}
use wimsey.Text.{encode_char, as_bytes, len, slice_from, slice_to}
use wimsey.Text.{to_decimal, parse_u64}
use wimsey.HttpSig.Message.{
  component_eq, contains, header_named, quoted_id, named, from_plain_id, from_quoted_id_in,
  from_quoted_id, header_values, header_value, request_target_of, request_value, exchange_value,
  of_exchange, content_digest_sha256, verify_content_digest,
}
use wimsey.HttpSig.Params.{
  escape, sf_string, serialize_params, serialize_params_value, base_lines,
  signature_base_from_params_str, signature_base,
}
use wimsey.HttpSig.Field.{
  quote_step, advance, is_cut, find_unquoted_in, find_unquoted, split_semicolons_in,
  split_unquoted_semicolons, split_member, split_members_in, check_labels, split_dictionary,
  unescape, parse_sf_string,
}
use wimsey.HttpSig.Member.{
  parse_sf_boolean, parse_int, set_param, parse_part, parse_parts, parse_params, parse_components,
  split_inner, parse_input_member, find_label, parse_signature, has_wimse_tag, choose_member,
  select_member,
}
use wimsey.HttpSig.Profile.{
  check_request_profile, check_response_profile, carried, request_components, response_components,
  check_connect_components,
}
use wimsey.HttpSig.Signature.{
  check_profile, check_algorithm, check_required, check_audience, check_req_nonce, check_times,
  verify_member,
}
use wimsey.Jose.Key.{key_eq, to_raw_bytes, from_raw_bytes}
use wimsey.Tests.Toy.{write, read}

-- Texts stand for themselves, and JSON for one value.
abbrev plain : Base64
plain = record { encode = λ x. x; decode = some }

abbrev constant : {T : Type 0} → T → Json T
constant t = record { to_vec = λ v. some []; from_slice = λ x. some t }

abbrev issuer_file : JwkKey
issuer_file = Key.from_signing_key {c = toy} plain (SigningKey.ed25519 true)

abbrev holder : SigningKey toy
holder = SigningKey.ed25519 true

abbrev header_json : Json Token.Header
header_json = constant (record { typ = Token.typ; alg = codes "EdDSA"; kid = none; crit = none })

abbrev claims_json : Json ClaimsText
claims_json = constant (record {
  iss = none;
  sub = codes "wimse://a";
  iat = none;
  exp = 200;
  jti = none;
  cnf = record { jwk = from_verifying_key {c = toy} plain (Keys.verifying_key holder) };
})

abbrev token : Str
token = codes "a.b." ++ (1 ∷ 3 ∷ replicate 62 0)

abbrev request : HttpRequest
request = record {
  method = codes "GET";
  authority = codes "h";
  path = codes "/a";
  query = none;
  headers = (codes "Workload-Identity-Token", token) ∷ [];
}

abbrev params : SignatureParams
params = record {
  created = some 100;
  expires = some 130;
  keyid = none;
  alg = none;
  nonce = some (codes "n");
  tag = some wimse_tag;
  wimse_aud = some (codes "svc");
  wimse_sign_response = none;
  wimse_req_nonce = none;
}

abbrev signed : Result HttpSigError SignedSignature
signed =
    Signature.sign unary (of_request request) (request_components request) params (codes "wimse")
      holder

abbrev input_of : Result HttpSigError SignedSignature → Str
input_of (ok s) = s.signature_input
input_of (err e) = []

abbrev signature_of : Result HttpSigError SignedSignature → Str
signature_of (ok s) = s.signature
signature_of (err e) = []

abbrev args : VerifyArgs
args = record {
  issuer_jwk = codes "issuer.jwk";
  wit = token;
  method = codes "GET";
  authority = codes "H";
  path = codes "/a";
  query = none;
  header = [];
  body_file = none;
  signature_input = input_of signed;
  signature = signature_of signed;
  aud = codes "svc" ∷ [];
  require = none;
  expected_iss = none;
  max_age = some 60;
  leeway = 5;
  now = some 110;
}

abbrev read_file : Str → Option Bytes
read_file path = some []

trusted :
    run_verify toy plain unary
      (λ x. x)
      (constant issuer_file)
      read_file
      header_json
      claims_json
      args
      0
    ≡ ok (codes "wimse://a", codes "wimse")
unfolding run_verify load Key.verifying_key public_jwk to_verifying_key validated_alg
    Algorithm.parse coordinate key_for from_verifying_key Token.verify Token.verify_parts
    Token.check_header Token.check_signature Token.check_claims three_parts is_forbidden_alg
    parse_headers with_wit with_digest read_body build_request checked_method checked_authority
    checked_path is_valid_header_name is_tchar check_wit chosen_components check_body
    Signature.verify Signature.sign Keys.verify Keys.sign str_eq lower to_ascii_lowercase
    eq_ignore_ascii_case contains_str contains_char strip_prefix strip_suffix split_once split join
    is_whitespace trim_start_matches trim_end_matches trim_matches trim split_whitespace encode_char
    as_bytes len slice_from slice_to to_decimal parse_u64 component_eq contains header_named
    quoted_id named from_plain_id from_quoted_id_in from_quoted_id header_values header_value
    request_target_of request_value exchange_value of_request of_exchange content_digest_sha256
    verify_content_digest escape sf_string serialize_params serialize_params_value base_lines
    signature_base_from_params_str signature_base quote_step advance is_cut find_unquoted_in
    find_unquoted split_semicolons_in split_unquoted_semicolons split_member split_members_in
    check_labels split_dictionary unescape parse_sf_string parse_sf_boolean parse_int set_param
    parse_part parse_parts parse_params parse_components split_inner parse_input_member find_label
    parse_signature has_wimse_tag choose_member select_member check_request_profile
    check_response_profile carried request_components response_components check_connect_components
    check_profile check_algorithm check_required check_audience check_req_nonce check_times
    verify_member key_eq to_raw_bytes from_raw_bytes write read Key.from_signing_key
    Jwk.from_signing_key Identifier.parse Identifier.parse_rest Identifier.validate
    Identifier.split_path validate_trust_domain is_trust_domain_char validate_path deserialize
trusted = refl

run_verify-IsTrusted_example :
    IsTrusted toy plain unary
      (λ x. x)
      (constant issuer_file)
      read_file
      header_json
      claims_json
      args
      110
      (codes "wimse://a")
      (codes "wimse")
run_verify-IsTrusted_example =
    run_verify-IsTrusted toy plain unary (λ x. x) (constant issuer_file) read_file header_json
      claims_json args 0 (codes "wimse://a") (codes "wimse") (omega arith) trusted
