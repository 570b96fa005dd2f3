-- ===== src/Tests/Signatures.antt =====
-- A request under the WIMSE profile, signed and verified with the concrete primitives.
use wimsey.Common.{
  ◌↔◌, ℕ, ◌≡◌, is_ok, All, refl, true, false, none, some, List, [], ◌∷◌, ok, err, Result, ◌≤◌,
  arith, u64_max,
}
use wimsey.Text.{Str, codes}
use wimsey.Tests.Toy.{toy, unary}
use wimsey.Jose.Algorithm.{ed_dsa}
use wimsey.Jose.Key
use wimsey.Jose.Key.{SigningKey, VerifyingKey}
use wimsey.HttpSig.Error.{HttpSigError}
use wimsey.HttpSig.Message.{Component, method, authority, HttpRequest, of_request}
use wimsey.HttpSig.Params.{has_newline, SignatureParams}
use wimsey.HttpSig.Member.{wimse_tag, InputMember}
use wimsey.HttpSig.Signature.{VerifyConfig, VerifiedSignature, SignedSignature, sign, verify}
use wimsey.HttpSig.Signs.{IsOneLine, sign_ok_iff}
use wimsey.HttpSig.Base.{member_base_injective}
use wimsey.HttpSig.Accepts.Whole.{verify_iff, IsVerified}
use wimsey.Text.{str_eq, lower, to_ascii_lowercase, eq_ignore_ascii_case, contains_str}
use wimsey.Text.{contains_char, strip_prefix, strip_suffix, split_once, split, join}
use wimsey.Text.{
  is_whitespace, trim_start_matches, trim_end_matches, trim_matches, trim, split_whitespace,
}
use wimsey.Text.{encode_char, as_bytes, len, slice_from, slice_to}
use wimsey.Text.{to_decimal, parse_u64}
use wimsey.HttpSig.Message.{
  component_eq, contains, header_named, quoted_id, named, from_plain_id, from_quoted_id_in,
  from_quoted_id, header_values, header_value, request_target_of, request_value, exchange_value,
  of_exchange, content_digest_sha256, verify_content_digest,
}
use wimsey.HttpSig.Params.{
  escape, sf_string, serialize_params, serialize_params_value, base_lines,
  signature_base_from_params_str, signature_base,
}
use wimsey.HttpSig.Field.{
  quote_step, advance, is_cut, find_unquoted_in, find_unquoted, split_semicolons_in,
  split_unquoted_semicolons, split_member, split_members_in, check_labels, split_dictionary,
  unescape, parse_sf_string,
}
use wimsey.HttpSig.Member.{
  parse_sf_boolean, parse_int, set_param, parse_part, parse_parts, parse_params, parse_components,
  split_inner, parse_input_member, find_label, parse_signature, has_wimse_tag, choose_member,
  select_member,
}
use wimsey.HttpSig.Profile.{
  check_request_profile, check_response_profile, carried, request_components, response_components,
  check_connect_components,
}
use wimsey.HttpSig.Signature.{
  check_profile, check_algorithm, check_required, check_audience, check_req_nonce, check_times,
  verify_member,
}
use wimsey.Jose.Key
use wimsey.Jose.Key.{key_eq, to_raw_bytes, from_raw_bytes}
use wimsey.Tests.Toy.{write, read}

abbrev pub get : HttpRequest
get = record {
  method = codes "GET";
  authority = codes "Example.com";
  path = codes "/a";
  query = none;
  headers = [];
}

abbrev profile_params : SignatureParams
profile_params = record {
  created = some 100;
  expires = some 130;
  keyid = none;
  alg = none;
  nonce = some (codes "n");
  tag = some wimse_tag;
  wimse_aud = some (codes "svc");
  wimse_sign_response = none;
  wimse_req_nonce = none;
}

abbrev strict : VerifyConfig
strict = record {
  now = some 110;
  leeway = 5;
  label = none;
  required_components = method ∷ [];
  max_age = some 60;
  wimse_profile = true;
  expected_audiences = codes "svc" ∷ [];
  wimse_response_profile = false;
  expected_req_nonce = none;
  accepted_algorithms = ed_dsa ∷ [];
}

abbrev signer : SigningKey toy
signer = SigningKey.ed25519 true

abbrev verifier : VerifyingKey toy
verifier = VerifyingKey.ed25519 true

abbrev signed : Result HttpSigError SignedSignature
signed = sign unary (of_request get) (method ∷ authority ∷ []) profile_params (codes "wimse") signer

abbrev input_of : Result HttpSigError SignedSignature → Str
input_of (ok s) = s.signature_input
input_of (err e) = []

abbrev signature_of : Result HttpSigError SignedSignature → Str
signature_of (ok s) = s.signature
signature_of (err e) = []

abbrev accepted : VerifiedSignature
accepted = record {
  label = codes "wimse";
  components = method ∷ authority ∷ [];
  params = profile_params;
}

round :
    verify {c = toy} unary (of_request get) (input_of signed) (signature_of signed) verifier strict
    ≡ ok accepted
unfolding verify sign Key.verify Key.sign str_eq lower to_ascii_lowercase eq_ignore_ascii_case
    contains_str contains_char strip_prefix strip_suffix split_once split join is_whitespace
    trim_start_matches trim_end_matches trim_matches trim split_whitespace encode_char as_bytes len
    slice_from slice_to to_decimal parse_u64 component_eq contains header_named quoted_id named
    from_plain_id from_quoted_id_in from_quoted_id header_values header_value request_target_of
    request_value exchange_value of_request of_exchange content_digest_sha256 verify_content_digest
    escape sf_string serialize_params serialize_params_value base_lines
    signature_base_from_params_str signature_base quote_step advance is_cut find_unquoted_in
    find_unquoted split_semicolons_in split_unquoted_semicolons split_member split_members_in
    check_labels split_dictionary unescape parse_sf_string parse_sf_boolean parse_int set_param
    parse_part parse_parts parse_params parse_components split_inner parse_input_member find_label
    parse_signature has_wimse_tag choose_member select_member check_request_profile
    check_response_profile carried request_components response_components check_connect_components
    check_profile check_algorithm check_required check_audience check_req_nonce check_times
    verify_member key_eq to_raw_bytes from_raw_bytes write read
round = refl

small_clock : (n : ℕ) → strict.now ≡ some n → n ≤ u64_max
small_clock n e = let same : 110 ≡ n = cc in omega (arith, same)

verify_iff_example :
    IsVerified unary
      (of_request get)
      (input_of signed)
      (signature_of signed)
      verifier
      strict
      accepted
verify_iff_example =
    (verify_iff unary (of_request get) (input_of signed) (signature_of signed) verifier strict
        accepted small_clock).0
      round

-- The same request with a query, which the signature leaves out.
abbrev searching : HttpRequest
searching = record get { query = some (codes "q=1") }

abbrev covered : List Component
covered = method ∷ authority ∷ []

abbrev member_of : Str → InputMember
member_of label = record {
  label = label;
  components = covered;
  params = profile_params;
  params_value = serialize_params_value covered profile_params;
}

abbrev base_of : Result HttpSigError Str → Str
base_of (ok s) = s
base_of (err e) = []

abbrev base : Str
base = base_of (signature_base (of_request get) covered profile_params)

read-a :
    parse_input_member (codes "a") (serialize_params_value covered profile_params)
    ≡ ok (member_of (codes "a"))
unfolding verify sign Key.verify Key.sign str_eq lower to_ascii_lowercase eq_ignore_ascii_case
    contains_str contains_char strip_prefix strip_suffix split_once split join is_whitespace
    trim_start_matches trim_end_matches trim_matches trim split_whitespace encode_char as_bytes len
    slice_from slice_to to_decimal parse_u64 component_eq contains header_named quoted_id named
    from_plain_id from_quoted_id_in from_quoted_id header_values header_value request_target_of
    request_value exchange_value of_request of_exchange content_digest_sha256 verify_content_digest
    escape sf_string serialize_params serialize_params_value base_lines
    signature_base_from_params_str signature_base quote_step advance is_cut find_unquoted_in
    find_unquoted split_semicolons_in split_unquoted_semicolons split_member split_members_in
    check_labels split_dictionary unescape parse_sf_string parse_sf_boolean parse_int set_param
    parse_part parse_parts parse_params parse_components split_inner parse_input_member find_label
    parse_signature has_wimse_tag choose_member select_member check_request_profile
    check_response_profile carried request_components response_components check_connect_components
    check_profile check_algorithm check_required check_audience check_req_nonce check_times
    verify_member key_eq to_raw_bytes from_raw_bytes write read
read-a = refl

read-b :
    parse_input_member (codes "b") (serialize_params_value covered profile_params)
    ≡ ok (member_of (codes "b"))
unfolding verify sign Key.verify Key.sign str_eq lower to_ascii_lowercase eq_ignore_ascii_case
    contains_str contains_char strip_prefix strip_suffix split_once split join is_whitespace
    trim_start_matches trim_end_matches trim_matches trim split_whitespace encode_char as_bytes len
    slice_from slice_to to_decimal parse_u64 component_eq contains header_named quoted_id named
    from_plain_id from_quoted_id_in from_quoted_id header_values header_value request_target_of
    request_value exchange_value of_request of_exchange content_digest_sha256 verify_content_digest
    escape sf_string serialize_params serialize_params_value base_lines
    signature_base_from_params_str signature_base quote_step advance is_cut find_unquoted_in
    find_unquoted split_semicolons_in split_unquoted_semicolons split_member split_members_in
    check_labels split_dictionary unescape parse_sf_string parse_sf_boolean parse_int set_param
    parse_part parse_parts parse_params parse_components split_inner parse_input_member find_label
    parse_signature has_wimse_tag choose_member select_member check_request_profile
    check_response_profile carried request_components response_components check_connect_components
    check_profile check_algorithm check_required check_audience check_req_nonce check_times
    verify_member key_eq to_raw_bytes from_raw_bytes write read
read-b = refl

base-get :
    signature_base_from_params_str
      (of_request get)
      covered
      (serialize_params_value covered profile_params)
    ≡ ok base
unfolding verify sign Key.verify Key.sign str_eq lower to_ascii_lowercase eq_ignore_ascii_case
    contains_str contains_char strip_prefix strip_suffix split_once split join is_whitespace
    trim_start_matches trim_end_matches trim_matches trim split_whitespace encode_char as_bytes len
    slice_from slice_to to_decimal parse_u64 component_eq contains header_named quoted_id named
    from_plain_id from_quoted_id_in from_quoted_id header_values header_value request_target_of
    request_value exchange_value of_request of_exchange content_digest_sha256 verify_content_digest
    escape sf_string serialize_params serialize_params_value base_lines
    signature_base_from_params_str signature_base quote_step advance is_cut find_unquoted_in
    find_unquoted split_semicolons_in split_unquoted_semicolons split_member split_members_in
    check_labels split_dictionary unescape parse_sf_string parse_sf_boolean parse_int set_param
    parse_part parse_parts parse_params parse_components split_inner parse_input_member find_label
    parse_signature has_wimse_tag choose_member select_member check_request_profile
    check_response_profile carried request_components response_components check_connect_components
    check_profile check_algorithm check_required check_audience check_req_nonce check_times
    verify_member key_eq to_raw_bytes from_raw_bytes write read
base-get = refl

base-searching :
    signature_base_from_params_str
      (of_request searching)
      covered
      (serialize_params_value covered profile_params)
    ≡ ok base
unfolding verify sign Key.verify Key.sign str_eq lower to_ascii_lowercase eq_ignore_ascii_case
    contains_str contains_char strip_prefix strip_suffix split_once split join is_whitespace
    trim_start_matches trim_end_matches trim_matches trim split_whitespace encode_char as_bytes len
    slice_from slice_to to_decimal parse_u64 component_eq contains header_named quoted_id named
    from_plain_id from_quoted_id_in from_quoted_id header_values header_value request_target_of
    request_value exchange_value of_request of_exchange content_digest_sha256 verify_content_digest
    escape sf_string serialize_params serialize_params_value base_lines
    signature_base_from_params_str signature_base quote_step advance is_cut find_unquoted_in
    find_unquoted split_semicolons_in split_unquoted_semicolons split_member split_members_in
    check_labels split_dictionary unescape parse_sf_string parse_sf_boolean parse_int set_param
    parse_part parse_parts parse_params parse_components split_inner parse_input_member find_label
    parse_signature has_wimse_tag choose_member select_member check_request_profile
    check_response_profile carried request_components response_components check_connect_components
    check_profile check_algorithm check_required check_audience check_req_nonce check_times
    verify_member key_eq to_raw_bytes from_raw_bytes write read
base-searching = refl

member_base_injective_example :
    (serialize_params_value covered profile_params ≡ serialize_params_value covered profile_params)
    × (covered ≡ covered)
    × (profile_params ≡ profile_params)
    × All
        (λ c. (of_request get).component_value c ≡ (of_request searching).component_value c)
        covered
member_base_injective_example =
    member_base_injective (of_request get) (of_request searching) (codes "a") (codes "b")
      (serialize_params_value covered profile_params)
      (serialize_params_value covered profile_params) base (member_of (codes "a"))
      (member_of (codes "b")) read-a read-b base-get base-searching

sign_ok_iff_example :
    (is_ok (sign unary (of_request get) covered profile_params (codes "wimse") signer) ≡ true) ↔ (
      (has_newline (serialize_params_value covered profile_params) ≡ false)
      × All (IsOneLine (of_request get)) covered)
sign_ok_iff_example =
    sign_ok_iff unary (of_request get) covered profile_params (codes "wimse") signer
