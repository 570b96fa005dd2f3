-- ===== src/Conformance/Code.antt =====
-- crates/conformance/src/vectors.rs: the error codes of the vectors.
use mathlib.Core.HLevel.{Discrete}
use wimsey.Identifier.Validate.{ParseError}
use wimsey.Wit.Error.{WitError}
use wimsey.Wpt.Error.{WptError}
use wimsey.Mtls.Error.{MtlsError}
use wimsey.HttpSig.Error.{HttpSigError}

pub data ErrorCode : Type 0 where
  malformed_token token_too_long unsupported_critical invalid_encoding wrong_type unsupported_alg
        invalid_signature expired issued_in_future issuer_mismatch invalid_key audience_mismatch
        wit_binding_mismatch txn_token_binding_mismatch other_token_binding_mismatch
        lifetime_too_long missing_component unsupported_component invalid_component_value
        missing_required_component invalid_time_window too_old parse_error label_mismatch
        malformed_signature created_in_future content_digest_mismatch missing_parameter
        forbidden_parameter forbidden_component wrong_tag request_nonce_mismatch no_wimse_signature
        ambiguous_wimse_signature missing_confirmation_alg forbidden_confirmation_alg
        unsupported_confirmation_alg identifier_too_long unsupported_scheme has_query has_fragment
        has_user_info has_port empty_trust_domain trust_domain_too_long invalid_trust_domain_char
        empty_path_segment dot_segment invalid_path_char bad_percent_encoding
        non_normalized_percent_encoding certificate_parse_error certificate_not_valid
        missing_identifier multiple_identifiers unmapped :
      ErrorCode

-- `==`
unfoldable pub ErrorCode-discrete : Discrete ErrorCode
ErrorCode-discrete = hlevel

-- `From<&WitError>`
unfoldable pub from_wit : WitError → ErrorCode
from_wit WitError.malformed_token = ErrorCode.malformed_token
from_wit WitError.token_too_long = ErrorCode.token_too_long
from_wit WitError.unsupported_critical = ErrorCode.unsupported_critical
from_wit WitError.base64 = ErrorCode.invalid_encoding
from_wit WitError.json = ErrorCode.invalid_encoding
from_wit (WitError.wrong_type _) = ErrorCode.wrong_type
from_wit (WitError.unsupported_alg _) = ErrorCode.unsupported_alg
from_wit WitError.invalid_signature = ErrorCode.invalid_signature
from_wit WitError.expired = ErrorCode.expired
from_wit WitError.issued_in_future = ErrorCode.issued_in_future
from_wit WitError.issuer_mismatch = ErrorCode.issuer_mismatch
from_wit WitError.invalid_key = ErrorCode.invalid_key
from_wit WitError.missing_confirmation_alg = ErrorCode.missing_confirmation_alg
from_wit (WitError.forbidden_confirmation_alg _) = ErrorCode.forbidden_confirmation_alg
from_wit (WitError.unsupported_confirmation_alg _) = ErrorCode.unsupported_confirmation_alg
from_wit WitError.algorithm_mismatch = ErrorCode.unmapped

-- `From<&ParseError>`
unfoldable pub from_parse : ParseError → ErrorCode
from_parse ParseError.too_long = ErrorCode.identifier_too_long
from_parse ParseError.unsupported_scheme = ErrorCode.unsupported_scheme
from_parse ParseError.has_query = ErrorCode.has_query
from_parse ParseError.has_fragment = ErrorCode.has_fragment
from_parse ParseError.has_user_info = ErrorCode.has_user_info
from_parse ParseError.has_port = ErrorCode.has_port
from_parse ParseError.empty_trust_domain = ErrorCode.empty_trust_domain
from_parse ParseError.trust_domain_too_long = ErrorCode.trust_domain_too_long
from_parse (ParseError.invalid_trust_domain_char _) = ErrorCode.invalid_trust_domain_char
from_parse ParseError.empty_path_segment = ErrorCode.empty_path_segment
from_parse ParseError.dot_segment = ErrorCode.dot_segment
from_parse (ParseError.invalid_path_char _) = ErrorCode.invalid_path_char
from_parse ParseError.bad_percent_encoding = ErrorCode.bad_percent_encoding
from_parse (ParseError.non_normalized_percent_encoding _) =
    ErrorCode.non_normalized_percent_encoding

-- `From<&MtlsError>`
unfoldable pub from_mtls : MtlsError → ErrorCode
from_mtls MtlsError.parse = ErrorCode.certificate_parse_error
from_mtls MtlsError.unsupported_algorithm = ErrorCode.unsupported_alg
from_mtls MtlsError.invalid_key = ErrorCode.invalid_key
from_mtls MtlsError.invalid_signature = ErrorCode.invalid_signature
from_mtls MtlsError.not_valid = ErrorCode.certificate_not_valid
from_mtls MtlsError.missing_identifier = ErrorCode.missing_identifier
from_mtls MtlsError.multiple_identifiers = ErrorCode.multiple_identifiers
from_mtls (MtlsError.identifier e) = from_parse e
from_mtls MtlsError.generate = ErrorCode.unmapped
from_mtls MtlsError.time = ErrorCode.unmapped

-- `From<&WptError>`
unfoldable pub from_wpt : WptError → ErrorCode
from_wpt WptError.malformed_token = ErrorCode.malformed_token
from_wpt WptError.token_too_long = ErrorCode.token_too_long
from_wpt WptError.base64 = ErrorCode.invalid_encoding
from_wpt WptError.json = ErrorCode.invalid_encoding
from_wpt (WptError.wrong_type _) = ErrorCode.wrong_type
from_wpt (WptError.unsupported_alg _) = ErrorCode.unsupported_alg
from_wpt WptError.unsupported_critical = ErrorCode.unsupported_critical
from_wpt WptError.invalid_signature = ErrorCode.invalid_signature
from_wpt WptError.expired = ErrorCode.expired
from_wpt WptError.audience_mismatch = ErrorCode.audience_mismatch
from_wpt WptError.wit_binding_mismatch = ErrorCode.wit_binding_mismatch
from_wpt WptError.txn_token_binding_mismatch = ErrorCode.txn_token_binding_mismatch
from_wpt (WptError.other_token_binding_mismatch _) = ErrorCode.other_token_binding_mismatch
from_wpt WptError.lifetime_too_long = ErrorCode.lifetime_too_long
from_wpt WptError.algorithm_mismatch = ErrorCode.unmapped

-- `From<&HttpSigError>`
unfoldable pub from_httpsig : HttpSigError → ErrorCode
from_httpsig (HttpSigError.missing_component _) = ErrorCode.missing_component
from_httpsig (HttpSigError.unsupported_component _) = ErrorCode.unsupported_component
from_httpsig (HttpSigError.invalid_component_value _) = ErrorCode.invalid_component_value
from_httpsig (HttpSigError.missing_required_component _) = ErrorCode.missing_required_component
from_httpsig (HttpSigError.unsupported_alg _) = ErrorCode.unsupported_alg
from_httpsig HttpSigError.invalid_time_window = ErrorCode.invalid_time_window
from_httpsig HttpSigError.too_old = ErrorCode.too_old
from_httpsig (HttpSigError.parse _) = ErrorCode.parse_error
from_httpsig HttpSigError.label_mismatch = ErrorCode.label_mismatch
from_httpsig HttpSigError.malformed_signature = ErrorCode.malformed_signature
from_httpsig HttpSigError.invalid_signature = ErrorCode.invalid_signature
from_httpsig HttpSigError.expired = ErrorCode.expired
from_httpsig HttpSigError.created_in_future = ErrorCode.created_in_future
from_httpsig (HttpSigError.missing_parameter _) = ErrorCode.missing_parameter
from_httpsig (HttpSigError.forbidden_parameter _) = ErrorCode.forbidden_parameter
from_httpsig (HttpSigError.forbidden_component _) = ErrorCode.forbidden_component
from_httpsig (HttpSigError.wrong_tag _) = ErrorCode.wrong_tag
from_httpsig HttpSigError.audience_mismatch = ErrorCode.audience_mismatch
from_httpsig HttpSigError.request_nonce_mismatch = ErrorCode.request_nonce_mismatch
from_httpsig HttpSigError.no_wimse_signature = ErrorCode.no_wimse_signature
from_httpsig HttpSigError.ambiguous_wimse_signature = ErrorCode.ambiguous_wimse_signature
