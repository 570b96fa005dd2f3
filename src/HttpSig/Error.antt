-- ===== src/HttpSig/Error.antt =====
-- crates/httpsig/src/error.rs
use wimsey.Text.{Str}

pub data HttpSigError : Type 0 where
  missing_component unsupported_component invalid_component_value : Str → HttpSigError
  missing_required_component : Str → HttpSigError
  unsupported_alg : Str → HttpSigError
  invalid_time_window too_old : HttpSigError
  parse : Str → HttpSigError
  label_mismatch malformed_signature invalid_signature expired created_in_future : HttpSigError
  missing_parameter forbidden_parameter forbidden_component wrong_tag : Str → HttpSigError
  audience_mismatch request_nonce_mismatch no_wimse_signature ambiguous_wimse_signature :
      HttpSigError
