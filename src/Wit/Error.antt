-- ===== src/Wit/Error.antt =====
-- crates/wit/src/error.rs
use wimsey.Text.{Str}
use wimsey.Jose.Algorithm.{JoseError}

pub data WitError : Type 0 where
  malformed_token token_too_long unsupported_critical base64 json : WitError
  wrong_type unsupported_alg : Str → WitError
  invalid_signature expired issued_in_future issuer_mismatch invalid_key algorithm_mismatch :
      WitError
  missing_confirmation_alg : WitError
  forbidden_confirmation_alg unsupported_confirmation_alg : Str → WitError

-- `From<JoseError>`
abbrev pub from : JoseError → WitError
from JoseError.missing_alg = missing_confirmation_alg
from (JoseError.forbidden_alg found) = forbidden_confirmation_alg found
from (JoseError.unsupported_alg found) = unsupported_confirmation_alg found
from JoseError.invalid_signature = invalid_signature
from JoseError.invalid_key = invalid_key
from JoseError.invalid_encoding = invalid_key
