-- ===== src/Mtls/Error.antt =====
-- crates/mtls/src/error.rs
use wimsey.Identifier.Validate.{ParseError}

pub data MtlsError : Type 0 where
  generate parse unsupported_algorithm invalid_key invalid_signature not_valid : MtlsError
  missing_identifier multiple_identifiers : MtlsError
  identifier : ParseError → MtlsError
  time : MtlsError
