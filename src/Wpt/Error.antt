-- ===== src/Wpt/Error.antt =====
-- crates/wpt/src/error.rs
use wimsey.Text.{Str}

pub data WptError : Type 0 where
  malformed_token token_too_long base64 json : WptError
  wrong_type unsupported_alg : Str → WptError
  unsupported_critical algorithm_mismatch invalid_signature expired audience_mismatch : WptError
  wit_binding_mismatch txn_token_binding_mismatch : WptError
  other_token_binding_mismatch : Str → WptError
  lifetime_too_long : WptError
