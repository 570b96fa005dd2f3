-- ===== src/Cli/Error.antt =====
-- crates/cli/src/main.rs: the boxed errors of the command-line tool, by where they come from.
use wimsey.Text.{Str}
use wimsey.Identifier.Validate.{ParseError}
use wimsey.Jose.Algorithm.{JoseError}
use wimsey.HttpSig.Error.{HttpSigError}
use wimsey.Wit.Error.{WitError}
use wimsey.Wpt.Error.{WptError}
use wimsey.Mtls.Error.{MtlsError}

-- A text of the tool itself, an error of one of the crates, or one of a file, of JSON, of Base64
-- or of the random source.
pub data CliError : Type 0 where
  message : Str → CliError
  identifier : ParseError → CliError
  jose : JoseError → CliError
  httpsig : HttpSigError → CliError
  wit : WitError → CliError
  wpt : WptError → CliError
  mtls : MtlsError → CliError
  file json base64 random : CliError
