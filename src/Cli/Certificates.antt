-- ===== src/Cli/Certificates.antt =====
-- crates/cli/src/main.rs: `run_wic`, `pem` and `read_certificate`.
use wimsey.Common.{
  ℕ, zero, suc, Option, none, some, List, [], ◌∷◌, ◌++◌, Result, ok, ◌>>=◌, ok_or, map_err, take,
  drop, length,
}
use mathlib.Core.Option
use wimsey.Text.{Str, Bytes, codes, trim, strip_prefix, split_whitespace}
use wimsey.Identifier
use wimsey.Identifier.{WorkloadIdentifier}
use wimsey.Jose.Primitives.{Crypto, Base64}
use wimsey.Jws.Json.{Json}
use wimsey.Mtls.Certificate.{X509}
use wimsey.Mtls.Ca
use wimsey.Mtls.Ca.{WorkloadCa}
use wimsey.Mtls.Verify
use wimsey.Issuer.{checked_add, unwrap_or}
use wimsey.Cli.Error.{CliError, message, identifier, mtls, file, base64}
use wimsey.Cli.Key
use wimsey.Cli.Key.{JwkKey, load}

-- The lines of `chunks(64)`, each with its end; the fuel is more than their number.
unfoldable pub lines_in : ℕ → Str → Str
lines_in zero s = []
lines_in (suc fuel) [] = []
lines_in (suc fuel) (c ∷ s) = take 64 (c ∷ s) ++ (b'\n' ∷ lines_in fuel (drop 64 (c ∷ s)))

abbrev pub begin_line : Str → Str
begin_line label = codes "-----BEGIN " ++ (label ++ codes "-----")

abbrev pub end_line : Str → Str
end_line label = codes "-----END " ++ (label ++ codes "-----")

unfoldable pub pem : Base64 → Str → Bytes → Str
unfolding lines_in
pem standard label der =
    let body = standard.encode der in
    begin_line label ++ (b'\n' ∷ (lines_in (length body) body ++ (end_line label ++ codes "\n")))

-- `find`, as what stands in front of the first place of a text and what stands behind it.
unfoldable pub find_split : Str → Str → Option (Str × Str)
find_split p [] = Option.map (λ rest. ([], rest)) (strip_prefix [] p)
find_split p (c ∷ s) =
    let later = Option.map (λ r. (c ∷ r.0, r.1)) (find_split p s) in
    elim (strip_prefix (c ∷ s) p) [ some rest ↦ some ([], rest) | none ↦ later ]

abbrev pub concat : List Str → Str
concat [] = []
concat (w ∷ ws) = w ++ concat ws

-- What is decoded of a text behind the BEGIN line.
unfoldable pub decode_pem : Base64 → Str → Result CliError Bytes
unfolding find_split
decode_pem standard body = do
  parts ←
      ok_or (find_split (end_line (codes "CERTIFICATE")) body)
        (message (codes "PEM has a BEGIN line but no END line"))
  ok_or (standard.decode (concat (split_whitespace parts.0))) base64

-- A text with no BEGIN line is DER as it stands.
abbrev decode_text : Base64 → Bytes → Option (Str × Str) → Result CliError Bytes
decode_text standard bytes none = ok bytes
decode_text standard bytes (some (front, body)) = decode_pem standard body

-- Bytes that are no text are DER as well.
abbrev pub decode_certificate : Base64 → Bytes → Option Str → Result CliError Bytes
decode_certificate standard bytes none = ok bytes
decode_certificate standard bytes (some text) =
    decode_text standard bytes (find_split (begin_line (codes "CERTIFICATE")) text)

-- `read_certificate`, over `std::str::from_utf8`.
unfoldable pub read_certificate :
    Base64 → (Bytes → Option Str) → (Str → Option Bytes) → Str → Result CliError Bytes
unfolding find_split decode_pem
read_certificate standard from_utf8 read path = do
  bytes ← ok_or (read path) file
  decode_certificate standard bytes (from_utf8 bytes)

-- The arguments of `WicCmd::Issue`, but for the files that it writes.
pub record WicIssueArgs : Type 0 where
  pub ca_key : Str
  pub key : Str
  pub sub : Str
  pub ttl : ℕ
  pub ca_ttl : ℕ
  pub now : Option ℕ

module _ (c : Crypto) (x : X509) (url_safe standard : Base64) (read : Str → Option Bytes) where
  -- The certificates of the authority and of the workload, as they are written out.
  unfoldable pub wic_issue : Json JwkKey → WicIssueArgs → ℕ → Result CliError (Str × Str)
  unfolding pem
  wic_issue key_json args clock =
      let nbf = unwrap_or args.now clock in
      do
        ca_file ← load read key_json args.ca_key
        ca_key ← Key.signing_key {c = c} url_safe ca_file
        key_file ← load read key_json args.key
        workload ← Key.verifying_key {c = c} url_safe key_file
        naf ← ok_or (checked_add nbf args.ttl) (message (codes "ttl overflows the expiry time"))
        ca_naf ←
            ok_or (checked_add nbf args.ca_ttl) (message (codes "ca-ttl overflows the expiry time"))
        ca ← map_err mtls (Ca.from_signing_key x ca_key nbf ca_naf)
        id ← map_err identifier (Identifier.parse (trim args.sub))
        wic ← map_err mtls (Ca.issue x ca id workload nbf naf)
        ok (
          pem standard (codes "CERTIFICATE") ca.certificate_der,
          pem standard (codes "CERTIFICATE") wic,
        )

  -- The subject that `WicCmd::Verify` prints.
  unfoldable pub wic_verify : (Bytes → Option Str) → Str → Str → Option ℕ → ℕ → Result CliError Str
  unfolding read_certificate
  wic_verify from_utf8 cert ca now clock = do
    wic ← read_certificate standard from_utf8 read cert
    ca_der ← read_certificate standard from_utf8 read ca
    id ← map_err mtls (Verify.verify c x wic ca_der (unwrap_or now clock))
    ok id.uri
