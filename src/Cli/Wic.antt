-- ===== src/Cli/Wic.antt =====
-- A certificate that `wic issue` writes verifies with `wic verify`.
use wimsey.Common.{
  ℕ, ◌+◌, ◌≤◌, ◌≡◌, refl, ap, sym, ◌∙◌, Bool, true, Option, some, [], ◌∷◌, ◌++◌, ok, ok_or, map_err,
  arith, length, ltb, all, all-append, >>=-eq-ok, ok_or-eq-ok, map_err-eq-ok, ok-injective,
}
use wimsey.Text.{Str, Bytes, codes, trim, as_bytes, as_bytes_of_ascii}
use wimsey.Identifier
use wimsey.Identifier.{WorkloadIdentifier}
use wimsey.Identifier.Parts.{parse-uri, parse-display}
use wimsey.Jose.Primitives.{Crypto, IsCorrectCrypto, Base64}
use wimsey.Jws.Json.{Json}
use wimsey.Mtls.Certificate.{X509}
use wimsey.Mtls.Ca
use wimsey.Mtls.Ca.{i64_max}
use wimsey.Mtls.Laws.{IsX509}
use wimsey.Mtls.Issue.{mtls_verify-issue}
use wimsey.Issuer.{checked_add, unwrap_or}
use wimsey.Issuer.Grants.{checked_add-eq-some}
use wimsey.Cli.Error.{identifier, mtls}
use wimsey.Cli.Key
use wimsey.Cli.Key.{JwkKey, load}
use wimsey.Cli.Certificates.{
  pem, end_line, lines_in, read_certificate, WicIssueArgs, wic_issue, wic_verify,
}
use wimsey.Cli.Pem.{IsStandard, is_line_char, lines_in-solid, decode_certificate-pem}

abbrev pub is_ascii : Str → Bool
is_ascii s = all (λ c. ltb c 0x80) s

line_ascii : (s : Str) → all is_line_char s ≡ true → is_ascii s ≡ true
line_ascii [] h = refl
line_ascii (c ∷ s) h = let more = line_ascii s (ground arith) in ground arith

module _ (standard : Base64) (laws : IsStandard standard) where
  pem_ascii : (der : Bytes) → is_ascii (pem standard (codes "CERTIFICATE") der) ≡ true
  unfolding pem
  pem_ascii der =
      let body = standard.encode der in
      let lines = lines_in (length body) body in
      let ends = end_line (codes "CERTIFICATE") ++ codes "\n" in
      let (chars, kept) = lines_in-solid (length body) body (omega arith) (laws.alphabet der) in
      all-append (λ c. ltb c 0x80) lines ends ∙ rw (line_ascii lines chars) refl

  module _ (from_utf8 : Bytes → Option Str)
      (utf8 : (s : Str) → is_ascii s ≡ true → from_utf8 s ≡ some s)
      (read : Str → Option Bytes) where
    -- A file that holds the PEM of a certificate is read back to its DER.
    read_certificate-pem :
        (path : Str) (der : Bytes)
        → read path ≡ some (as_bytes (pem standard (codes "CERTIFICATE") der))
        → read_certificate standard from_utf8 read path ≡ ok der
    unfolding read_certificate
    read_certificate-pem path der h =
        let text = pem standard (codes "CERTIFICATE") der in
        let same = as_bytes_of_ascii text (pem_ascii der) in
        rw (h, same, utf8 text (pem_ascii der)) (decode_certificate-pem standard laws text der)

module _ {c : Crypto} (laws : IsCorrectCrypto c) (x : X509) (certificates : IsX509 x)
    (url_safe standard : Base64) (standard_laws : IsStandard standard)
    (from_utf8 : Bytes → Option Str)
    (utf8 : (s : Str) → is_ascii s ≡ true → from_utf8 s ≡ some s) where
  -- Under the laws of the parameters, the certificates that `wic issue` writes, once in files, are accepted by `wic verify`, which prints the trimmed subject that was asked for, at every instant of 63 bits from the clock of the issue to the end of both lifetimes.
  pub wic_verify-wic_issue :
      (read : Str → Option Bytes) (key_json : Json JwkKey) (args : WicIssueArgs) (clock : ℕ)
      (ca_text wic_text : Str) (read_after : Str → Option Bytes) (ca_path wic_path : Str)
      (now later : ℕ) (at : x.Time)
      → wic_issue c x url_safe standard read key_json args clock ≡ ok (ca_text, wic_text)
      → read_after ca_path ≡ some (as_bytes ca_text)
      → read_after wic_path ≡ some (as_bytes wic_text)
      → now ≤ i64_max
      → x.from_timestamp now ≡ some at
      → unwrap_or args.now clock ≤ now
      → now ≤ unwrap_or args.now clock + args.ca_ttl
      → now ≤ unwrap_or args.now clock + args.ttl
      → wic_verify c x url_safe standard read_after from_utf8 wic_path ca_path (some now) later
        ≡ ok (trim args.sub)
  unfolding wic_issue wic_verify
  wic_verify-wic_issue read key_json args clock ca_text wic_text read_after ca_path wic_path now
        later at h ca_file wic_file early instant after ca_before before =
      let nbf = unwrap_or args.now clock in
      let (ca_jwk, h0, k0) = >>=-eq-ok (load read key_json args.ca_key) _ h in
      let (ca_key, h1, k1) = >>=-eq-ok (Key.signing_key {c = c} url_safe ca_jwk) _ k0 in
      let (jwk, h2, k2) = >>=-eq-ok (load read key_json args.key) _ k1 in
      let (workload, h3, k3) = >>=-eq-ok (Key.verifying_key {c = c} url_safe jwk) _ k2 in
      let (naf, h4, k4) = >>=-eq-ok (ok_or (checked_add nbf args.ttl) _) _ k3 in
      let (ca_naf, h5, k5) = >>=-eq-ok (ok_or (checked_add nbf args.ca_ttl) _) _ k4 in
      let (ca, h6, k6) = >>=-eq-ok (map_err mtls (Ca.from_signing_key x ca_key nbf ca_naf)) _ k5 in
      let (id, h7, k7) = >>=-eq-ok (map_err identifier (Identifier.parse (trim args.sub))) _ k6 in
      let (wic, h8, k8) =
        >>=-eq-ok (map_err mtls (Ca.issue x ca id workload nbf naf))
          (λ w. ok (
            pem standard (codes "CERTIFICATE") ca.certificate_der,
            pem standard (codes "CERTIFICATE") w,
          ))
          k7 in
      let out = ok-injective k8 in
      let (sum, fits) = checked_add-eq-some nbf args.ttl (ok_or-eq-ok _ _ naf h4) in
      let (ca_sum, ca_fits) = checked_add-eq-some nbf args.ca_ttl (ok_or-eq-ok _ _ ca_naf h5) in
      let parsed = map_err-eq-ok identifier _ id h7 in
      let verified =
        mtls_verify-issue laws x certificates ca_key nbf ca_naf ca id workload nbf naf wic now at
          (map_err-eq-ok mtls _ ca h6) (map_err-eq-ok mtls _ wic h8)
          (parse-display (trim args.sub) parsed) early instant
          (after, omega (arith, ca_before, ca_sum)) (after, omega (arith, before, sum)) in
      let read_wic =
        read_certificate-pem standard standard_laws from_utf8 utf8 read_after wic_path wic
          (wic_file ∙ ap (λ p. some (as_bytes p.1)) (sym out)) in
      let read_ca =
        read_certificate-pem standard standard_laws from_utf8 utf8 read_after ca_path
          ca.certificate_der (ca_file ∙ ap (λ p. some (as_bytes p.0)) (sym out)) in
      rw (read_wic, read_ca, verified) (ap ok (parse-uri (trim args.sub) parsed))
