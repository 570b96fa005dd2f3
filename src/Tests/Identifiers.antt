-- ===== src/Tests/Identifiers.antt =====
-- crates/identifier/src/lib.rs on the texts of its own tests.
use wimsey.Common.{◌≡◌, ◌↔◌, refl, List, [], ◌++◌, ok, err, All}
use wimsey.Text.{
  Str, codes, to_ascii_lowercase, strip_prefix, contains_char, split_once, split, len, slice_from,
  str_eq,
}
use wimsey.Identifier.Validate.{
  Scheme, spiffe, wimse, unsupported_scheme, has_query, has_user_info, empty_trust_domain,
  invalid_trust_domain_char, empty_path_segment, dot_segment, invalid_path_char,
  bad_percent_encoding, non_normalized_percent_encoding, is_trust_domain_char, is_spiffe_char,
  is_ascii_hexdigit, is_ascii_lowercase, is_pchar_byte, decode_hex, validate_trust_domain,
  validate_path, validate_segment,
}
use wimsey.Identifier.{
  WorkloadIdentifier, prefix, parse, parse_rest, split_path, validate, trust_domain, path, origin,
}
use wimsey.Identifier.Grammar.{IsIdentifier, IsSegment, IsTrustDomain, render, identifier}
use wimsey.Identifier.Parser.{parse_iff}
use wimsey.Identifier.Parts.{parts-parse, parse-origin}
use wimsey.Identifier.Normal.{normalize, normalize-parse, parse-unique_spelling}
use wimsey.Identifier.Schemes.{parse-rescheme}

abbrev text : Str
text = codes "spiffe://example.org/workload/api"

abbrev value : WorkloadIdentifier
value = record { uri = text; scheme = spiffe; trust_domain_len = 11 }

abbrev escaped : Str
escaped = codes "wimse://trust.example.com/a%2Fb"

abbrev escaped_value : WorkloadIdentifier
escaped_value = record { uri = escaped; scheme = wimse; trust_domain_len = 17 }

parse-text : parse text ≡ ok value
unfolding parse parse_rest split_path validate validate_trust_domain validate_path validate_segment
    is_trust_domain_char is_spiffe_char strip_prefix contains_char split_once split len str_eq
parse-text = refl

parse-escaped : parse escaped ≡ ok escaped_value
unfolding parse parse_rest split_path validate validate_trust_domain validate_path validate_segment
    is_trust_domain_char is_pchar_byte strip_prefix contains_char split_once split len
    is_ascii_hexdigit is_ascii_lowercase decode_hex str_eq
parse-escaped = refl

errors :
    (parse (codes "https://example.org/x") ≡ err unsupported_scheme)
    × (parse (codes "spiffe://example.org/x?y") ≡ err has_query)
    × (parse (codes "spiffe://user@example.org/x") ≡ err has_user_info)
    × (parse (codes "spiffe:///x") ≡ err empty_trust_domain)
    × (parse (codes "spiffe://Example.org/x") ≡ err (invalid_trust_domain_char b'E'))
    × (parse (codes "spiffe://example.org/x/") ≡ err empty_path_segment)
    × (parse (codes "spiffe://example.org/../x") ≡ err dot_segment)
    × (parse (codes "wimse://example.org/%2") ≡ err bad_percent_encoding)
    × (parse (codes "wimse://example.org/%61pi")
        ≡ err (non_normalized_percent_encoding (codes "61")))
    × (parse (codes "wimse://example.org/aé") ≡ err (invalid_path_char 0xe9))
unfolding parse parse_rest split_path validate validate_trust_domain validate_path validate_segment
    is_trust_domain_char is_pchar_byte is_spiffe_char strip_prefix contains_char split_once split
    len is_ascii_hexdigit is_ascii_lowercase decode_hex str_eq slice_from
errors = (refl, refl, refl, refl, refl, refl, refl, refl, refl, refl)

parse_iff_example : (parse text ≡ ok value) ↔ (
    (scheme : Scheme) × (td : Str) × (gs : List Str) × IsIdentifier text scheme td gs
    × (value ≡ identifier text scheme td))
parse_iff_example = parse_iff text value

parts-parse_example :
    (prefix spiffe ++ (trust_domain value ++ path value) ≡ text)
    × (origin value ++ path value ≡ text)
    × IsTrustDomain spiffe (trust_domain value)
    × ((gs : List Str) × (path value ≡ render gs) × All (IsSegment spiffe) gs)
parts-parse_example = parts-parse text parse-text

parse-origin_example :
    (o : WorkloadIdentifier) × (parse (origin value) ≡ ok o)
    × (o.scheme ≡ spiffe)
    × (trust_domain o ≡ trust_domain value)
    × (path o ≡ [])
    × (origin o ≡ origin value)
parse-origin_example = parse-origin text parse-text

parse-unique_spelling_example : escaped ≡ escaped
parse-unique_spelling_example =
    parse-unique_spelling escaped escaped parse-escaped parse-escaped refl refl refl

normalize-parse_example :
    (to_ascii_lowercase (trust_domain escaped_value) ≡ trust_domain escaped_value)
    × (normalize (path escaped_value) ≡ path escaped_value)
normalize-parse_example = normalize-parse escaped parse-escaped

parse-rescheme_example :
    (other : WorkloadIdentifier) × (parse (codes "wimse://example.org/workload/api") ≡ ok other)
    × (trust_domain other ≡ trust_domain value)
    × (path other ≡ path value)
parse-rescheme_example = parse-rescheme (codes "example.org/workload/api") parse-text
