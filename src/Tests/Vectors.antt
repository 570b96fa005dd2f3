-- ===== src/Tests/Vectors.antt =====
-- crates/conformance on a vector of one identifier that parses and one that does not.
use wimsey.Common.{◌≡◌, ◌↔◌, true, [], ◌∷◌}
use wimsey.Text.{codes}
use wimsey.Conformance.Code.{ErrorCode}
use wimsey.Conformance.Report.{Report, is_green}
use wimsey.Conformance.Identifiers.{Header, IdentifierVector, run_identifier}
use wimsey.Conformance.Conforms.{IsConforming, run_identifier-is_green_iff}

abbrev header : Header
header = record {
  format = codes "wimsey-conformance-v1";
  suite = codes "identifier";
  id = codes "parse";
  spec = codes "";
  description = codes "";
}

abbrev vector : ErrorCode → IdentifierVector
vector expect = record {
  header = header;
  accept =
      record {
        id = codes "spiffe";
        description = codes "";
        identifier = codes "spiffe://a.b/c";
        scheme = codes "spiffe";
        trust_domain = codes "a.b";
        path = codes "/c";
        origin = codes "spiffe://a.b";
      }
      ∷ [];
  reject =
      record {
        id = codes "query";
        description = codes "";
        identifier = codes "spiffe://a.b/c?d";
        expect = expect;
      }
      ∷ [];
}

abbrev empty : Report
empty = record { checks = [] }

run_identifier-is_green_iff_example :
    (is_green (run_identifier (vector ErrorCode.has_query) empty) ≡ true)
    ↔ ((is_green empty ≡ true) × IsConforming (vector ErrorCode.has_query))
run_identifier-is_green_iff_example = run_identifier-is_green_iff (vector ErrorCode.has_query) empty
