-- ===== src/Conformance/Identifiers.antt =====
-- crates/conformance/src/run.rs: `run_identifier`, over the identifier vector of vectors.rs.
use wimsey.Common.{List, [], ◌∷◌, ◌++◌, Result, ok, err, ◌&&◌, Bool, if◌then◌else◌}
use mathlib.Core.Logic.{ite}
use wimsey.Text.{Str, codes, str_eq}
use wimsey.Identifier
use wimsey.Identifier.{WorkloadIdentifier, as_str}
use wimsey.Conformance.Code.{ErrorCode, ErrorCode-discrete, from_parse}
use wimsey.Conformance.Report.{
  Decomposition, Detail, rejected, decomposed, accepted, rejected_as, Report, record_outcome,
}

pub record Header : Type 0 where
  pub format : Str
  pub suite : Str
  pub id : Str
  pub spec : Str
  pub description : Str

pub record IdentifierAccept : Type 0 where
  pub id : Str
  pub description : Str
  pub identifier : Str
  pub scheme : Str
  pub trust_domain : Str
  pub path : Str
  pub origin : Str

pub record IdentifierReject : Type 0 where
  pub id : Str
  pub description : Str
  pub identifier : Str
  pub expect : ErrorCode

pub record IdentifierVector : Type 0 where
  pub header : Header
  pub accept : List IdentifierAccept
  pub reject : List IdentifierReject

unfoldable pub expect_reject : ErrorCode → Result ErrorCode Unit → Result Detail Unit
expect_reject expected (ok _) = err (accepted expected)
expect_reject expected (err found) =
    ite (ErrorCode-discrete found expected) (ok tt) (err (rejected_as found expected))

-- `got`
abbrev pub decompose : WorkloadIdentifier → Decomposition
decompose parsed = (
  as_str parsed.scheme,
  Identifier.trust_domain parsed,
  Identifier.path parsed,
  Identifier.origin parsed,
)

-- `want`
abbrev pub recorded : IdentifierAccept → Decomposition
recorded case = (case.scheme, case.trust_domain, case.path, case.origin)

-- `==` on the tuples.
unfoldable pub decomposition_eq : Decomposition → Decomposition → Bool
decomposition_eq (s, t, p, o) (s', t', p', o') =
    str_eq s s' && (str_eq t t' && (str_eq p p' && str_eq o o'))

-- The `outcome` of an accepted case.
unfoldable pub accept_outcome : IdentifierAccept → Result Detail Unit
unfolding decomposition_eq
accept_outcome case = elim (Identifier.parse case.identifier) [
  | err e ↦ err (rejected e)
  | ok parsed ↦
      if decomposition_eq (decompose parsed) (recorded case)
      then ok tt
      else err (decomposed (decompose parsed) (recorded case))
]

-- The outcome of a rejected case.
unfoldable pub reject_outcome : IdentifierReject → Result Detail Unit
unfolding expect_reject
reject_outcome case =
    expect_reject case.expect
      (elim (Identifier.parse case.identifier) [ ok _ ↦ ok tt | err e ↦ err (from_parse e) ])

unfoldable pub run_accepts : Str → List IdentifierAccept → Report → Report
run_accepts name [] report = report
run_accepts name (case ∷ cases) report =
    run_accepts name cases
      (record_outcome name (codes "accept/" ++ case.id) (accept_outcome case) report)

unfoldable pub run_rejects : Str → List IdentifierReject → Report → Report
run_rejects name [] report = report
run_rejects name (case ∷ cases) report =
    run_rejects name cases
      (record_outcome name (codes "reject/" ++ case.id) (reject_outcome case) report)

unfoldable pub run_identifier : IdentifierVector → Report → Report
run_identifier vector report =
    let name = vector.header.suite ++ (codes "/" ++ vector.header.id) in
    run_rejects name vector.reject (run_accepts name vector.accept report)
