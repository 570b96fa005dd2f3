-- ===== src/Conformance/Report.antt =====
-- crates/conformance/src/run.rs: the checks of a run and their counts.
use wimsey.Common.{
  ℕ, ◌-◌, Bool, true, false, Option, none, some, List, [], ◌∷◌, ◌++◌, Result, ok, err, length, ◌==◌,
  if◌then◌else◌,
}
use wimsey.Text.{Str}
use wimsey.Identifier.Validate.{ParseError}
use wimsey.Conformance.Code.{ErrorCode}

-- `(scheme, trust_domain, path, origin)`
abbrev pub Decomposition : Type 0
Decomposition = Str × Str × Str × Str

-- What the text of a failed check names.
pub data Detail : Type 0 where
  rejected : ParseError → Detail
  decomposed : Decomposition → Decomposition → Detail
  accepted : ErrorCode → Detail
  rejected_as : ErrorCode → ErrorCode → Detail

pub record Check : Type 0 where
  pub vector : Str
  pub name : Str
  pub passed : Bool
  pub detail : Option Detail

pub record Report : Type 0 where
  pub checks : List Check

unfoldable pub pass : Str → Str → Report → Report
pass vector name report = record {
  checks =
      report.checks ++ (record { vector = vector; name = name; passed = true; detail = none } ∷ []);
}

unfoldable pub fail : Str → Str → Detail → Report → Report
fail vector name detail report = record {
  checks =
      report.checks
      ++ (record { vector = vector; name = name; passed = false; detail = some detail } ∷ []);
}

-- `Report::record`
unfoldable pub record_outcome : Str → Str → Result Detail Unit → Report → Report
record_outcome vector name (ok _) report = pass vector name report
record_outcome vector name (err detail) report = fail vector name detail report

unfoldable pub filter_passed : List Check → List Check
filter_passed [] = []
filter_passed (c ∷ cs) = let rest = filter_passed cs in if c.passed then c ∷ rest else rest

unfoldable pub passed : Report → ℕ
passed report = length (filter_passed report.checks)

unfoldable pub failed : Report → ℕ
failed report = length report.checks - passed report

unfoldable pub is_green : Report → Bool
is_green report = failed report == 0
