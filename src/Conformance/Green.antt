-- ===== src/Conformance/Green.antt =====
-- crates/conformance/src/run.rs: when a report is green.
use wimsey.Common.{
  ◌-◌, ◌≤◌, ◌≡◌, true, false, ◌&&◌, refl, none, some, List, [], ◌∷◌, Result, ok, err, is_ok, length,
  all, all-append, ◌==◌, arith,
}
use wimsey.Text.{Str}
use wimsey.Conformance.Report.{
  Detail, Check, Report, pass, fail, record_outcome, filter_passed, passed, failed, is_green,
}

filter_passed-length : (cs : List Check) → length (filter_passed cs) ≤ length cs
unfolding filter_passed
filter_passed-length [] = omega arith
filter_passed-length (c ∷ cs) = ground (arith, filter_passed-length cs)

filter_passed-all :
    (cs : List Check) → (length cs - length (filter_passed cs) == 0) ≡ all (λ c. c.passed) cs
unfolding filter_passed
filter_passed-all [] = refl
filter_passed-all (c ∷ cs) = ground (arith, filter_passed-length cs, filter_passed-all cs)

-- A report is green if each of its checks passed.
is_green-all : (report : Report) → is_green report ≡ all (λ c. c.passed) report.checks
unfolding is_green failed passed
is_green-all report = filter_passed-all report.checks

pub is_green-record_outcome :
    (vector name : Str) (outcome : Result Detail Unit) (report : Report)
    → is_green (record_outcome vector name outcome report) ≡ is_green report && is_ok outcome
unfolding record_outcome pass fail
is_green-record_outcome vector name (ok _) report = ground (
  arith,
  is_green-all report,
  is_green-all (pass vector name report),
  all-append (λ c. c.passed) report.checks
      (record { vector = vector; name = name; passed = true; detail = none } ∷ []),
)
is_green-record_outcome vector name (err detail) report = ground (
  arith,
  is_green-all report,
  is_green-all (fail vector name detail report),
  all-append (λ c. c.passed) report.checks
      (record { vector = vector; name = name; passed = false; detail = some detail } ∷ []),
)
