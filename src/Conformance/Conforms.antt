-- ===== src/Conformance/Conforms.antt =====
-- crates/conformance/src/run.rs: when the identifier vector leaves a report green.
use wimsey.Common.{
  ◌≡◌, ◌↔◌, ◌⊎◌, inl, inr, true, ◌&&◌, refl, sym, ◌∙◌, List, [], ◌∷◌, ◌++◌, Result, ok, err, is_ok,
  all, All, all→All, All→all, All-map, arith, &&-true,
}
use mathlib.Core.Logic.{ite}
use wimsey.Text.{Str, codes, str_eq, str_eq_iff}
use wimsey.Identifier
use wimsey.Identifier.{WorkloadIdentifier, as_str}
use wimsey.Identifier.Validate.{ParseError}
use wimsey.Conformance.Code.{ErrorCode, ErrorCode-discrete, from_parse}
use wimsey.Conformance.Report.{Decomposition, rejected_as, Report, record_outcome, failed, is_green}
use wimsey.Conformance.Identifiers.{
  IdentifierAccept, IdentifierReject, IdentifierVector, decomposition_eq, accept_outcome,
  expect_reject, reject_outcome, run_accepts, run_rejects, run_identifier, decompose, recorded,
}
use wimsey.Conformance.Green.{is_green-record_outcome}

is_green-run_accepts :
    (name : Str) (cases : List IdentifierAccept) (report : Report)
    → is_green (run_accepts name cases report)
      ≡ is_green report && all (λ case. is_ok (accept_outcome case)) cases
unfolding run_accepts
is_green-run_accepts name [] report = ground arith
is_green-run_accepts name (case ∷ cases) report =
    let next = record_outcome name (codes "accept/" ++ case.id) (accept_outcome case) report in
    ground (
      arith,
      is_green-run_accepts name cases next,
      is_green-record_outcome name (codes "accept/" ++ case.id) (accept_outcome case) report,
    )

is_green-run_rejects :
    (name : Str) (cases : List IdentifierReject) (report : Report)
    → is_green (run_rejects name cases report)
      ≡ is_green report && all (λ case. is_ok (reject_outcome case)) cases
unfolding run_rejects
is_green-run_rejects name [] report = ground arith
is_green-run_rejects name (case ∷ cases) report =
    let next = record_outcome name (codes "reject/" ++ case.id) (reject_outcome case) report in
    ground (
      arith,
      is_green-run_rejects name cases next,
      is_green-record_outcome name (codes "reject/" ++ case.id) (reject_outcome case) report,
    )

-- The recorded text parses, and its parts are the recorded ones.
pub record IsAccepted (case : IdentifierAccept) : Type 0 where
  pub id : WorkloadIdentifier
  pub parsed : Identifier.parse case.identifier ≡ ok id
  pub scheme : as_str id.scheme ≡ case.scheme
  pub trust_domain : Identifier.trust_domain id ≡ case.trust_domain
  pub path : Identifier.path id ≡ case.path
  pub origin : Identifier.origin id ≡ case.origin

-- The recorded text is rejected for the recorded reason.
pub record IsRejected (case : IdentifierReject) : Type 0 where
  pub error : ParseError
  pub parsed : Identifier.parse case.identifier ≡ err error
  pub code : from_parse error ≡ case.expect

Result-cases : {E A : Type 0} (r : Result E A) → ((a : A) × (r ≡ ok a)) ⊎ ((e : E) × (r ≡ err e))
Result-cases (ok a) = inl (a, refl)
Result-cases (err e) = inr (e, refl)

decomposition_eq_iff :
    (d d' : Decomposition)
    → (decomposition_eq d d' ≡ true) ↔ ((d.0 ≡ d'.0) × (d.1 ≡ d'.1) × (d.2 ≡ d'.2) × (d.3 ≡ d'.3))
unfolding decomposition_eq
decomposition_eq_iff (s, t, p, o) (s', t', p', o') = (
  λ h.
      let (first, h1) = &&-true (str_eq s s') (str_eq t t' && (str_eq p p' && str_eq o o')) h in
      let (second, h2) = &&-true (str_eq t t') (str_eq p p' && str_eq o o') h1 in
      let (third, fourth) = &&-true (str_eq p p') (str_eq o o') h2 in
      (
        (str_eq_iff s s').0 first,
        (str_eq_iff t t').0 second,
        (str_eq_iff p p').0 third,
        (str_eq_iff o o').0 fourth,
      ),
  λ e. ground (
    arith,
    (str_eq_iff s s').1 e.0,
    (str_eq_iff t t').1 e.1,
    (str_eq_iff p p').1 e.2,
    (str_eq_iff o o').1 e.3,
  ),
)

accept_outcome_sound :
    (case : IdentifierAccept) → is_ok (accept_outcome case) ≡ true → IsAccepted case
unfolding accept_outcome
accept_outcome_sound case h = elim (Result-cases (Identifier.parse case.identifier)) [
  | inr (e, failed) ↦ ground (arith, failed, h)
  | inl (id, parsed) ↦
      let same : decomposition_eq (decompose id) (recorded case) ≡ true =
        ground (arith, parsed, h) in
      let (scheme, trust_domain, path, origin) =
        (decomposition_eq_iff (decompose id) (recorded case)).0 same in
      record {
        id = id;
        parsed = parsed;
        scheme = scheme;
        trust_domain = trust_domain;
        path = path;
        origin = origin;
      }
]

accept_outcome_complete :
    (case : IdentifierAccept) → IsAccepted case → is_ok (accept_outcome case) ≡ true
unfolding accept_outcome
accept_outcome_complete case a = ground (
  arith,
  a.parsed,
  (decomposition_eq_iff (decompose a.id) (recorded case)).1
      (a.scheme, a.trust_domain, a.path, a.origin),
)

is_ok-ite :
    {P E : Type 0} (d : Dec P) (e : E)
    → (is_ok (ite {C = Result E Unit} d (ok tt) (err e)) ≡ true) ↔ P
is_ok-ite (yes p) e = (λ h. p, λ _. refl)
is_ok-ite (no np) e = (λ h. cc h, λ p. absurd (np p))

expect_reject_iff :
    (expected found : ErrorCode)
    → (is_ok (expect_reject expected (err found)) ≡ true) ↔ (found ≡ expected)
unfolding expect_reject
expect_reject_iff expected found =
    is_ok-ite (ErrorCode-discrete found expected) (rejected_as found expected)

reject_outcome_sound :
    (case : IdentifierReject) → is_ok (reject_outcome case) ≡ true → IsRejected case
unfolding reject_outcome
reject_outcome_sound case h = elim (Result-cases (Identifier.parse case.identifier)) [
  | inl (id, parsed) ↦ ground (arith, parsed, h)
  | inr (e, failed) ↦ record {
    error = e;
    parsed = failed;
    code = (expect_reject_iff case.expect (from_parse e)).0 (ground (arith, failed, h));
  }
]

reject_outcome_complete :
    (case : IdentifierReject) → IsRejected case → is_ok (reject_outcome case) ≡ true
unfolding reject_outcome
reject_outcome_complete case a =
    ground (arith, a.parsed, (expect_reject_iff case.expect (from_parse a.error)).1 a.code)

pub record IsConforming (vector : IdentifierVector) : Type 0 where
  pub accepts : All IsAccepted vector.accept
  pub rejects : All IsRejected vector.reject

-- A run of the identifier vector leaves a report green exactly if it was green, each identifier of `accept` parses into the recorded scheme, trust domain, path and origin, and each of `reject` is refused with the recorded code.
pub run_identifier-is_green_iff :
    (vector : IdentifierVector) (report : Report)
    → (is_green (run_identifier vector report) ≡ true)
      ↔ ((is_green report ≡ true) × IsConforming vector)
unfolding run_identifier
run_identifier-is_green_iff vector report =
    let name = vector.header.suite ++ (codes "/" ++ vector.header.id) in
    let accepts = is_green-run_accepts name vector.accept report in
    let rejects = is_green-run_rejects name vector.reject (run_accepts name vector.accept report) in
    (
      λ h.
          let (before, refused) = &&-true _ _ (sym rejects ∙ h) in
          let (green, taken) = &&-true _ _ (sym accepts ∙ before) in
          (
            green,
            record {
              accepts =
                  All-map _ IsAccepted accept_outcome_sound vector.accept
                    (all→All _ vector.accept taken);
              rejects =
                  All-map _ IsRejected reject_outcome_sound vector.reject
                    (all→All _ vector.reject refused);
            },
          ),
      λ c. ground (
        arith,
        accepts,
        rejects,
        c.0,
        All→all _ vector.accept
            (All-map IsAccepted _ accept_outcome_complete vector.accept c.1.accepts),
        All→all _ vector.reject
            (All-map IsRejected _ reject_outcome_complete vector.reject c.1.rejects),
      ),
    )
