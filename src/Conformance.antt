-- ===== src/Conformance.antt =====
-- crates/conformance: the error codes of the vectors, the report of a run and the run of the
-- identifier vector.
pub mod Code
pub mod Report
pub mod Identifiers
pub mod Green
pub mod Conforms
