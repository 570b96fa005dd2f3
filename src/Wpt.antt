-- ===== src/Wpt.antt =====
-- crates/wpt: Workload Proof Tokens.
pub mod Error
pub mod Token
pub mod Checks
pub mod Accepts
pub mod Issue
