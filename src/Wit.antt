-- ===== src/Wit.antt =====
-- crates/wit: Workload Identity Tokens.
pub mod Error
pub mod Claims
pub mod Token
pub mod Checks
pub mod Accepts
pub mod Issue
