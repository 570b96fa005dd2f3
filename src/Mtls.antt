-- ===== src/Mtls.antt =====
-- crates/mtls: Workload Identity Certificates.
pub mod Error
pub mod Der
pub mod Pkcs8
pub mod Certificate
pub mod Ca
pub mod Verify
pub mod Checks
pub mod Accepts
pub mod Laws
pub mod Issue
