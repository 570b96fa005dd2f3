-- ===== src/Jws.antt =====
-- What crates/wit/src/token.rs and crates/wpt/src/token.rs share: the compact serialization of a
-- signed token, and the JSON that `serde_json` reads and writes.
pub mod Compact
pub mod Json
