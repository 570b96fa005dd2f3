-- ===== src/Jose.antt =====
-- crates/jose: the algorithms, the keys and the JSON Web Key of a credential. The cryptographic
-- primitives and Base64url are parameters.
pub mod Primitives
pub mod Algorithm
pub mod Key
pub mod Jwk
pub mod Accepts
