-- ===== src/HttpSig.antt =====
-- crates/httpsig: RFC 9421 message signatures under the WIMSE profile.
pub mod Error
pub mod Message
pub mod Params
pub mod Field
pub mod Member
pub mod Profile
pub mod Signature
pub mod Accepts
pub mod Chosen
pub mod Base
pub mod Ids
pub mod Strings
pub mod Covers
pub mod Signs
pub mod Chooses
