-- ===== src/Cli.antt =====
-- crates/cli/src: the commands. A file is read through a function, the clock and random bytes are
-- arguments, and what a command prints is what it returns.
pub mod Error
pub mod Key
pub mod Request
pub mod HttpSign
pub mod Commands
pub mod Tokens
pub mod Certificates
pub mod Pem
pub mod Wic
pub mod Output
