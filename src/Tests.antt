-- ===== src/Tests.antt =====
-- Runs of the modelled code on concrete inputs, and the theorems applied at such inputs.
mod Toy
mod Codec
mod Identifiers
mod Keys
mod Signatures
mod Chosen
mod Fields
mod Tokens
mod Proofs
mod Rows
mod Certificates
mod Issued
mod Trusted
mod Commands
mod Outputs
mod Vectors
