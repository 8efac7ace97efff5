-- ===== src/Tests.antt =====
-- Runs of the definitions on concrete inputs, with a toy stream cipher and a toy hash.
pub mod Toy
mod Bits
mod Challenge
mod Cli
mod Combined
mod Complete
mod Hashing
mod Proofs
mod Witnesses
