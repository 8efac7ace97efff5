-- ===== src/Proof/Complete.antt =====
-- proof/mod.rs: what `Proof::new` returns, `Proof::verify` accepts.
pub mod Select
pub mod Chunks
pub mod Runs
pub mod Batches
pub mod Accepts
pub mod Verdict

-- What is opened of a repetition in both domains, and the repetition's hash.
pub record Entry (A B : Type 0) : Type 0 where
  pub gf2 : A
  pub z64 : A
  pub hash : B
