-- ===== src/Lib.antt =====
-- Verification of Reverie, a prover and a verifier for circuits by MPC in the head.
--
-- A witness is shared between eight simulated players, a circuit is run on the shares, and a
-- verifier is later given the keys of seven players and the messages of the eighth. Eight
-- repetitions are packed into each element. The parts, and the files that model them:
--
--   src/crypto/hash.rs, prg.rs       Crypto, Crypto/Hash, Crypto/Prg
--   src/crypto/ro.rs                 Crypto/Oracle
--   src/algebra/mod.rs               Algebra (the trait `Domain` and its lanes), Algebra/Codec
--   src/algebra/z64                  Word, Algebra/Z64 and its children
--   src/algebra/gf2                  Bits, Word/Bits, Algebra/Gf2 and its children
--   src/generator                    Generator, Generator/Omit, Generator/Keys
--   src/transcript/mod.rs            Transcript, Transcript/Seeds
--   src/transcript/prover.rs         Transcript/Prover, Transcript/Extract
--   src/transcript/verifier          Transcript/Online, Transcript/Preprocess
--   src/interpreter/mod.rs, single.rs    Interpreter, Interpreter/Single and its children
--   src/interpreter/combine.rs       Interpreter/Combine and its children
--   src/proof/mod.rs                 Proof, Proof/Challenge, Proof/Prove, Proof/Verify and, on
--                                    what of a proof is accepted, Proof/Complete
--   src/witness.rs                   Witness
--   src/main.rs                      Cli, Cli/Parse, Cli/Commands; Cli/Laws on what it does
--
-- Interpreter/Plain is the meaning of a circuit on plain values, Replay relates the online
-- verifier's machine to the prover's, and Redo the preprocessing verifier's, first in one domain
-- and then, in their children Combine, over both domains at once. Prelude, Ring and
-- their children are shared notions and lemmas; Tests holds concrete runs.
--
-- An operation on a mutable object is a function that also returns the object after it. A call
-- that can panic returns an `Outcome` (Prelude/Panics); debug assertions are left out. A
-- static array is a function of an index below its size, a `Vec` and an iterator are lists,
-- and a `u64` is a number below 2 ^ 64 with wrapping operations. The loops run over lists and
-- static sizes, but for two that take fuel: the one that draws a challenge, a number of rounds,
-- since how soon it ends is up to the random oracle; and the one that parses a file, one more than
-- the file has bytes, which is enough since each element takes a byte.
--
-- The stream cipher, blake3 and its extendable output are parameters (Crypto); of blake3 it is
-- assumed that successive updates hash the concatenation. A `Domain` is a record of
-- operations, and `Lanes` says that each repetition of a packed element is a ring element or
-- one for each player, and that every operation acts on each repetition by itself. Transcripts
-- and circuits are modelled for any domain; those over bits and over 64-bit integers are
-- instances. The vector instructions of src/algebra/gf2/domain.rs act on registers that are given
-- byte by byte; the documented effect of each is written out in Algebra/Gf2/Transpose.
-- `mcircuit::Operation` has the constructors that `Instance::step` matches, and
-- `CombineOperation` those that `CombineInstance::step` matches. A `HashMap` is the
-- list of its entries.
--
-- Of the command line, files, bincode, the arguments that clap finds and what is called of
-- mcircuit are parameters (Cli, Cli/Commands), and a law on files is named where it is assumed. Not
-- modelled are what is printed and, of the declaration of the arguments (`app`), all but their
-- types. Serialisation and
-- comparison for debugging and tests are left out. The parallel maps of src/proof/mod.rs are maps
-- in order, and the keys that the system's generator fills are an argument.
pub mod Prelude
pub mod Ring
pub mod Bits
pub mod Word
pub mod Crypto
pub mod Algebra
pub mod Generator
pub mod Transcript
pub mod Interpreter
pub mod Replay
pub mod Redo
pub mod Proof
pub mod Witness
pub mod Cli
pub mod Tests
