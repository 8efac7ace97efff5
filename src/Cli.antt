-- ===== src/Cli.antt =====
-- main.rs: the commands of the program. Files, the serialisation of programs and proofs by bincode,
-- the wire counts and the plain evaluation of mcircuit, and the argument parser are parameters.
pub mod Parse
pub mod Commands
pub mod Laws
use reverie_ppr.Prelude.{
  ℕ, List, Option, none, some, Bool, Outcome, ok, panic, Panic, unwrap_failed,
}
use reverie_ppr.Word.{U64}
use reverie_ppr.Crypto.{StreamCipher, Blake3}
use reverie_ppr.Interpreter.Combine.{CombineOperation}
use reverie_ppr.Proof.Prove.{Proof}

-- The name of a file, as its characters.
abbrev pub FileName : Type 0
FileName = List ℕ

-- What a command does: it returns, it returns an error of the file system, it panics, or the
-- rounds that were given for the draw of a challenge are over.
pub data Run (A : Type 0) : Type 0 where
  done : A → Run A
  io_error : Run A
  crashed : Panic → Run A
  out_of_rounds : Run A

infixl 5 ◌then◌
abbrev pub ◌then◌ : {A B : Type 0} → Run A → (A → Run B) → Run B
done a then f = f a
io_error then f = io_error
crashed p then f = crashed p
out_of_rounds then f = out_of_rounds

-- The operator `?` on the result of a call of the file system.
abbrev pub try_io : {A : Type 0} → Option A → Run A
try_io none = io_error
try_io (some a) = done a

abbrev pub unwrap : {A : Type 0} → Option A → Run A
unwrap none = crashed unwrap_failed
unwrap (some a) = done a

-- A call that may panic.
abbrev pub run_call : {A : Type 0} → Outcome A → Run A
run_call (panic p) = crashed p
run_call (ok a) = done a

-- A call that may panic, or that may want more rounds.
abbrev pub run_rounds : {A : Type 0} → Outcome (Option A) → Run A
run_rounds (panic p) = crashed p
run_rounds (ok none) = out_of_rounds
run_rounds (ok (some a)) = done a

-- The messages of the results.
pub data Message : Type 0 where
  could_not_serialize unverifiable : Message

-- `Result<(), String>`
pub data Report : Type 0 where
  passed : Report
  complaint : Message → Report

-- What the commands use of other code: `File::open`, the size and the bytes of an open file,
-- `File::create`, bincode, and mcircuit.
pub record World ⦃b : Blake3⦄ : Type 1 where
  pub Disk : Type 0
  pub File : Type 0
  pub open_file : Disk → FileName → Option File
  pub contents : File → Option (List ℕ)
  pub create : Disk → FileName → Option Disk
  pub serialize_into : Disk → FileName → Proof → Bool × Disk
  pub deserialize_program : File → Option (List CombineOperation)
  pub deserialize_proof : File → Option Proof
  pub largest_wires : List CombineOperation → ℕ × ℕ
  pub evaluate : List CombineOperation → List Bool → List U64 → Outcome (Unit {0})
