-- ===== src/Cli/Commands.antt =====
-- main.rs: `prove`, `verify`, `oneshot`, `oneshot_zk`, and what `async_main` makes of their results.
use reverie_ppr.Prelude.{
  ℕ, List, [], map, Option, Bool, not, Array, Panic, unreachable_code, type_mismatch, panic, ◌≢◌,
  ◌≡◌, Outcome, if◌then◌else◌,
}
use reverie_ppr.Crypto.{StreamCipher, Blake3, Key}
use reverie_ppr.Crypto.Oracle.{Xof}
use reverie_ppr.Algebra.{packed}
use reverie_ppr.Algebra.Gf2.Recon.{is_zero}
use reverie_ppr.Witness.{next_bit, next_recon}
use reverie_ppr.Interpreter.Combine.{CombineOperation}
use reverie_ppr.Proof.{packed_reps}
use reverie_ppr.Proof.Prove
use reverie_ppr.Proof.Verify
use reverie_ppr.Cli.{
  FileName, Run, done, io_error, crashed, out_of_rounds, ◌then◌, try_io, unwrap, run_call,
  run_rounds, Report, passed, complaint, could_not_serialize, unverifiable, World,
}
use reverie_ppr.Cli.Parse.{parse_file}

-- The values of the argument `operation`, and any other.
pub data Command : Type 0 where
  oneshot_command oneshot_zk_command prove_command verify_command version_info other : Command

-- The arguments, and the types that an argument is declared or asked for with.
pub data ArgumentName : Type 0 where
  operation_argument program_path_argument witness_path_argument proof_path_argument : ArgumentName

pub data ArgumentType : Type 0 where
  str_value string_value path_buf_value : ArgumentType

-- The `value_parser` of each argument in `app`: clap makes a `String` of a list of literals.
unfoldable pub declared : ArgumentName → ArgumentType
declared operation_argument = string_value
declared program_path_argument = path_buf_value
declared witness_path_argument = path_buf_value
declared proof_path_argument = path_buf_value

-- What the code makes of an argument's value.
abbrev pub Value : ArgumentName → Type 0
Value operation_argument = Command
Value program_path_argument = FileName
Value witness_path_argument = FileName
Value proof_path_argument = FileName

-- `ArgMatches`: what clap's `get_one` returns, or panics with, for an argument that is asked for
-- with a type.
pub record Matches : Type 0 where
  pub get_one : ArgumentType → (name : ArgumentName) → Outcome (Option (Value name))

-- What clap documents of `get_one`: it panics where the type is not the one that the argument is
-- declared with.
pub record ChecksTypes (matches : Matches) : Type 0 where
  pub mismatch :
      (asked : ArgumentType) (name : ArgumentName)
      → asked ≢ declared name
      → matches.get_one asked name ≡ panic type_mismatch

-- How the process ends.
pub data Status : Type 0 where
  success failure : Status
  aborted : Panic → Status
  unfinished : Status

module _ ⦃c : StreamCipher⦄ ⦃b : Blake3⦄ ⦃x : Xof⦄ (w : World) (rounds : ℕ)
    (keys : Array (Array Key packed) packed_reps) where
  -- `let program: Vec<CombineOperation> = bincode::deserialize_from(program_reader).unwrap()`
  unfoldable pub load_program : w.Disk → FileName → Run (List CombineOperation)
  load_program disk path =
      try_io (w.open_file disk path) then λ file. unwrap (w.deserialize_program file)

  -- `FileStreamer::new` and `rewind`
  unfoldable pub load_witness :
      {A : Type 0} → (List ℕ → Option A × List ℕ) → w.Disk → FileName → Run (List A)
  unfolding parse_file
  load_witness next disk path = try_io (w.open_file disk path) then λ file.
      try_io (w.contents file) then λ bytes. done (parse_file next bytes)

  unfoldable pub prove : w.Disk → FileName → FileName → FileName → Run (Report × w.Disk)
  unfolding load_program load_witness Prove.prove
  prove disk program_path witness_path proof_path = load_program disk program_path then λ program.
      load_witness next_bit disk witness_path then λ witness.
      run_rounds (Prove.prove rounds program witness [] (w.largest_wires program) keys)
      then λ proof. try_io (w.create disk proof_path) then λ created.
          let (written, disk') = w.serialize_into created proof_path proof in
          done ((if written then passed else complaint could_not_serialize), disk')

  unfoldable pub verdict : Bool → Report
  verdict accepted = if accepted then passed else complaint unverifiable

  unfoldable pub verify : w.Disk → FileName → FileName → Run Report
  unfolding load_program Verify.verify verdict
  verify disk program_path proof_path = load_program disk program_path then λ program.
      try_io (w.open_file disk proof_path) then λ file.
      unwrap (w.deserialize_proof file) then λ proof.
      let (z64_count, gf2_count) = w.largest_wires program in
      run_rounds (Verify.verify program z64_count gf2_count rounds proof) then λ accepted.
      done (verdict accepted)

  unfoldable pub oneshot : w.Disk → FileName → FileName → Run (Unit {0})
  unfolding load_program load_witness
  oneshot disk program_path witness_path = load_program disk program_path then λ program.
      load_witness next_recon disk witness_path then λ witness.
      run_call (w.evaluate program (map (λ r. not (is_zero r)) witness) [])

  unfoldable pub oneshot_zk : w.Disk → FileName → FileName → Run Report
  unfolding load_program load_witness Prove.prove Verify.verify verdict
  oneshot_zk disk program_path witness_path = load_program disk program_path then λ program.
      load_witness next_bit disk witness_path then λ witness.
      let counts = w.largest_wires program in
      run_rounds (Prove.prove rounds program witness [] counts keys) then λ proof.
      run_rounds (Verify.verify program counts.0 counts.1 rounds proof) then λ accepted.
      done (verdict accepted)

  -- `*matches.get_one(name).unwrap()`, the result of which is used as a `&str`.
  unfoldable pub argument : Matches → (name : ArgumentName) → Run (Value name)
  argument matches name = run_call (matches.get_one str_value name) then unwrap

  -- `async_main`, with the disk that it leaves. What is printed is left out.
  unfoldable pub async_main : Matches → w.Disk → Run w.Disk
  unfolding argument prove verify oneshot oneshot_zk
  async_main matches disk = argument matches operation_argument then run_command
    where
      run_command : Command → Run w.Disk
      run_command oneshot_command = argument matches program_path_argument then λ program_path.
          argument matches witness_path_argument then λ witness_path.
          oneshot disk program_path witness_path then λ _. done disk
      run_command oneshot_zk_command = argument matches program_path_argument then λ program_path.
          argument matches witness_path_argument then λ witness_path.
          oneshot_zk disk program_path witness_path then λ _. done disk
      run_command prove_command = argument matches program_path_argument then λ program_path.
          argument matches witness_path_argument then λ witness_path.
          argument matches proof_path_argument then λ proof_path.
          prove disk program_path witness_path proof_path then λ (_, disk'). done disk'
      run_command verify_command = argument matches program_path_argument then λ program_path.
          argument matches proof_path_argument then λ proof_path.
          verify disk program_path proof_path then λ _. done disk
      run_command version_info = done disk
      run_command other = crashed unreachable_code

  -- The end of the process: `exit(-1)` for an error of the file system only.
  unfoldable pub status : Run w.Disk → Status
  status (done disk) = success
  status io_error = failure
  status (crashed p) = aborted p
  status out_of_rounds = unfinished
