-- ===== src/Cli/Laws.antt =====
-- main.rs: what the commands report, and what becomes of a run of the program.
use reverie_ppr.Prelude.{
  ℕ, ◌≡◌, refl, List, [], Option, none, some, Bool, true, false, Array, Outcome, ok, panic,
  type_mismatch, if◌then◌else◌,
}
use reverie_ppr.Crypto.{StreamCipher, Blake3, Key}
use reverie_ppr.Crypto.Oracle.{Xof}
use reverie_ppr.Algebra.{packed}
use reverie_ppr.Witness.{next_bit}
use reverie_ppr.Interpreter.Combine.{CombineOperation}
use reverie_ppr.Proof.{packed_reps}
use reverie_ppr.Proof.Prove
use reverie_ppr.Proof.Prove.{Proof}
use reverie_ppr.Proof.Complete.Verdict.{prove-verify}
use reverie_ppr.Cli.{
  FileName, Run, done, io_error, crashed, out_of_rounds, ◌then◌, try_io, run_rounds, Report, passed,
  complaint, could_not_serialize, World,
}
use reverie_ppr.Cli.Commands.{
  load_program, load_witness, prove, verdict, verify, oneshot_zk, Matches, ChecksTypes, str_value,
  operation_argument, declared, argument, async_main, status, aborted,
}

then-eq-done :
    {A B : Type 0} (call : Run A) (rest : A → Run B) {result : B}
    → (call then rest) ≡ done result
    → (value : A) × (call ≡ done value) × (rest value ≡ done result)
then-eq-done (done a) rest e = (a, refl, e)
then-eq-done io_error rest e = cc
then-eq-done (crashed p) rest e = cc
then-eq-done out_of_rounds rest e = cc

run_rounds-eq-done :
    {A : Type 0} (m : Outcome (Option A)) {a : A} → run_rounds m ≡ done a → m ≡ ok (some a)
run_rounds-eq-done (panic p) e = cc
run_rounds-eq-done (ok none) e = cc
run_rounds-eq-done (ok (some a)) e = cc

try_io-eq-done : {A : Type 0} (o : Option A) {a : A} → try_io o ≡ done a → o ≡ some a
try_io-eq-done none e = cc
try_io-eq-done (some a) e = cc

module _ ⦃b : Blake3⦄ (w : World) where
  -- A proof that is written is read back, and the file `path` is not touched by that.
  pub record KeepsFiles (path proof_path : FileName) : Type 0 where
    pub reads_back :
        (disk created disk' : w.Disk) (proof : Proof)
        → w.create disk proof_path ≡ some created
        → w.serialize_into created proof_path proof ≡ (true, disk')
        → (file : w.File) × (w.open_file disk' proof_path ≡ some file)
          × (w.deserialize_proof file ≡ some proof)
    pub keeps :
        (disk created disk' : w.Disk) (proof : Proof)
        → w.create disk proof_path ≡ some created
        → w.serialize_into created proof_path proof ≡ (true, disk')
        → w.open_file disk' path ≡ w.open_file disk path

module _ ⦃c : StreamCipher⦄ ⦃b : Blake3⦄ ⦃x : Xof⦄ (w : World) (rounds : ℕ)
    (keys : Array (Array Key packed) packed_reps) where
  -- Where writing a proof keeps the program's file and the proof is read back as it was written:
  -- after a `prove` that reports no error, `verify` on the program's file and the proof's file
  -- returns and reports no error.
  pub prove-verify_files :
      (disk disk' : w.Disk) (program_path witness_path proof_path : FileName)
      → KeepsFiles w program_path proof_path
      → prove w rounds keys disk program_path witness_path proof_path ≡ done (passed, disk')
      → verify w rounds keys disk' program_path proof_path ≡ done passed
  unfolding prove verify load_program verdict
  prove-verify_files disk disk' program_path witness_path proof_path files e =
      let (program, e₁, f₁) = then-eq-done (load_program w rounds keys disk program_path) _ e in
      let (witness, e₂, f₂) =
        then-eq-done (load_witness w rounds keys next_bit disk witness_path) _ f₁ in
      let proving = Prove.prove rounds program witness [] (w.largest_wires program) keys in
      let (proof, e₃, f₃) = then-eq-done (run_rounds proving) _ f₂ in
      let (created, e₄, f₄) = then-eq-done (try_io (w.create disk proof_path)) _ f₃ in
      let made = try_io-eq-done (w.create disk proof_path) e₄ in
      let written = w.serialize_into created proof_path proof in
      let (whole, after) = reported written.0 written.1 disk' f₄ in
      let saved : written ≡ (true, disk') = λ i. (whole i, after i) in
      let (file, e₅, e₆) = files.reads_back disk created disk' proof made saved in
      let kept = files.keeps disk created disk' proof made saved in
      let proved = run_rounds-eq-done proving e₃ in
      rw (kept, e₁, e₅, e₆)
        (rw (prove-verify rounds program witness [] (w.largest_wires program) keys proved) refl)
    where
      reported :
          (b : Bool) (d d' : w.Disk)
          → ◌≡◌ {A = Run (Report × w.Disk)}
              (done ((if b then passed else complaint could_not_serialize), d))
              (done (passed, d'))
          → (b ≡ true) × (d ≡ d')
      reported true d d' e = (refl, cc)
      reported false d d' e = cc

  -- What `prove` does when nothing goes wrong.
  pub prove-written :
      (disk created disk' : w.Disk) (program_path witness_path proof_path : FileName)
      (program : List CombineOperation) (witness : List Bool) {proof : Proof}
      → load_program w rounds keys disk program_path ≡ done program
      → load_witness w rounds keys next_bit disk witness_path ≡ done witness
      → Prove.prove rounds program witness [] (w.largest_wires program) keys ≡ ok (some proof)
      → w.create disk proof_path ≡ some created
      → w.serialize_into created proof_path proof ≡ (true, disk')
      → prove w rounds keys disk program_path witness_path proof_path ≡ done (passed, disk')
  unfolding prove
  prove-written disk created disk' program_path witness_path proof_path program witness e₁ e₂ e₃ e₄
        e₅ =
      rw (e₁, e₂, e₃, e₄, e₅) refl

  -- Where the program's file and the witness's file are read and `Proof::new` returns a proof,
  -- `oneshot_zk` returns and reports that the proof passed.
  pub oneshot_zk-passed :
      (disk : w.Disk) (program_path witness_path : FileName) (program : List CombineOperation)
      (witness : List Bool) {proof : Proof}
      → load_program w rounds keys disk program_path ≡ done program
      → load_witness w rounds keys next_bit disk witness_path ≡ done witness
      → Prove.prove rounds program witness [] (w.largest_wires program) keys ≡ ok (some proof)
      → oneshot_zk w rounds keys disk program_path witness_path ≡ done passed
  unfolding oneshot_zk verdict
  oneshot_zk-passed disk program_path witness_path program witness e₁ e₂ e₃ =
      rw (e₁, e₂, e₃)
        (rw (prove-verify rounds program witness [] (w.largest_wires program) keys e₃) refl)

  -- With the arguments that `app` declares, no command is run: the first argument is asked for with
  -- another type than the one declared, and the process is aborted.
  async_main-mismatch :
      (matches : Matches) (disk : w.Disk)
      → ChecksTypes matches
      → status w rounds keys (async_main w rounds keys matches disk) ≡ aborted type_mismatch
  unfolding async_main argument declared status
  async_main-mismatch matches disk checks =
      rw (checks.mismatch str_value operation_argument λ e. cc)
