-- ===== src/Tests/Cli.antt =====
-- The theorems about src/main.rs and src/witness.rs at inputs where their hypotheses hold: a disk
-- in memory.
use reverie_ppr.Prelude.{
  ℕ, ◌≡◌, refl, sym, ap, ◌∙◌, true, false, Bool, List, [], ◌∷◌, map, Option, none, some, ok,
  if◌then◌else◌, Array, read, write, All,
}
use reverie_ppr.Crypto.{StreamCipher, Blake3, Key}
use reverie_ppr.Crypto.Oracle.{Xof, oracle_new, fill}
use reverie_ppr.Witness.{next_bit, next_recon, bit_of, or_skip, digit, next_bit-digit}
use reverie_ppr.Interpreter.Combine.{
  CombineOperation, size_hint, gf2_op, b2a, resize, wires_from, step_b2a, combine_step, combine_new,
}
use reverie_ppr.Interpreter.Single.{instance_new, default_wire, assign, step}
use reverie_ppr.Interpreter.{input, mul}
use reverie_ppr.Transcript.Prover
use reverie_ppr.Algebra.Gf2.Recon.{from}
use reverie_ppr.Proof.Assembled.{some_injective}
use reverie_ppr.Proof.Challenge.{
  challenge_to_opening, draw_openings, draw_opening, random_int, insert,
}
use reverie_ppr.Proof.Prove.{Proof, assemble, execute_all, execute, run_combined}
use reverie_ppr.Proof.Prove
use reverie_ppr.Proof.Verify.{same_bytes}
use reverie_ppr.Proof.Complete.Accepts.{same_bytes_refl}
use reverie_ppr.Cli.{FileName, done, passed, World, ◌then◌}
use reverie_ppr.Cli.Parse.{parse_file, parse_all, bits_of, parse_file-bits_of}
use reverie_ppr.Cli.Commands.{load_program, load_witness, prove, verify, oneshot_zk}
use reverie_ppr.Cli.Laws.{KeepsFiles, prove-written, prove-verify_files, oneshot_zk-passed}
use reverie_ppr.Tests.Toy.{toy_cipher, toy_hash, toy_xof, key, returned}

instance abbrev cipher : StreamCipher
cipher = toy_cipher

instance abbrev hash : Blake3
hash = toy_hash

instance abbrev output : Xof
output = toy_xof

abbrev keys : Array (Array Key 8) 32
keys _ _ = key 7

data Stored : Type 0 where
  text : List ℕ → Stored
  program : List CombineOperation → Stored
  proof : Proof → Stored

abbrev Files : Type 0
Files = FileName → Option Stored

abbrev put_file : Files → FileName → Stored → Files
put_file files name stored other = if same_bytes other name then some stored else files other

abbrev contents_of : Stored → Option (List ℕ)
contents_of (text bytes) = some bytes
contents_of (program p) = none
contents_of (proof p) = none

abbrev program_of : Stored → Option (List CombineOperation)
program_of (text bytes) = none
program_of (program p) = some p
program_of (proof p) = none

abbrev proof_of : Stored → Option Proof
proof_of (text bytes) = none
proof_of (program p) = none
proof_of (proof p) = some p

abbrev world : World
world = record {
  Disk = Files;
  File = Stored;
  open_file = λ files name. files name;
  contents = contents_of;
  create = λ files name. some (put_file files name (text []));
  serialize_into = λ files name p. (true, put_file files name (proof p));
  deserialize_program = program_of;
  deserialize_proof = proof_of;
  largest_wires = λ _. (2, 66);
  evaluate = λ _ _ _. ok tt;
}

-- A file is read back as it was written, and other files are not touched.
memory-KeepsFiles :
    (path proof_path : FileName)
    → same_bytes path proof_path ≡ false
    → KeepsFiles world path proof_path
memory-KeepsFiles path proof_path apart = record {
  reads_back = λ disk created disk' p made saved. (
    proof p,
    sym (ap (λ r. r.1 proof_path) saved)
        ∙ ap (λ t. if t then some (proof p) else created proof_path) (same_bytes_refl proof_path),
    refl,
  );
  keeps = λ disk created disk' p made saved.
      sym (ap (λ r. r.1 path) saved)
      ∙ ap (λ t. if t then some (proof p) else created path) apart
      ∙ sym (ap (λ (files : Files). files path) (some_injective made))
      ∙ ap (λ t. if t then some (text []) else disk path) apart;
}

-- A product of bits and the integer of 64 bits.
abbrev statement : List CombineOperation
statement = size_hint 2 66 ∷ gf2_op (input 0) ∷ gf2_op (mul 1 0 0) ∷ b2a 1 0 ∷ []

-- The bit 1 after a space.
abbrev disk : Files
disk name =
    if same_bytes name (1 ∷ [])
    then some (program statement)
    else (if same_bytes name (2 ∷ []) then some (text (32 ∷ 49 ∷ [])) else none)

abbrev bits : List Bool
bits = true ∷ []

abbrev or_else : Proof → Option Proof → Proof
or_else d none = d
or_else d (some p) = p

abbrev empty : Proof
empty = record {
  comm = [];
  gf2 = record { online = []; preprocessing = [] };
  z64 = record { online = []; preprocessing = [] };
}

abbrev made : Proof
made = or_else empty (returned none (Prove.prove 40 statement bits [] (2, 66) keys))

proved : Prove.prove 40 statement bits [] (2, 66) keys ≡ ok (some made)
unfolding Prove.prove assemble execute_all execute run_combined challenge_to_opening draw_openings
    draw_opening random_int insert oracle_new fill combine_step step step_b2a wires_from resize
    default_wire assign read write Prover.input Prover.input_from Prover.record_input combine_new
    instance_new Prover.prover_new
proved = refl

loaded : load_program world 40 keys disk (1 ∷ []) ≡ done statement
unfolding load_program
loaded = refl

parsed : load_witness world 40 keys next_bit disk (2 ∷ []) ≡ done bits
unfolding load_witness parse_file parse_all next_bit bit_of or_skip
parsed = refl

abbrev after : Files
after = put_file (put_file disk (3 ∷ []) (text [])) (3 ∷ []) (proof made)

ran : prove world 40 keys disk (1 ∷ []) (2 ∷ []) (3 ∷ []) ≡ done (passed, after)
ran =
    prove-written world 40 keys disk (put_file disk (3 ∷ []) (text [])) after (1 ∷ []) (2 ∷ [])
      (3 ∷ []) statement bits loaded parsed proved refl refl

prove-verify_files_example : verify world 40 keys after (1 ∷ []) (3 ∷ []) ≡ done passed
prove-verify_files_example =
    prove-verify_files world 40 keys disk after (1 ∷ []) (2 ∷ []) (3 ∷ [])
      (memory-KeepsFiles (1 ∷ []) (3 ∷ []) refl) ran

oneshot_zk-passed_example : oneshot_zk world 40 keys disk (1 ∷ []) (2 ∷ []) ≡ done passed
oneshot_zk-passed_example =
    oneshot_zk-passed world 40 keys disk (1 ∷ []) (2 ∷ []) statement bits loaded parsed proved

parse_file-bits_of_example :
    (parse_file next_bit (32 ∷ 49 ∷ 48 ∷ []) ≡ bits_of (32 ∷ 49 ∷ 48 ∷ []))
    × (parse_file next_recon (32 ∷ 49 ∷ 48 ∷ []) ≡ map from (bits_of (32 ∷ 49 ∷ 48 ∷ [])))
parse_file-bits_of_example = parse_file-bits_of (32 ∷ 49 ∷ 48 ∷ [])

spaces : All (λ c. bit_of c ≡ none) (32 ∷ 10 ∷ [])
unfolding bit_of
spaces = (refl, (refl, tt))

-- A space and a line break before the digit 1.
next_bit-digit_example :
    (next_bit (32 ∷ 10 ∷ digit true ∷ 48 ∷ []) ≡ (some true, 48 ∷ []))
    × (next_bit (32 ∷ 10 ∷ []) ≡ (none, []))
next_bit-digit_example = next_bit-digit (32 ∷ 10 ∷ []) (48 ∷ []) true spaces
