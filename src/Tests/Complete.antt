-- ===== src/Tests/Complete.antt =====
-- The theorems about a whole proof at inputs where their hypotheses hold.
use reverie_ppr.Prelude.{
  ℕ, ◌≤◌, ◌≡◌, refl, arith, Bool, true, List, [], ◌∷◌, length, map, map_ok, replicate, Fin, Option,
  none, some, Array, ok, read, write,
}
use reverie_ppr.Word.{U64, wrap}
use reverie_ppr.Crypto.{StreamCipher, Blake3, Key}
use reverie_ppr.Crypto.Oracle.{Xof, oracle_new, fill}
use reverie_ppr.Algebra.Z64.Domain.{domain_z64}
use reverie_ppr.Algebra.Gf2.Laws.{domain_gf2}
use reverie_ppr.Transcript.Prover
use reverie_ppr.Transcript.Prover.{ProverTranscript, prover, prover_new}
use reverie_ppr.Transcript.Online.{OpenOnline}
use reverie_ppr.Transcript.Preprocess.{OpenPreprocessing}
use reverie_ppr.Transcript.Extract.{opening, preprocessing_opening}
use reverie_ppr.Interpreter.{input, mul}
use reverie_ppr.Interpreter.Single.{assign, step, instance_new, default_wire}
use reverie_ppr.Interpreter.Combine.{
  CombineInstance, CombineOperation, size_hint, gf2_op, z64_op, b2a, resize, wires_from,
  combine_step, combine_new, step_b2a,
}
use reverie_ppr.Interpreter.Combine.Traffic.{
  GrowsBoth, traffic_gf2, traffic_z64, total_traffic, run_combined-Grows,
}
use reverie_ppr.Interpreter.Combine.Plain.{plain_run_combined}
use reverie_ppr.Interpreter.Combine.View.{view_both}
use reverie_ppr.Interpreter.Combine.Refinement.{draws_both, combined_refines}
use reverie_ppr.Proof.Challenge.{
  ctx_challenge, drawn, challenge_to_opening, draw_openings, draw_opening, random_int, insert,
}
use reverie_ppr.Proof.Prove.{Proof, Executed, prove, assemble, execute_all, execute, run_combined}
use reverie_ppr.Proof.Verify.{run_online, run_preprocessing, verify}
use reverie_ppr.Proof.Complete.Verdict.{commitment, prove-verify, honest_accepted}
use reverie_ppr.Replay.Opening.{OneFormat}
use reverie_ppr.Replay.Combine.Accepts.{combine_start, run_online-accepts}
use reverie_ppr.Redo.Combine.Accepts.{run_preprocessing-accepts}
use reverie_ppr.Tests.Toy.{toy_cipher, toy_hash, toy_xof, key, returned}

instance abbrev cipher : StreamCipher
cipher = toy_cipher

instance abbrev hash : Blake3
hash = toy_hash

instance abbrev output : Xof
output = toy_xof

abbrev keys : Array (Array Key 8) 32
keys _ _ = key 7

-- A product of bits, an integer, and the integer of 64 bits.
abbrev circuit : List CombineOperation
circuit = size_hint 2 66 ∷ gf2_op (input 0) ∷ gf2_op (mul 1 0 0) ∷ z64_op (input 0) ∷ b2a 1 0 ∷ []

abbrev bits : List Bool
bits = true ∷ []

abbrev numbers : List U64
numbers = wrap 5 ∷ []

abbrev or_else : Proof → Option Proof → Proof
or_else d none = d
or_else d (some p) = p

abbrev empty : Proof
empty = record {
  comm = [];
  gf2 = record { online = []; preprocessing = [] };
  z64 = record { online = []; preprocessing = [] };
}

abbrev proof : Proof
proof = or_else empty (returned none (prove 40 circuit bits numbers (2, 66) keys))

proved : prove 40 circuit bits numbers (2, 66) keys ≡ ok (some proof)
unfolding prove assemble execute_all execute run_combined challenge_to_opening draw_openings
    draw_opening random_int insert oracle_new fill combine_step step step_b2a wires_from resize
    default_wire assign read write Prover.input Prover.input_from Prover.record_input combine_new
    instance_new Prover.prover_new
proved = refl

prove-verify_example : verify circuit 2 66 40 proof ≡ ok (some true)
prove-verify_example = prove-verify 40 circuit bits numbers (2, 66) keys proved

abbrev seeds : Array Key 8
seeds _ = key 7

abbrev nobody : Executed
nobody = ((λ _. []), prover_new domain_gf2 [] seeds, prover_new domain_z64 [] seeds)

abbrev reps : Array Executed 32
reps = returned (λ _. nobody) (execute_all circuit bits numbers 2 66 32 keys)

all_ran : execute_all circuit bits numbers 2 66 32 keys ≡ ok reps
unfolding execute_all execute run_combined combine_step step step_b2a wires_from resize default_wire
    assign read write Prover.input Prover.input_from Prover.record_input combine_new instance_new
    Prover.prover_new
all_ran = refl

le_of_eq : (n : ℕ) → n ≡ 40 → 40 ≤ n
le_of_eq n e = omega (arith, e)

drawn_forty :
    length (
      drawn 40 (oracle_new ctx_challenge (commitment 40 circuit bits numbers (2, 66) keys reps)) [])
    ≡ 40
unfolding oracle_new draw_opening random_int fill insert
drawn_forty = refl

honest_accepted_example :
    (proof : Proof) × (prove 40 circuit bits numbers (2, 66) keys ≡ ok (some proof))
    × (verify circuit 2 66 40 proof ≡ ok (some true))
honest_accepted_example =
    honest_accepted 40 circuit bits numbers (2, 66) keys reps all_ran (le_of_eq _ drawn_forty)

abbrev one : Fin 8
one = Fin.suc Fin.zero

abbrev two : Fin 8
two = Fin.suc (Fin.suc Fin.zero)

abbrev executed : Executed
executed = returned nobody (execute circuit bits numbers 2 66 seeds)

ran : execute circuit bits numbers 2 66 seeds ≡ ok executed
unfolding execute run_combined combine_step step step_b2a wires_from resize default_wire assign read
    write Prover.input Prover.input_from Prover.record_input combine_new instance_new
    Prover.prover_new
ran = refl

abbrev omitted : Array ℕ 8
omitted _ = 2

abbrev opened_gf2 : Array OpenOnline 8
opened_gf2 _ = opening domain_gf2 executed.1 omitted one

abbrev opened_z64 : Array OpenOnline 8
opened_z64 _ = opening domain_z64 executed.2 omitted one

opened_gf2-OneFormat : OneFormat opened_gf2 two
unfolding opening
opened_gf2-OneFormat = record {
  recons = λ r. refl;
  corrs = λ r. refl;
  inputs = λ r. refl;
  omits = λ r. omega arith;
}

opened_z64-OneFormat : OneFormat opened_z64 two
unfolding opening
opened_z64-OneFormat = record {
  recons = λ r. refl;
  corrs = λ r. refl;
  inputs = λ r. refl;
  omits = λ r. omega arith;
}

run_online-accepts_example :
    (hashes : Array (List ℕ) 8) × (run_online circuit 2 66 opened_gf2 opened_z64 ≡ ok hashes)
    × (hashes two ≡ executed.0 one)
run_online-accepts_example =
    run_online-accepts circuit bits numbers 2 66 seeds one two two omitted opened_gf2 opened_z64 ran
      refl refl refl opened_gf2-OneFormat opened_z64-OneFormat

abbrev revealed_gf2 : Array OpenPreprocessing 8
revealed_gf2 _ = preprocessing_opening domain_gf2 executed.1 one

abbrev revealed_z64 : Array OpenPreprocessing 8
revealed_z64 _ = preprocessing_opening domain_z64 executed.2 one

run_preprocessing-accepts_example :
    (hashes : Array (List ℕ) 8) × (run_preprocessing circuit 2 66 revealed_gf2 revealed_z64
      ≡ ok hashes)
    × (hashes two ≡ executed.0 one)
run_preprocessing-accepts_example =
    run_preprocessing-accepts circuit bits numbers 2 66 seeds one two revealed_gf2 revealed_z64 ran
      refl refl

abbrev machine : CombineInstance (ProverTranscript domain_gf2) (ProverTranscript domain_z64)
machine = combine_start circuit bits numbers 2 66 seeds

abbrev after : CombineInstance (ProverTranscript domain_gf2) (ProverTranscript domain_z64)
after = returned machine (run_combined (prover domain_gf2) (prover domain_z64) machine circuit)

after_ran : run_combined (prover domain_gf2) (prover domain_z64) machine circuit ≡ ok after
unfolding run_combined combine_step step step_b2a wires_from resize default_wire assign read write
    Prover.input Prover.input_from Prover.record_input combine_new instance_new Prover.prover_new
after_ran = refl

run_combined-Grows_example :
    GrowsBoth (total_traffic traffic_gf2 circuit) (total_traffic traffic_z64 circuit) machine after
run_combined-Grows_example = run_combined-Grows circuit machine after_ran

combined_refines_example :
    plain_run_combined
      (draws_both (ok machine) circuit)
      (record {
        gf2 = record {
          values = replicate 66 domain_gf2.recon_zero;
          witness = map domain_gf2.into bits;
        };
        z64 = record {
          values = replicate 2 domain_z64.recon_zero;
          witness = map domain_z64.into numbers;
        };
      })
      circuit
    ≡ map_ok view_both (run_combined (prover domain_gf2) (prover domain_z64) machine circuit)
combined_refines_example = combined_refines circuit bits numbers 2 66 seeds
