-- ===== src/Tests/Combined.antt =====
-- The theorems about src/interpreter/combine.rs at inputs where their hypotheses hold.
use reverie_ppr.Prelude.{
  ◌+◌, ◌%◌, ◌^◌, ◌≡◌, refl, true, List, [], ◌∷◌, ◌++◌, replicate, Fin, Array, All, All-replicate,
  ok, ◌>>=◌, read, write,
}
use reverie_ppr.Word.{wrap}
use reverie_ppr.Crypto.{StreamCipher, Blake3, Key}
use reverie_ppr.Algebra.Z64.Domain.{domain_z64}
use reverie_ppr.Algebra.Gf2.Recon
use reverie_ppr.Algebra.Gf2.Laws.{domain_gf2, lanes_gf2}
use reverie_ppr.Transcript.{Wire}
use reverie_ppr.Transcript.Prover.{ProverTranscript, prover, prover_new}
use reverie_ppr.Interpreter.Single.{value, default_wire}
use reverie_ppr.Interpreter.Single.Value.{WireIsValid}
use reverie_ppr.Interpreter.Combine.{
  WireGf2, CombineInstance, wires_from, combine_step, b2a, add_64, recon_gf2_to_z64,
  reconstruct_only,
}
use reverie_ppr.Interpreter.Combine.Conversion.{number_of, lane, recon_gf2_to_z64-number_of}
use reverie_ppr.Interpreter.Combine.Adder.{add_64-number_of}
use reverie_ppr.Interpreter.Combine.Value.{step_b2a-value}
use reverie_ppr.Tests.Toy.{toy_cipher, toy_hash, key, returned}

instance abbrev cipher : StreamCipher
cipher = toy_cipher

instance abbrev hash : Blake3
hash = toy_hash

abbrev one : Fin 8
one = Fin.suc Fin.zero

abbrev keys : Array Key 8
keys r = key 7

-- A public one.
abbrev set_wire : WireGf2
set_wire = record { mask = domain_gf2.share_zero; corr = Recon.from true }

-- The bits of 255.
abbrev low_bits : List WireGf2
low_bits = replicate 8 set_wire ++ replicate 56 (default_wire domain_gf2)

abbrev bits : Array WireGf2 64
bits = returned (λ _. set_wire) (wires_from 64 low_bits 0)

bits_read : wires_from 64 low_bits 0 ≡ ok bits
unfolding wires_from read default_wire
bits_read = refl

abbrev Valid : WireGf2 → Type 0
Valid w = WireIsValid domain_gf2 lanes_gf2 w

set-Valid : Valid set_wire
set-Valid = lanes_gf2.into-IsValid true

default-Valid : Valid (default_wire domain_gf2)
unfolding default_wire
default-Valid = lanes_gf2.recon_zero-IsValid

low_bits-Valid : All Valid low_bits
low_bits-Valid =
    let rest = All-replicate Valid 56 {a = default_wire domain_gf2} default-Valid in
    (
      set-Valid,
      (
        set-Valid,
        (set-Valid, (set-Valid, (set-Valid, (set-Valid, (set-Valid, (set-Valid, rest)))))),
      ),
    )

abbrev transcript : ProverTranscript domain_gf2
transcript = prover_new domain_gf2 [] keys

abbrev constant_bits : Array WireGf2 64
constant_bits _ = set_wire

recon_gf2_to_z64-number_of_example :
    (recon_gf2_to_z64 reconstruct_only transcript constant_bits).0 one
    ≡ wrap (number_of 64 (λ i. lane (constant_bits i) one))
unfolding reconstruct_only
recon_gf2_to_z64-number_of_example =
    recon_gf2_to_z64-number_of reconstruct_only (λ t s. refl) one transcript constant_bits

add_64-number_of_example :
    number_of 64
      (λ i. lane ((add_64 (prover domain_gf2) transcript constant_bits constant_bits).0 i) one)
    ≡ (number_of 64 (λ i. lane (constant_bits i) one)
        + number_of 64 (λ i. lane (constant_bits i) one))
      % 2 ^ 64
add_64-number_of_example =
    add_64-number_of one transcript constant_bits constant_bits (λ _. set-Valid) (λ _. set-Valid)

abbrev machine : CombineInstance (ProverTranscript domain_gf2) (ProverTranscript domain_z64)
machine = record {
  gf2 = record { transcript = transcript; wires = low_bits };
  z64 = record {
    transcript = prover_new domain_z64 [] keys;
    wires = default_wire domain_z64 ∷ default_wire domain_z64 ∷ [];
  };
}

step_b2a-value_example :
    (wire : Wire domain_z64) × (t : ProverTranscript domain_gf2) × (u : ProverTranscript domain_z64)
    × (combine_step (prover domain_gf2) (prover domain_z64) machine (b2a 1 0) ≡ (
        write machine.z64.wires 1 wire >>= λ wires. ok (record {
          gf2 = record machine.gf2 { transcript = t };
          z64 = record { transcript = u; wires = wires };
        })))
    × ((r : Fin 8) → value domain_z64 wire r ≡ wrap (number_of 64 (λ i. lane (bits i) r)))
step_b2a-value_example = step_b2a-value machine 1 0 low_bits-Valid bits_read
