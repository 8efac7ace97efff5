-- ===== src/Interpreter/Combine/Refinement.antt =====
-- interpreter/combine.rs: the prover's machine over both domains does what a circuit means.
use reverie_ppr.Prelude.{
  ℕ, zero, suc, ◌≡◌, refl, ◌∙◌, ap, ap₂, Bool, List, [], ◌∷◌, map, replicate, Fin, Array, Outcome,
  ok, panic, ◌>>=◌, map_ok, map_ok-bind,
}
use reverie_ppr.Word.{U64}
use reverie_ppr.Crypto.{StreamCipher, Blake3, Key}
use reverie_ppr.Algebra.{packed}
use reverie_ppr.Algebra.Z64.{ReconZ64}
use reverie_ppr.Algebra.Z64.Domain.{domain_z64}
use reverie_ppr.Algebra.Z64.Laws.{lanes_z64}
use reverie_ppr.Algebra.Gf2.{ReconGf2}
use reverie_ppr.Algebra.Gf2.Laws.{domain_gf2, lanes_gf2}
use reverie_ppr.Transcript.Prover.{prover, prover_new}
use reverie_ppr.Interpreter.Single.{instance_new}
use reverie_ppr.Interpreter.Single.Refinement.{start-view, start-IsValid}
use reverie_ppr.Interpreter.Combine.{CombineOperation, combine_new, combine_step}
use reverie_ppr.Proof.Prove.{run_combined}
use reverie_ppr.Replay.Combine.{CombineProver, CombineIsValid}
use reverie_ppr.Replay.Combine.Step.{combine_step-Follows}
use reverie_ppr.Replay.Combine.Accepts.{combine_start, into-All}
use reverie_ppr.Interpreter.Combine.Plain.{plain_combine, plain_run_combined}
use reverie_ppr.Interpreter.Combine.View.{view_both, draw_both, combine_step-view}

module _ ⦃c : StreamCipher⦄ ⦃b : Blake3⦄ where
  pub draws_both : Outcome CombineProver → List CombineOperation → ℕ → ReconGf2 × ReconZ64
  draws_both r [] k = (domain_gf2.recon_zero, domain_z64.recon_zero)
  draws_both (panic e) (op ∷ circuit) k = (domain_gf2.recon_zero, domain_z64.recon_zero)
  draws_both (ok s) (op ∷ circuit) zero = draw_both s
  draws_both (ok s) (op ∷ circuit) (suc k) =
      draws_both (combine_step (prover domain_gf2) (prover domain_z64) s op) circuit k

  draws_both-step :
      (s s' : CombineProver) (op : CombineOperation) (circuit : List CombineOperation)
      → combine_step (prover domain_gf2) (prover domain_z64) s op ≡ ok s'
      → (λ k. draws_both (ok s) (op ∷ circuit) (suc k)) ≡ draws_both (ok s') circuit
  unfolding draws_both
  draws_both-step s s' op circuit e = ap (λ r. draws_both r circuit) e

  first_step :
      (s : CombineProver) (op : CombineOperation) (circuit : List CombineOperation)
      → CombineIsValid s
      → plain_combine (draws_both (ok s) (op ∷ circuit) 0) (view_both s) op
        ≡ map_ok view_both (combine_step (prover domain_gf2) (prover domain_z64) s op)
  unfolding draws_both
  first_step s op circuit valid = combine_step-view s op valid

  run_combined-view :
      (circuit : List CombineOperation) (s : CombineProver)
      → CombineIsValid s
      → plain_run_combined (draws_both (ok s) circuit) (view_both s) circuit
        ≡ map_ok view_both (run_combined (prover domain_gf2) (prover domain_z64) s circuit)
  unfolding plain_run_combined run_combined
  run_combined-view [] s valid = refl
  run_combined-view (op ∷ circuit) s valid =
      ap
        (λ r.
          r >>= λ v. plain_run_combined (λ k. draws_both (ok s) (op ∷ circuit) (suc k)) v circuit)
        (first_step s op circuit valid)
      ∙ map_ok-bind (combine_step (prover domain_gf2) (prover domain_z64) s op) view_both view_both
          _ _
          λ s' e.
            ap (λ d. plain_run_combined d (view_both s') circuit)
              (draws_both-step s s' op circuit e)
            ∙ run_combined-view circuit s'
                ((combine_step-Follows Fin.zero Fin.zero Fin.zero s op e).keeps valid)

  module _ (circuit : List CombineOperation) (wit_gf2 : List Bool) (wit_z64 : List U64)
      (z64_count gf2_count : ℕ) (keys : Array Key packed) where
    abbrev begin : CombineProver
    begin = combine_start circuit wit_gf2 wit_z64 z64_count gf2_count keys

    -- The prover's machine over both domains implements the circuit in the clear: for every
    -- circuit, conversions included, all witnesses, all keys and all numbers of wires, running the
    -- circuit on the prover's transcripts gives, seen through the wires' values and what is left
    -- of the witnesses, what the circuit gives on plain bits and integers, where `B2A` writes in
    -- each repetition the integer whose bits, the lowest first, the 64 source wires hold, and a
    -- random gate takes what its mask hides; it panics exactly where the plain run does, with the
    -- same panic.
    pub combined_refines :
        plain_run_combined
          (draws_both (ok begin) circuit)
          (record {
            gf2 = record {
              values = replicate gf2_count domain_gf2.recon_zero;
              witness = map domain_gf2.into wit_gf2;
            };
            z64 = record {
              values = replicate z64_count domain_z64.recon_zero;
              witness = map domain_z64.into wit_z64;
            };
          })
          circuit
        ≡ map_ok view_both (run_combined (prover domain_gf2) (prover domain_z64) begin circuit)
    unfolding combine_new instance_new prover_new
    combined_refines =
        ap₂
          (λ g z.
            plain_run_combined (draws_both (ok begin) circuit) (record { gf2 = g; z64 = z })
              circuit)
          (start-view domain_gf2 lanes_gf2 (map domain_gf2.into wit_gf2) keys gf2_count)
          (start-view domain_z64 lanes_z64 (map domain_z64.into wit_z64) keys z64_count)
        ∙ run_combined-view circuit begin (record {
          gf2 =
              start-IsValid domain_gf2 lanes_gf2 (map domain_gf2.into wit_gf2) keys gf2_count
                (into-All domain_gf2 lanes_gf2 wit_gf2);
          z64 =
              start-IsValid domain_z64 lanes_z64 (map domain_z64.into wit_z64) keys z64_count
                (into-All domain_z64 lanes_z64 wit_z64);
        })
