-- ===== src/Redo/Combine/Parts.antt =====
-- interpreter/combine.rs: the parts of `B2A` on the preprocessing verifier's transcripts.
use reverie_ppr.Prelude.{◌≡◌, sym, ◌∙◌, ap₂, Fin, Array}
use reverie_ppr.Crypto.{StreamCipher, Blake3}
use reverie_ppr.Algebra.{packed}
use reverie_ppr.Algebra.Z64.{ReconZ64}
use reverie_ppr.Algebra.Z64.Domain.{domain_z64}
use reverie_ppr.Algebra.Z64.Laws.{lanes_z64}
use reverie_ppr.Algebra.Gf2.Laws.{domain_gf2, lanes_gf2}
use reverie_ppr.Transcript.{Wire}
use reverie_ppr.Transcript.Prover.{ProverTranscript, prover}
use reverie_ppr.Transcript.Preprocess.{PreprocessTranscript, preprocess}
use reverie_ppr.Interpreter.Combine.{WireGf2, fresh_wires, add_64}
use reverie_ppr.Interpreter.Combine.Parts.{open_sum, mask_wire, unmasked}
use reverie_ppr.Redo.{SameMask, Follows}
use reverie_ppr.Redo.Gates.{
  share_sub-Same, share_zero-Same, reconstruct-lanes, new_mask-Follows, correction-Follows,
}
use reverie_ppr.Redo.Combine.Adder.{ArraySame, add_64-Redone}
use reverie_ppr.Redo.Combine.Masks.{fresh_wires-Redone, recon_gf2_to_z64-Redone}

module _ ⦃c : StreamCipher⦄ ⦃b : Blake3⦄ (i j : Fin packed) (comms : Array b.Digest packed) where
  pub open_sum-Redone :
      (t : ProverTranscript domain_gf2) (t' : PreprocessTranscript domain_gf2)
      (ws ws' : Array WireGf2 64)
      → Follows domain_gf2 lanes_gf2 i j comms t t'
      → ArraySame i j comms ws ws'
      → Follows domain_gf2 lanes_gf2 i j comms
          (open_sum (prover domain_gf2) (prover domain_z64) t ws).1
          (open_sum (preprocess domain_gf2) (preprocess domain_z64) t' ws').1
  unfolding open_sum
  open_sum-Redone t t' ws ws' m same =
      let (fresh, m1) = fresh_wires-Redone i j comms 64 t t' m in
      let first = fresh_wires (prover domain_gf2) 64 t in
      let first' = fresh_wires (preprocess domain_gf2) 64 t' in
      let (_, m2) =
        add_64-Redone i j comms first.1 first'.1 first.0 first'.0 ws ws' m1
          (λ k. record { mask = (fresh k).mask }) same in
      let sum = add_64 (prover domain_gf2) first.1 first.0 ws in
      let sum' = add_64 (preprocess domain_gf2) first'.1 first'.0 ws' in
      recon_gf2_to_z64-Redone i j comms sum.1 sum'.1 sum.0 sum'.0 m2

  -- The correction of the mask is of the same integer, so the same is hashed.
  pub mask_wire-Redone :
      (u : ProverTranscript domain_z64) (u' : PreprocessTranscript domain_z64) (v v' : ReconZ64)
      → Follows domain_z64 lanes_z64 i j comms u u'
      → v' j ≡ v i
      → SameMask domain_z64 lanes_z64 i j comms
          (mask_wire (prover domain_gf2) (prover domain_z64) u v).0
          (mask_wire (preprocess domain_gf2) (preprocess domain_z64) u' v').0
        × Follows domain_z64 lanes_z64 i j comms
            (mask_wire (prover domain_gf2) (prover domain_z64) u v).1
            (mask_wire (preprocess domain_gf2) (preprocess domain_z64) u' v').1
  unfolding mask_wire lanes_z64
  mask_wire-Redone u u' v v' m e =
      let (mask, m1) = new_mask-Follows domain_z64 lanes_z64 i j comms u u' m in
      let hidden = (prover domain_z64).new_mask u in
      let hidden' = (preprocess domain_z64).new_mask u' in
      (
        record { mask = mask },
        correction-Follows domain_z64 lanes_z64 i j comms hidden.1 hidden'.1 m1
            (domain_z64.recon_sub v (domain_z64.reconstruct hidden.0))
            (domain_z64.recon_sub v' (domain_z64.reconstruct hidden'.0)) tt tt
            (lanes_z64.recon_sub-lane v' (domain_z64.reconstruct hidden'.0) j
              ∙ ap₂ lanes_z64.ring.sub e
                  (reconstruct-lanes domain_z64 lanes_z64 i j hidden.0 hidden'.0 mask)
              ∙ sym (lanes_z64.recon_sub-lane v (domain_z64.reconstruct hidden.0) i)),
      )

  pub unmasked-Same :
      (x x' : ReconZ64) (w w' : Wire domain_z64)
      → SameMask domain_z64 lanes_z64 i j comms w w'
      → SameMask domain_z64 lanes_z64 i j comms
          (unmasked (prover domain_gf2) (prover domain_z64) x w)
          (unmasked (preprocess domain_gf2) (preprocess domain_z64) x' w')
  unfolding unmasked
  unmasked-Same x x' w w' f = record {
    mask =
        share_sub-Same domain_z64 lanes_z64 i j domain_z64.share_zero w.mask domain_z64.share_zero
          w'.mask (share_zero-Same domain_z64 lanes_z64 i j) f.mask;
  }
