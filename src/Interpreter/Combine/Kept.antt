-- ===== src/Interpreter/Combine/Kept.antt =====
-- interpreter/combine.rs: the parts of `B2A` take nothing of the prover's witness.
use reverie_ppr.Prelude.{ℕ, zero, suc, ◌≡◌, refl, ◌∙◌, Fin, Array}
use reverie_ppr.Ring.Sum.{rest}
use reverie_ppr.Word.{wrap}
use reverie_ppr.Crypto.{StreamCipher, Blake3}
use reverie_ppr.Algebra.Z64.{ReconZ64}
use reverie_ppr.Algebra.Z64.Domain.{domain_z64}
use reverie_ppr.Algebra.Gf2.Laws.{domain_gf2}
use reverie_ppr.Transcript.Prover
use reverie_ppr.Transcript.Prover.{ProverTranscript, prover, prover_new}
use reverie_ppr.Interpreter.Single.{op_add, op_mul}
use reverie_ppr.Interpreter.Single.Prover.{witness-op_mul}
use reverie_ppr.Interpreter.Combine.{
  WireGf2, fresh_wires, add_rounds, add_64, shift_in, recon_loop, recon_gf2_to_z64,
}
use reverie_ppr.Algebra.Gf2.Recon.{into_bytes}
use reverie_ppr.Interpreter.Combine.Parts.{open_sum, mask_wire}

module _ ⦃c : StreamCipher⦄ ⦃b : Blake3⦄ where
  fresh_wires-witness :
      (n : ℕ) (t : ProverTranscript domain_gf2)
      → (fresh_wires (prover domain_gf2) n t).1.witness ≡ t.witness
  unfolding fresh_wires Prover.new_mask
  fresh_wires-witness zero t = refl
  fresh_wires-witness (suc n) t = fresh_wires-witness n ((prover domain_gf2).new_mask t).1

  add_rounds-witness :
      (n : ℕ) (t : ProverTranscript domain_gf2) (carry : WireGf2) (x y : Array WireGf2 (suc n))
      → (add_rounds (prover domain_gf2) n t carry x y).1.witness ≡ t.witness
  unfolding add_rounds
  add_rounds-witness zero t carry x y = refl
  add_rounds-witness (suc n) t carry x y =
      let ac = op_add domain_gf2 (x Fin.zero) carry in
      let bc = op_add domain_gf2 (y Fin.zero) carry in
      let product = op_mul domain_gf2 (prover domain_gf2) t ac bc in
      add_rounds-witness n product.1 (op_add domain_gf2 product.0 carry) (rest x) (rest y)
      ∙ witness-op_mul domain_gf2 t ac bc

  recon_loop-witness :
      (n : ℕ) (t : ProverTranscript domain_gf2) (z : ReconZ64) (ws : Array WireGf2 n)
      → (recon_loop (prover domain_gf2).reconstruct n t z ws).1.witness ≡ t.witness
  unfolding recon_loop Prover.reconstruct
  recon_loop-witness zero t z ws = refl
  recon_loop-witness (suc n) t z ws =
      let opened = (prover domain_gf2).reconstruct t (ws Fin.zero).mask in
      recon_loop-witness n opened.1
        (shift_in (into_bytes (domain_gf2.recon_add opened.0 (ws Fin.zero).corr)) z) (rest ws)

  pub open_sum-witness :
      (t : ProverTranscript domain_gf2) (ws : Array WireGf2 64)
      → (open_sum (prover domain_gf2) (prover domain_z64) t ws).1.witness ≡ t.witness
  unfolding open_sum add_64 recon_gf2_to_z64
  open_sum-witness t ws =
      let fresh = fresh_wires (prover domain_gf2) 64 t in
      let product =
        op_mul domain_gf2 (prover domain_gf2) fresh.1 (fresh.0 Fin.zero) (ws Fin.zero) in
      let sum = add_64 (prover domain_gf2) fresh.1 fresh.0 ws in
      recon_loop-witness 64 sum.1 (λ j. wrap 0) sum.0
      ∙ add_rounds-witness 62 product.1 product.0 (rest fresh.0) (rest ws)
      ∙ witness-op_mul domain_gf2 fresh.1 (fresh.0 Fin.zero) (ws Fin.zero)
      ∙ fresh_wires-witness 64 t

  pub mask_wire-witness :
      (u : ProverTranscript domain_z64) (v : ReconZ64)
      → (mask_wire (prover domain_gf2) (prover domain_z64) u v).1.witness ≡ u.witness
  unfolding mask_wire Prover.new_mask Prover.correction
  mask_wire-witness u v = refl
