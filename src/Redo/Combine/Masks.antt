-- ===== src/Redo/Combine/Masks.antt =====
-- interpreter/combine.rs: the fresh wires of `B2A`, and the integer that their masks hide, on the
-- preprocessing verifier's transcript.
use reverie_ppr.Prelude.{ℕ, zero, suc, ◌≡◌, refl, sym, ◌∙◌, ap, ap₂, Fin, Array, push_front}
use reverie_ppr.Ring.Sum.{rest}
use reverie_ppr.Word.{wrap}
use reverie_ppr.Crypto.{StreamCipher, Blake3}
use reverie_ppr.Algebra.{packed}
use reverie_ppr.Algebra.Z64.{ReconZ64}
use reverie_ppr.Algebra.Z64.Domain.{domain_z64}
use reverie_ppr.Algebra.Gf2.Laws.{domain_gf2, lanes_gf2}
use reverie_ppr.Generator.Redo.{SameShare}
use reverie_ppr.Transcript.Prover.{ProverTranscript, prover}
use reverie_ppr.Transcript.Preprocess
use reverie_ppr.Transcript.Preprocess.{PreprocessTranscript, preprocess}
use reverie_ppr.Interpreter.Combine.{
  WireGf2, fresh_wires, recon_loop, recon_gf2_to_z64, reconstruct_only, reverse_bits,
}
use reverie_ppr.Interpreter.Combine.Parts.{mask_value}
use reverie_ppr.Replay.Combine.Conversion.{shift_in-lanes}
use reverie_ppr.Redo.{Follows}
use reverie_ppr.Redo.Gates.{reconstruct-lanes, new_mask-Follows, reconstruct-Follows}

module _ ⦃c : StreamCipher⦄ ⦃b : Blake3⦄ (i j : Fin packed) where
  -- Wires with the same mask and no correction.
  pub record SameFresh (w w' : WireGf2) : Type 0 where
    pub mask : SameShare domain_gf2 lanes_gf2 i j w.mask w'.mask
    pub blank : w.corr ≡ domain_gf2.recon_zero
    pub blank' : w'.corr ≡ domain_gf2.recon_zero

  abbrev ArrayFresh : {n : ℕ} → Array WireGf2 n → Array WireGf2 n → Type 0
  ArrayFresh {n} ws ws' = (k : Fin n) → SameFresh (ws k) (ws' k)

  push_front-Fresh :
      {n : ℕ} (w w' : WireGf2) (ws ws' : Array WireGf2 n)
      → SameFresh w w'
      → ArrayFresh ws ws'
      → ArrayFresh (push_front w ws) (push_front w' ws')
  push_front-Fresh w w' ws ws' f g Fin.zero = f
  push_front-Fresh w w' ws ws' f g (Fin.suc k) = g k

  pub fresh_wires-Redone :
      (comms : Array b.Digest packed) (n : ℕ) (t : ProverTranscript domain_gf2)
      (t' : PreprocessTranscript domain_gf2)
      → Follows domain_gf2 lanes_gf2 i j comms t t'
      → ((k : Fin n)
          → SameFresh
              ((fresh_wires (prover domain_gf2) n t).0 k)
              ((fresh_wires (preprocess domain_gf2) n t').0 k))
        × Follows domain_gf2 lanes_gf2 i j comms
            (fresh_wires (prover domain_gf2) n t).1
            (fresh_wires (preprocess domain_gf2) n t').1
  unfolding fresh_wires
  fresh_wires-Redone comms zero t t' m = ((λ k. elim k [ ]), m)
  fresh_wires-Redone comms (suc n) t t' m =
      let (mask, m1) = new_mask-Follows domain_gf2 lanes_gf2 i j comms t t' m in
      let (more, m2) = fresh_wires-Redone comms n _ _ m1 in
      (push_front-Fresh _ _ _ _ (record { mask = mask; blank = refl; blank' = refl }) more, m2)

  fresh-lane :
      (w w' : WireGf2)
      → SameFresh w w'
      → lanes_gf2.recon_lane (domain_gf2.recon_add (domain_gf2.reconstruct w'.mask) w'.corr) j
        ≡ lanes_gf2.recon_lane (domain_gf2.recon_add (domain_gf2.reconstruct w.mask) w.corr) i
  fresh-lane w w' f =
      lanes_gf2.recon_add-lane _ _ j
      ∙ ap₂ lanes_gf2.ring.add (reconstruct-lanes domain_gf2 lanes_gf2 i j w.mask w'.mask f.mask) (
          ap (λ x. lanes_gf2.recon_lane x j) f.blank'
          ∙ lanes_gf2.recon_zero-lane j
          ∙ sym (ap (λ x. lanes_gf2.recon_lane x i) f.blank ∙ lanes_gf2.recon_zero-lane i))
      ∙ sym (lanes_gf2.recon_add-lane _ _ i)

  fresh_loop-lane :
      (n : ℕ) (t : ProverTranscript domain_gf2) (t' : PreprocessTranscript domain_gf2)
      (z z' : ReconZ64) (ws ws' : Array WireGf2 n)
      → z' j ≡ z i
      → ArrayFresh ws ws'
      → (recon_loop reconstruct_only n t' z' ws').0 j ≡ (recon_loop reconstruct_only n t z ws).0 i
  unfolding recon_loop reconstruct_only
  fresh_loop-lane zero t t' z z' ws ws' e f = e
  fresh_loop-lane (suc n) t t' z z' ws ws' e f =
      fresh_loop-lane n t t' _ _ (rest ws) (rest ws')
        (shift_in-lanes _ _ z z' i j (fresh-lane (ws Fin.zero) (ws' Fin.zero) (f Fin.zero)) e)
        (λ k. f (Fin.suc k))

  -- The same integer is hidden.
  pub mask_value-lane :
      (comms : Array b.Digest packed) (t : ProverTranscript domain_gf2)
      (t' : PreprocessTranscript domain_gf2)
      → Follows domain_gf2 lanes_gf2 i j comms t t'
      → mask_value (preprocess domain_gf2) (preprocess domain_z64) t' j
        ≡ mask_value (prover domain_gf2) (prover domain_z64) t i
  unfolding mask_value recon_gf2_to_z64
  mask_value-lane comms t t' m =
      let (fresh, m1) = fresh_wires-Redone comms 64 t t' m in
      ap reverse_bits (
        fresh_loop-lane 64 (fresh_wires (prover domain_gf2) 64 t).1
          (fresh_wires (preprocess domain_gf2) 64 t').1 (λ k. wrap 0) (λ k. wrap 0) _ _ refl fresh)

  module _ (comms : Array b.Digest packed) where
    -- What the prover opens leaves its masks alone.
    recon_loop-Redone :
        (n : ℕ) (t : ProverTranscript domain_gf2) (t' : PreprocessTranscript domain_gf2)
        (z z' : ReconZ64) (ws ws' : Array WireGf2 n)
        → Follows domain_gf2 lanes_gf2 i j comms t t'
        → Follows domain_gf2 lanes_gf2 i j comms
            (recon_loop (prover domain_gf2).reconstruct n t z ws).1
            (recon_loop (preprocess domain_gf2).reconstruct n t' z' ws').1
    unfolding recon_loop Preprocess.reconstruct
    recon_loop-Redone zero t t' z z' ws ws' m = m
    recon_loop-Redone (suc n) t t' z z' ws ws' m =
        recon_loop-Redone n _ _ _ _ (rest ws) (rest ws')
          (reconstruct-Follows domain_gf2 lanes_gf2 i j comms t t' m (ws Fin.zero).mask)

    pub recon_gf2_to_z64-Redone :
        (t : ProverTranscript domain_gf2) (t' : PreprocessTranscript domain_gf2)
        (ws ws' : Array WireGf2 64)
        → Follows domain_gf2 lanes_gf2 i j comms t t'
        → Follows domain_gf2 lanes_gf2 i j comms
            (recon_gf2_to_z64 (prover domain_gf2).reconstruct t ws).1
            (recon_gf2_to_z64 (preprocess domain_gf2).reconstruct t' ws').1
    unfolding recon_gf2_to_z64
    recon_gf2_to_z64-Redone t t' ws ws' m =
        recon_loop-Redone 64 t t' (λ k. wrap 0) (λ k. wrap 0) ws ws' m
