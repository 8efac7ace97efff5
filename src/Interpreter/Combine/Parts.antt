-- ===== src/Interpreter/Combine/Parts.antt =====
-- interpreter/combine.rs: `B2A` as its part on the bits' transcript, its part on the integers'
-- transcript, and the write of the result.
use reverie_ppr.Prelude.{ℕ, zero, suc, ◌≡◌, refl, ap, Array, ok, ◌>>=◌, write}
use reverie_ppr.Ring.Sum.{rest}
use reverie_ppr.Word.{wrap}
use reverie_ppr.Crypto.{StreamCipher, Blake3}
use reverie_ppr.Algebra.Z64.{ReconZ64}
use reverie_ppr.Algebra.Z64.Domain.{domain_z64}
use reverie_ppr.Algebra.Gf2.Laws.{domain_gf2}
use reverie_ppr.Transcript.{Wire, Transcript}
use reverie_ppr.Interpreter.Combine.{
  WireGf2, CombineInstance, wires_from, fresh_wires, add_64, recon_loop, recon_gf2_to_z64,
  reconstruct_only, share_random, step_b2a,
}

module _ ⦃c : StreamCipher⦄ ⦃b : Blake3⦄ where
  -- `gf2::Domain::reconstruct` has no state.
  recon_loop-state :
      {T : Type 0} (n : ℕ) (t : T) (z : ReconZ64) (ws : Array WireGf2 n)
      → (recon_loop reconstruct_only n t z ws).1 ≡ t
  unfolding recon_loop reconstruct_only
  recon_loop-state zero t z ws = refl
  recon_loop-state (suc n) t z ws = recon_loop-state n t _ (rest ws)

  recon_gf2_to_z64-state :
      {T : Type 0} (t : T) (ws : Array WireGf2 64) → (recon_gf2_to_z64 reconstruct_only t ws).1 ≡ t
  unfolding recon_gf2_to_z64
  recon_gf2_to_z64-state t ws = recon_loop-state 64 t (λ j. wrap 0) ws

  module _ {T1 T2 : Type 0} (tr1 : Transcript domain_gf2 T1) (tr2 : Transcript domain_z64 T2) where
    -- The sum of the fresh wires and the source wires, opened and converted.
    unfoldable pub open_sum : T1 → Array WireGf2 64 → ReconZ64 × T1
    unfolding fresh_wires add_64 recon_gf2_to_z64
    open_sum t src_wires =
        let (gf2_wires, t1) = fresh_wires tr1 64 t in
        let (sum, t2) = add_64 tr1 t1 gf2_wires src_wires in recon_gf2_to_z64 tr1.reconstruct t2 sum

    -- The integer that the fresh masks hide.
    unfoldable pub mask_value : T1 → ReconZ64
    unfolding fresh_wires recon_gf2_to_z64 reconstruct_only
    mask_value t =
        let (gf2_wires, t1) = fresh_wires tr1 64 t in
        (recon_gf2_to_z64 reconstruct_only t1 gf2_wires).0

    -- A wire over the integers that holds it.
    unfoldable pub mask_wire : T2 → ReconZ64 → Wire domain_z64 × T2
    mask_wire u z64_value =
        let (z64_mask, u1) = tr2.new_mask u in
        let (z64_corr, u2) =
          tr2.correction u1 (domain_z64.recon_sub z64_value (domain_z64.reconstruct z64_mask)) in
        (record { mask = z64_mask; corr = z64_corr }, u2)

    -- The opened sum without the mask.
    unfoldable pub unmasked : ReconZ64 → Wire domain_z64 → Wire domain_z64
    unmasked z64_recon z64_wire = record {
      mask = domain_z64.share_sub domain_z64.share_zero z64_wire.mask;
      corr = domain_z64.recon_sub z64_recon z64_wire.corr;
    }

    pub step_b2a_lem :
        (s : CombineInstance T1 T2) (dst src : ℕ)
        → step_b2a tr1 tr2 s dst src ≡ (
            wires_from 64 s.gf2.wires src >>= λ src_wires.
            let (z64_recon, t) = open_sum s.gf2.transcript src_wires in
            let (z64_wire, u) = mask_wire s.z64.transcript (mask_value s.gf2.transcript) in
            write s.z64.wires dst (unmasked z64_recon z64_wire) >>= λ wires. ok (record {
              gf2 = record s.gf2 { transcript = t };
              z64 = record { transcript = u; wires = wires };
            }))
    unfolding step_b2a share_random open_sum mask_value mask_wire unmasked
    step_b2a_lem s dst src =
        let fresh = fresh_wires tr1 64 s.gf2.transcript in
        let masked = mask_wire s.z64.transcript (mask_value s.gf2.transcript) in
        ap
          (λ t. wires_from 64 s.gf2.wires src >>= λ src_wires.
            let (sum, t1) = add_64 tr1 t fresh.0 src_wires in
            let (z64_recon, t2) = recon_gf2_to_z64 tr1.reconstruct t1 sum in
            write s.z64.wires dst (unmasked z64_recon masked.0) >>= λ wires. ok (record {
              gf2 = record s.gf2 { transcript = t2 };
              z64 = record { transcript = masked.1; wires = wires };
            }))
          (recon_gf2_to_z64-state fresh.1 fresh.0)
