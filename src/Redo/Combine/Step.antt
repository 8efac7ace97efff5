-- ===== src/Redo/Combine/Step.antt =====
-- interpreter/combine.rs: one operation of a circuit, on the prover's machine and on the
-- preprocessing verifier's.
use reverie_ppr.Prelude.{
  ℕ, ◌≡◌, refl, sym, ◌∙◌, subst, Fin, Array, Outcome, ok, >>=-eq-ok, ok_injective, map_ok-eq-ok,
  write, AllPairs-write,
}
use reverie_ppr.Crypto.{StreamCipher, Blake3}
use reverie_ppr.Algebra.{packed}
use reverie_ppr.Algebra.Z64.Domain.{domain_z64}
use reverie_ppr.Algebra.Z64.Laws.{lanes_z64}
use reverie_ppr.Algebra.Gf2.Laws.{domain_gf2, lanes_gf2}
use reverie_ppr.Transcript.Prover.{prover}
use reverie_ppr.Transcript.Preprocess.{preprocess}
use reverie_ppr.Interpreter.Single.{step, default_wire}
use reverie_ppr.Interpreter.Combine.{
  CombineOperation, size_hint, gf2_op, z64_op, b2a, wires_from, resize, step_b2a, combine_step,
}
use reverie_ppr.Interpreter.Combine.Parts.{open_sum, mask_value, mask_wire, unmasked, step_b2a_lem}
use reverie_ppr.Interpreter.Combine.Wires.{wires_from-pairs, resize-pairs}
use reverie_ppr.Redo.{SameMask}
use reverie_ppr.Redo.Gates.{share_zero-Same}
use reverie_ppr.Redo.Step.{step-Redone}
use reverie_ppr.Redo.Combine.{CombineProver, CombinePreprocess, CombineFollows, CombineRedone}
use reverie_ppr.Redo.Combine.Masks.{mask_value-lane}
use reverie_ppr.Redo.Combine.Parts.{open_sum-Redone, mask_wire-Redone, unmasked-Same}

module _ ⦃c : StreamCipher⦄ ⦃b : Blake3⦄ (i j : Fin packed) (comms₁ comms₂ : Array b.Digest packed)
    (s : CombineProver) (s' : CombinePreprocess) (m : CombineFollows i j comms₁ comms₂ s s') where
  abbrev Redone : CombineProver → Outcome CombinePreprocess → Type 0
  Redone u result = CombineRedone i j comms₁ comms₂ u result

  resized :
      (z64 gf2 : ℕ) {u : CombineProver}
      → combine_step (prover domain_gf2) (prover domain_z64) s (size_hint z64 gf2) ≡ ok u
      → Redone u
          (combine_step (preprocess domain_gf2) (preprocess domain_z64) s' (size_hint z64 gf2))
  unfolding combine_step default_wire
  resized z64 gf2 e =
      subst
        (λ u.
          Redone u
            (combine_step (preprocess domain_gf2) (preprocess domain_z64) s' (size_hint z64 gf2)))
        (ok_injective e)
        (
          record {
            gf2 = record s'.gf2 { wires = resize gf2 (default_wire domain_gf2) s'.gf2.wires };
            z64 = record s'.z64 { wires = resize z64 (default_wire domain_z64) s'.z64.wires };
          },
          refl,
          record {
            gf2 = record {
              transcript = m.gf2.transcript;
              wires =
                  resize-pairs (SameMask domain_gf2 lanes_gf2 i j comms₁) gf2 _ _ s.gf2.wires
                    s'.gf2.wires (record { mask = share_zero-Same domain_gf2 lanes_gf2 i j })
                    m.gf2.wires;
            };
            z64 = record {
              transcript = m.z64.transcript;
              wires =
                  resize-pairs (SameMask domain_z64 lanes_z64 i j comms₂) z64 _ _ s.z64.wires
                    s'.z64.wires (record { mask = share_zero-Same domain_z64 lanes_z64 i j })
                    m.z64.wires;
            };
          },
        )

  converted :
      (dst src : ℕ) {u : CombineProver}
      → step_b2a (prover domain_gf2) (prover domain_z64) s dst src ≡ ok u
      → Redone u (step_b2a (preprocess domain_gf2) (preprocess domain_z64) s' dst src)
  converted dst src e =
      let (ws, e₁, e₂) =
        >>=-eq-ok (wires_from 64 s.gf2.wires src) _
          (sym (step_b2a_lem (prover domain_gf2) (prover domain_z64) s dst src) ∙ e) in
      let (ws', e₃, same) =
        wires_from-pairs (SameMask domain_gf2 lanes_gf2 i j comms₁) 64 s.gf2.wires s'.gf2.wires src
          m.gf2.wires e₁ in
      let value = mask_value (prover domain_gf2) (prover domain_z64) s.gf2.transcript in
      let value' = mask_value (preprocess domain_gf2) (preprocess domain_z64) s'.gf2.transcript in
      let opened = open_sum (prover domain_gf2) (prover domain_z64) s.gf2.transcript ws in
      let opened' =
        open_sum (preprocess domain_gf2) (preprocess domain_z64) s'.gf2.transcript ws' in
      let masked = mask_wire (prover domain_gf2) (prover domain_z64) s.z64.transcript value in
      let masked' =
        mask_wire (preprocess domain_gf2) (preprocess domain_z64) s'.z64.transcript value' in
      let (mask, m2) =
        mask_wire-Redone i j comms₂ s.z64.transcript s'.z64.transcript value value' m.z64.transcript
          (mask_value-lane i j comms₁ s.gf2.transcript s'.gf2.transcript m.gf2.transcript) in
      let (zs, e₄, e₅) = >>=-eq-ok (write s.z64.wires dst _) _ e₂ in
      let (us, e₆, wires) =
        AllPairs-write (SameMask domain_z64 lanes_z64 i j comms₂) s.z64.wires s'.z64.wires dst
          (unmasked (prover domain_gf2) (prover domain_z64) opened.0 masked.0)
          (unmasked (preprocess domain_gf2) (preprocess domain_z64) opened'.0 masked'.0)
          (unmasked-Same i j comms₂ opened.0 opened'.0 masked.0 masked'.0 mask) m.z64.wires e₄ in
      subst (λ u. Redone u (step_b2a (preprocess domain_gf2) (preprocess domain_z64) s' dst src))
        (ok_injective e₅)
        (
          record {
            gf2 = record s'.gf2 { transcript = opened'.1 };
            z64 = record { transcript = masked'.1; wires = us };
          },
          step_b2a_lem (preprocess domain_gf2) (preprocess domain_z64) s' dst src
              ∙ rw (e₃, e₆) refl,
          record {
            gf2 = record {
              transcript =
                  open_sum-Redone i j comms₁ s.gf2.transcript s'.gf2.transcript ws ws'
                    m.gf2.transcript same;
              wires = m.gf2.wires;
            };
            z64 = record { transcript = m2; wires = wires };
          },
        )

  pub combine_step-Redone :
      (op : CombineOperation) {u : CombineProver}
      → combine_step (prover domain_gf2) (prover domain_z64) s op ≡ ok u
      → Redone u (combine_step (preprocess domain_gf2) (preprocess domain_z64) s' op)
  unfolding combine_step
  combine_step-Redone (size_hint z64 gf2) e = resized z64 gf2 e
  combine_step-Redone (b2a dst src) e = converted dst src e
  combine_step-Redone (gf2_op op) e =
      let (u, e₁, e₂) = map_ok-eq-ok _ (step domain_gf2 (prover domain_gf2) s.gf2 op) e in
      let (u', e₃, f) = step-Redone domain_gf2 lanes_gf2 i j comms₁ s.gf2 u s'.gf2 m.gf2 op e₁ in
      (
        record s' { gf2 = u' },
        rw e₃ refl,
        subst (λ v. CombineFollows i j comms₁ comms₂ v (record s' { gf2 = u' })) e₂
            (record { gf2 = f; z64 = m.z64 }),
      )
  combine_step-Redone (z64_op op) e =
      let (u, e₁, e₂) = map_ok-eq-ok _ (step domain_z64 (prover domain_z64) s.z64 op) e in
      let (u', e₃, f) = step-Redone domain_z64 lanes_z64 i j comms₂ s.z64 u s'.z64 m.z64 op e₁ in
      (
        record s' { z64 = u' },
        rw e₃ refl,
        subst (λ v. CombineFollows i j comms₁ comms₂ v (record s' { z64 = u' })) e₂
            (record { gf2 = m.gf2; z64 = f }),
      )
