-- ===== src/Replay/Combine/Step.antt =====
-- interpreter/combine.rs: one operation of a circuit on both machines.
use reverie_ppr.Prelude.{ℕ, Bool, ◌≡◌, refl, subst, Fin, ok, ok_injective, map_ok-eq-ok}
use reverie_ppr.Word.{U64}
use reverie_ppr.Crypto.{StreamCipher, Blake3}
use reverie_ppr.Algebra.{players, packed}
use reverie_ppr.Algebra.Z64.Domain.{domain_z64}
use reverie_ppr.Algebra.Z64.Laws.{lanes_z64}
use reverie_ppr.Algebra.Gf2.Laws.{domain_gf2, lanes_gf2}
use reverie_ppr.Transcript.Prover.{prover}
use reverie_ppr.Transcript.Online.{online}
use reverie_ppr.Interpreter.{Operation}
use reverie_ppr.Interpreter.Single.{step, default_wire}
use reverie_ppr.Interpreter.Single.Value.{WireIsValid}
use reverie_ppr.Interpreter.Single.Valid.{step-IsValid}
use reverie_ppr.Interpreter.Combine.{
  CombineOperation, size_hint, resize, gf2_op, z64_op, b2a, combine_step,
}
use reverie_ppr.Interpreter.Combine.Wires.{resize-All, resize-pairs}
use reverie_ppr.Replay.{WireFits}
use reverie_ppr.Replay.Gates.{share_zero-Fits, recon_zero-Fits}
use reverie_ppr.Replay.Product.{nothing}
use reverie_ppr.Replay.Machine.{nothing_recorded}
use reverie_ppr.Replay.Step.{step-Follows}
use reverie_ppr.Replay.Combine.{CombineProver, CombineFollows}
use reverie_ppr.Replay.Combine.B2a.{step_b2a-Follows}

module _ ⦃c : StreamCipher⦄ ⦃b : Blake3⦄ (i j : Fin packed) (o : Fin players) where
  abbrev Follows : CombineProver → CombineProver → CombineOperation → Type 0
  Follows s u op =
      CombineFollows i j o s u (λ s'. combine_step (online domain_gf2) (online domain_z64) s' op)

  size_hint-Follows :
      (s : CombineProver) (z64 gf2 : ℕ) {u : CombineProver}
      → combine_step (prover domain_gf2) (prover domain_z64) s (size_hint z64 gf2) ≡ ok u
      → Follows s u (size_hint z64 gf2)
  unfolding combine_step default_wire
  size_hint-Follows s z64 gf2 e =
      subst (λ u. Follows s u (size_hint z64 gf2)) (ok_injective e)
        (record {
          said = record { gf2 = nothing domain_gf2; z64 = nothing domain_z64 };
          records = record {
            gf2 = nothing_recorded domain_gf2 lanes_gf2 i j o s.gf2.transcript;
            z64 = nothing_recorded domain_z64 lanes_z64 i j o s.z64.transcript;
          };
          keeps = λ valid. record {
            gf2 = record {
              wires =
                  resize-All (WireIsValid domain_gf2 lanes_gf2) gf2 _ s.gf2.wires
                    lanes_gf2.recon_zero-IsValid valid.gf2.wires;
              transcript = valid.gf2.transcript;
            };
            z64 = record {
              wires =
                  resize-All (WireIsValid domain_z64 lanes_z64) z64 _ s.z64.wires
                    lanes_z64.recon_zero-IsValid valid.z64.wires;
              transcript = valid.z64.transcript;
            };
          };
          replay = λ s' l fits covers. record {
            after = record {
              gf2 = record s'.gf2 { wires = resize gf2 (default_wire domain_gf2) s'.gf2.wires };
              z64 = record s'.z64 { wires = resize z64 (default_wire domain_z64) s'.z64.wires };
            };
            returns = refl;
            fits = record {
              gf2 = record {
                transcript = fits.gf2.transcript;
                wires =
                    resize-pairs (WireFits domain_gf2 lanes_gf2 i j o) gf2 _ _ s.gf2.wires
                      s'.gf2.wires
                      (record {
                        mask = share_zero-Fits domain_gf2 lanes_gf2 i j o;
                        corr = recon_zero-Fits domain_gf2 lanes_gf2 i j o;
                      })
                      fits.gf2.wires;
              };
              z64 = record {
                transcript = fits.z64.transcript;
                wires =
                    resize-pairs (WireFits domain_z64 lanes_z64 i j o) z64 _ _ s.z64.wires
                      s'.z64.wires
                      (record {
                        mask = share_zero-Fits domain_z64 lanes_z64 i j o;
                        corr = recon_zero-Fits domain_z64 lanes_z64 i j o;
                      })
                      fits.z64.wires;
              };
            };
            covers = record { gf2 = covers.gf2; z64 = covers.z64 };
          };
        })

  gf2_op-Follows :
      (s : CombineProver) (op : Operation Bool) {u : CombineProver}
      → combine_step (prover domain_gf2) (prover domain_z64) s (gf2_op op) ≡ ok u
      → Follows s u (gf2_op op)
  unfolding combine_step
  gf2_op-Follows s op e =
      let (m, e₁, e₂) = map_ok-eq-ok _ (step domain_gf2 (prover domain_gf2) s.gf2 op) e in
      let f = step-Follows domain_gf2 lanes_gf2 i j o s.gf2 op e₁ in
      subst (λ u. Follows s u (gf2_op op)) e₂
        (record {
          said = record { gf2 = f.said; z64 = nothing domain_z64 };
          records = record {
            gf2 = f.records;
            z64 = nothing_recorded domain_z64 lanes_z64 i j o s.z64.transcript;
          };
          keeps = λ valid. record {
            gf2 = step-IsValid domain_gf2 lanes_gf2 s.gf2 valid.gf2 op e₁;
            z64 = valid.z64;
          };
          replay = λ s' l fits covers.
              let p = f.replay s'.gf2 l.gf2 fits.gf2 covers.gf2 in
              record {
                after = record s' { gf2 = p.after };
                returns = rw (p.returns) refl;
                fits = record { gf2 = p.fits; z64 = fits.z64 };
                covers = record { gf2 = p.covers; z64 = covers.z64 };
              };
        })

  z64_op-Follows :
      (s : CombineProver) (op : Operation U64) {u : CombineProver}
      → combine_step (prover domain_gf2) (prover domain_z64) s (z64_op op) ≡ ok u
      → Follows s u (z64_op op)
  unfolding combine_step
  z64_op-Follows s op e =
      let (m, e₁, e₂) = map_ok-eq-ok _ (step domain_z64 (prover domain_z64) s.z64 op) e in
      let f = step-Follows domain_z64 lanes_z64 i j o s.z64 op e₁ in
      subst (λ u. Follows s u (z64_op op)) e₂
        (record {
          said = record { gf2 = nothing domain_gf2; z64 = f.said };
          records = record {
            gf2 = nothing_recorded domain_gf2 lanes_gf2 i j o s.gf2.transcript;
            z64 = f.records;
          };
          keeps = λ valid. record {
            gf2 = valid.gf2;
            z64 = step-IsValid domain_z64 lanes_z64 s.z64 valid.z64 op e₁;
          };
          replay = λ s' l fits covers.
              let p = f.replay s'.z64 l.z64 fits.z64 covers.z64 in
              record {
                after = record s' { z64 = p.after };
                returns = rw (p.returns) refl;
                fits = record { gf2 = fits.gf2; z64 = p.fits };
                covers = record { gf2 = covers.gf2; z64 = p.covers };
              };
        })

  -- Where an operation does not panic on the prover's side, it is replayed.
  pub combine_step-Follows :
      (s : CombineProver) (op : CombineOperation) {u : CombineProver}
      → combine_step (prover domain_gf2) (prover domain_z64) s op ≡ ok u
      → Follows s u op
  unfolding combine_step
  combine_step-Follows s (size_hint z64 gf2) e = size_hint-Follows s z64 gf2 e
  combine_step-Follows s (gf2_op op) e = gf2_op-Follows s op e
  combine_step-Follows s (z64_op op) e = z64_op-Follows s op e
  combine_step-Follows s (b2a dst src) e = step_b2a-Follows i j o s dst src e
