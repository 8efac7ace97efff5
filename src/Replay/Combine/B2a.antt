-- ===== src/Replay/Combine/B2a.antt =====
-- interpreter/combine.rs: `B2A` on both machines.
use reverie_ppr.Prelude.{
  ℕ, ◌≡◌, refl, sym, ◌∙◌, subst, Fin, ok, >>=-eq-ok, ok_injective, write, All-write, AllPairs-write,
}
use reverie_ppr.Crypto.{StreamCipher, Blake3}
use reverie_ppr.Algebra.{players, packed}
use reverie_ppr.Algebra.Z64.Domain.{domain_z64}
use reverie_ppr.Algebra.Z64.Laws.{lanes_z64}
use reverie_ppr.Algebra.Gf2.Laws.{domain_gf2, lanes_gf2}
use reverie_ppr.Transcript.Prover.{prover}
use reverie_ppr.Transcript.Online.{online}
use reverie_ppr.Interpreter.Single.Value.{WireIsValid}
use reverie_ppr.Interpreter.Combine.{wires_from, step_b2a}
use reverie_ppr.Interpreter.Combine.Parts.{open_sum, mask_value, mask_wire, unmasked, step_b2a_lem}
use reverie_ppr.Interpreter.Combine.Wires.{wires_from-pairs}
use reverie_ppr.Replay.{WireFits}
use reverie_ppr.Replay.Combine.{CombineProver, CombineFollows}
use reverie_ppr.Replay.Combine.Parts.{open_sum-Echoes, mask_wire-Echoes, unmasked-Fits}

module _ ⦃c : StreamCipher⦄ ⦃b : Blake3⦄ (i j : Fin packed) (o : Fin players) where
  pub step_b2a-Follows :
      (s : CombineProver) (dst src : ℕ) {u : CombineProver}
      → step_b2a (prover domain_gf2) (prover domain_z64) s dst src ≡ ok u
      → CombineFollows i j o s u (λ s'. step_b2a (online domain_gf2) (online domain_z64) s' dst src)
  unfolding lanes_z64
  step_b2a-Follows s dst src e =
      let (ws, e₁, e₂) =
        >>=-eq-ok (wires_from 64 s.gf2.wires src) _
          (sym (step_b2a_lem (prover domain_gf2) (prover domain_z64) s dst src) ∙ e) in
      let opened = open_sum (prover domain_gf2) (prover domain_z64) s.gf2.transcript ws in
      let masked =
        mask_wire (prover domain_gf2) (prover domain_z64) s.z64.transcript
          (mask_value (prover domain_gf2) (prover domain_z64) s.gf2.transcript) in
      let wire = unmasked (prover domain_gf2) (prover domain_z64) opened.0 masked.0 in
      let (zs, e₃, e₄) = >>=-eq-ok (write s.z64.wires dst wire) _ e₂ in
      let f = open_sum-Echoes i j o s.gf2.transcript ws in
      let g =
        mask_wire-Echoes i j o s.z64.transcript
          (mask_value (prover domain_gf2) (prover domain_z64) s.gf2.transcript) in
      subst
        (λ u.
          CombineFollows i j o s u
            (λ s'. step_b2a (online domain_gf2) (online domain_z64) s' dst src))
        (ok_injective e₄)
        (record {
          said = record { gf2 = f.said; z64 = g.said };
          records = record { gf2 = f.records; z64 = g.records };
          keeps = λ valid. record {
            gf2 = record { wires = valid.gf2.wires; transcript = f.keeps valid.gf2.transcript };
            z64 = record {
              wires =
                  All-write (WireIsValid domain_z64 lanes_z64) s.z64.wires dst wire tt
                    valid.z64.wires e₃;
              transcript = g.keeps valid.z64.transcript;
            };
          };
          replay = λ s' l fits covers.
              let (vs, e₅, same) =
                wires_from-pairs (WireFits domain_gf2 lanes_gf2 i j o) 64 s.gf2.wires s'.gf2.wires
                  src fits.gf2.wires e₁ in
              let p = f.echo vs same s'.gf2.transcript l.gf2 fits.gf2.transcript covers.gf2 in
              let v' = mask_value (online domain_gf2) (online domain_z64) s'.gf2.transcript in
              let q = g.echo v' tt s'.z64.transcript l.z64 fits.z64.transcript covers.z64 in
              let opened' = open_sum (online domain_gf2) (online domain_z64) s'.gf2.transcript vs in
              let masked' =
                mask_wire (online domain_gf2) (online domain_z64) s'.z64.transcript v' in
              let wire' = unmasked (online domain_gf2) (online domain_z64) opened'.0 masked'.0 in
              let (us, e₆, wires) =
                AllPairs-write (WireFits domain_z64 lanes_z64 i j o) s.z64.wires s'.z64.wires dst
                  wire wire'
                  (unmasked-Fits i j o opened.0 opened'.0 masked.0 masked'.0 p.value q.value)
                  fits.z64.wires e₃ in
              record {
                after = record {
                  gf2 = record s'.gf2 { transcript = opened'.1 };
                  z64 = record { transcript = masked'.1; wires = us };
                };
                returns =
                    step_b2a_lem (online domain_gf2) (online domain_z64) s' dst src
                    ∙ rw (e₅, e₆) refl;
                fits = record {
                  gf2 = record { transcript = p.agrees; wires = fits.gf2.wires };
                  z64 = record { transcript = q.agrees; wires = wires };
                };
                covers = record { gf2 = p.covers; z64 = q.covers };
              };
        })
