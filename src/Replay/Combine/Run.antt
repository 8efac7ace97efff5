-- ===== src/Replay/Combine/Run.antt =====
-- proof/mod.rs: a circuit over both domains on both machines, and the hash of a repetition.
use reverie_ppr.Prelude.{
  ◌≡◌, refl, subst, ap₂, Fin, List, [], ◌∷◌, Outcome, ok, ◌>>=◌, >>=-eq-ok, ok_injective,
}
use reverie_ppr.Crypto.{StreamCipher, Blake3}
use reverie_ppr.Algebra.{players, packed}
use reverie_ppr.Algebra.Z64.Domain.{domain_z64}
use reverie_ppr.Algebra.Z64.Laws.{lanes_z64}
use reverie_ppr.Algebra.Gf2.Laws.{domain_gf2, lanes_gf2}
use reverie_ppr.Transcript.Prover.{prover}
use reverie_ppr.Transcript.Online.{online}
use reverie_ppr.Interpreter.Combine.{CombineOperation, combine_step, combine_hash}
use reverie_ppr.Proof.Prove.{run_combined}
use reverie_ppr.Replay.Product.{nothing, Records-trans, regroup}
use reverie_ppr.Replay.Machine.{nothing_recorded}
use reverie_ppr.Replay.Run.{Agrees-hash}
use reverie_ppr.Replay.Combine.{
  CombineProver, CombineOnline, CombineFits, CombineFollows, join_both,
}
use reverie_ppr.Replay.Combine.Step.{combine_step-Follows}

module _ ⦃c : StreamCipher⦄ ⦃b : Blake3⦄ (i j : Fin packed) (o : Fin players) where
  bind-Follows :
      (s m u : CombineProver) (act after : CombineOnline → Outcome CombineOnline)
      → CombineFollows i j o s m act
      → CombineFollows i j o m u after
      → CombineFollows i j o s u (λ s'. act s' >>= after)
  bind-Follows s m u act after f g = record {
    said = join_both i j o f.said g.said;
    records = record {
      gf2 = Records-trans domain_gf2 f.said.gf2 g.said.gf2 f.records.gf2 g.records.gf2;
      z64 = Records-trans domain_z64 f.said.z64 g.said.z64 f.records.z64 g.records.z64;
    };
    keeps = λ valid. g.keeps (f.keeps valid);
    replay = λ s' l fits covers.
        let first = f.replay s' (join_both i j o g.said l) fits (record {
          gf2 = regroup domain_gf2 lanes_gf2 i j o f.said.gf2 g.said.gf2 l.gf2 covers.gf2;
          z64 = regroup domain_z64 lanes_z64 i j o f.said.z64 g.said.z64 l.z64 covers.z64;
        }) in
        rw (first.returns) (g.replay first.after l first.fits first.covers);
  }

  pub run_combined-Follows :
      (circuit : List CombineOperation) (s : CombineProver) {u : CombineProver}
      → run_combined (prover domain_gf2) (prover domain_z64) s circuit ≡ ok u
      → CombineFollows i j o s u
          (λ s'. run_combined (online domain_gf2) (online domain_z64) s' circuit)
  unfolding run_combined
  run_combined-Follows [] s e =
      subst (λ u. CombineFollows i j o s u ok) (ok_injective e)
        (record {
          said = record { gf2 = nothing domain_gf2; z64 = nothing domain_z64 };
          records = record {
            gf2 = nothing_recorded domain_gf2 lanes_gf2 i j o s.gf2.transcript;
            z64 = nothing_recorded domain_z64 lanes_z64 i j o s.z64.transcript;
          };
          keeps = λ valid. valid;
          replay = λ s' l fits covers. record {
            after = s';
            returns = refl;
            fits = fits;
            covers = record { gf2 = covers.gf2; z64 = covers.z64 };
          };
        })
  run_combined-Follows (op ∷ circuit) s {u} e =
      let (m, e₁, e₂) = >>=-eq-ok (combine_step (prover domain_gf2) (prover domain_z64) s op) _ e in
      bind-Follows s m u (λ s'. combine_step (online domain_gf2) (online domain_z64) s' op)
        (λ s'. run_combined (online domain_gf2) (online domain_z64) s' circuit)
        (combine_step-Follows i j o s op e₁) (run_combined-Follows circuit m e₂)

  pub combine_hash-Fits :
      (s : CombineProver) (s' : CombineOnline)
      → CombineFits i j o s s'
      → combine_hash (online domain_gf2) (online domain_z64) s' j
        ≡ combine_hash (prover domain_gf2) (prover domain_z64) s i
  unfolding combine_hash
  combine_hash-Fits s s' fits =
      ap₂ (λ x y. b.finalize (b.update (b.update b.new (b.as_bytes x)) (b.as_bytes y)))
        (Agrees-hash domain_gf2 lanes_gf2 i j o s.gf2.transcript s'.gf2.transcript
          fits.gf2.transcript)
        (Agrees-hash domain_z64 lanes_z64 i j o s.z64.transcript s'.z64.transcript
          fits.z64.transcript)
