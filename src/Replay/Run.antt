-- ===== src/Replay/Run.antt =====
-- A whole circuit on both sides, gate by gate.
use reverie_ppr.Prelude.{
  ◌≡◌, refl, subst, ap, ap₂, Fin, List, [], ◌∷◌, Outcome, ok, ◌>>=◌, >>=-eq-ok, ok_injective,
}
use reverie_ppr.Crypto.{StreamCipher, Blake3}
use reverie_ppr.Crypto.Hash.{packed_finalize, finalize}
use reverie_ppr.Algebra.{Domain, Lanes, players, packed}
use reverie_ppr.Transcript.{hash_join, transcript_hash}
use reverie_ppr.Transcript.Prover.{ProverTranscript, prover}
use reverie_ppr.Transcript.Online.{OnlineTranscript, online}
use reverie_ppr.Interpreter.{Operation}
use reverie_ppr.Interpreter.Single.{step, run}
use reverie_ppr.Replay.{Agrees}
use reverie_ppr.Replay.Product.{join, nothing, Records-trans, regroup}
use reverie_ppr.Replay.Machine.{ProverMachine, OnlineMachine, Follows, nothing_recorded}
use reverie_ppr.Replay.Step.{step-Follows}

module _ ⦃c : StreamCipher⦄ ⦃b : Blake3⦄ (D : Domain) (L : Lanes D) (i j : Fin packed)
    (o : Fin players) where
  Follows-bind :
      (s m u : ProverMachine D) (act after : OnlineMachine D → Outcome (OnlineMachine D))
      → Follows D L i j o s m act
      → Follows D L i j o m u after
      → Follows D L i j o s u (λ s'. act s' >>= after)
  Follows-bind s m u act after f g = record {
    said = join D f.said g.said;
    records = Records-trans D f.said g.said f.records g.records;
    replay = λ s' l fits covers.
        let first = f.replay s' (join D g.said l) fits (regroup D L i j o f.said g.said l covers) in
        rw (first.returns) (g.replay first.after l first.fits first.covers);
  }

  pub run-Follows :
      (program : List (Operation D.Const)) (s u : ProverMachine D)
      → run D (prover D) s program ≡ ok u
      → Follows D L i j o s u (λ s'. run D (online D) s' program)
  unfolding run
  run-Follows [] s u e =
      subst (λ m. Follows D L i j o s m ok) (ok_injective e)
        (record {
          said = nothing D;
          records = nothing_recorded D L i j o s.transcript;
          replay = λ s' l fits covers. record {
            after = s';
            returns = refl;
            fits = fits;
            covers = covers;
          };
        })
  run-Follows (op ∷ program) s u e =
      let (m, e₁, e₂) = >>=-eq-ok (step D (prover D) s op) _ e in
      Follows-bind s m u (λ s'. step D (online D) s' op) (λ s'. run D (online D) s' program)
        (step-Follows D L i j o s op e₁) (run-Follows program m u e₂)

  pub Agrees-hash :
      (t : ProverTranscript D) (t' : OnlineTranscript D)
      → Agrees D L i j o t t'
      → transcript_hash (online D) t' j ≡ transcript_hash (prover D) t i
  unfolding transcript_hash packed_finalize finalize
  Agrees-hash t t' agree =
      ap₂ hash_join (ap b.finalize agree.preprocess) (ap b.finalize agree.online)
