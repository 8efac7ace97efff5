-- ===== src/Replay/Start.antt =====
-- proof/mod.rs, the online part of `verify` in one domain: what `run_instance` returns on a
-- verifier's transcript that was made from the openings of an honest prover.
use reverie_ppr.Prelude.{
  ℕ, ◌≡◌, refl, sym, ◌∙◌, subst, Fin, Array, List, [], append-nil, ok, >>=-eq-ok, ok_injective,
  AllPairs-replicate, same, false, val,
}
use reverie_ppr.Crypto.{StreamCipher, Blake3, Key}
use reverie_ppr.Crypto.Hash.{packed_new}
use reverie_ppr.Algebra.{Domain, Lanes, players, packed}
use reverie_ppr.Generator.Keys.{share_gen_new-Matches}
use reverie_ppr.Transcript.{transcript_hash}
use reverie_ppr.Transcript.Seeds.{expand_seed, share_gen_from_rep_seeds}
use reverie_ppr.Transcript.Prover.{ProverTranscript, prover, prover_new}
use reverie_ppr.Transcript.Online.{OnlineTranscript, OpenOnline, online, online_new}
use reverie_ppr.Interpreter.{Operation}
use reverie_ppr.Interpreter.Single.{run, instance_new, default_wire}
use reverie_ppr.Interpreter.Single.Refinement.{start}
use reverie_ppr.Replay.{WireFits, Agrees}
use reverie_ppr.Replay.Gates.{recon_zero-Fits, share_zero-Fits}
use reverie_ppr.Replay.Product.{Log, join, nothing, Records, Covers}
use reverie_ppr.Replay.Machine.{ProverMachine, OnlineMachine, MachineFits}
use reverie_ppr.Replay.Run.{run-Follows, Agrees-hash}

module _ ⦃c : StreamCipher⦄ ⦃b : Blake3⦄ (D : Domain) where
  -- What a prover's transcript has recorded.
  abbrev pub recorded : ProverTranscript D → Log D
  recorded t = record { recons = t.reconstructions; corrs = t.corrections; inputs = t.inputs }

  -- The openings of repetition `j` carry all keys of the seed but the omitted player's.
  pub record Opens (seed : Key) (o : Fin players) (opening : OpenOnline) : Type 0 where
    pub omit : opening.omit ≡ val o
    pub seeds : (p : Fin players) → same p o ≡ false → opening.seeds p ≡ expand_seed seed p

  module _ (L : Lanes D) (i j : Fin packed) (o : Fin players) where
    start-Agrees :
        (witness : List D.Recon) (seeds : Array Key packed) (openings : Array OpenOnline packed)
        {t' : OnlineTranscript D}
        → online_new D openings ≡ ok t'
        → Opens (seeds i) o (openings j)
        → Agrees D L i j o (prover_new D witness seeds) t'
    unfolding prover_new share_gen_from_rep_seeds online_new packed_new
    start-Agrees witness seeds openings e opens =
        let (corrs, e₁, f₁) = >>=-eq-ok (D.unpack [] (λ r. (openings r).corrs)) _ e in
        let (inputs, e₂, f₂) = >>=-eq-ok (D.unpack [] (λ r. (openings r).inputs)) _ f₁ in
        let (recons, e₃, f₃) =
          >>=-eq-ok (D.unpack_selected [] (λ r. (openings r).recons) (λ r. (openings r).omit)) _
            f₂ in
        subst (Agrees D L i j o (prover_new D witness seeds)) (ok_injective f₃) (record {
          gens =
              share_gen_new-Matches D L i j o (λ r. expand_seed (seeds r)) (λ r. (openings r).seeds)
                (λ r. (openings r).omit) opens.omit opens.seeds;
          online = refl;
          preprocess = refl;
        })

    pub start-Fits :
        (witness : List D.Recon) (seeds : Array Key packed) (openings : Array OpenOnline packed)
        (cells : ℕ) {t' : OnlineTranscript D}
        → online_new D openings ≡ ok t'
        → Opens (seeds i) o (openings j)
        → MachineFits D L i j o (start D witness seeds cells) (instance_new D t' cells)
    unfolding instance_new default_wire
    start-Fits witness seeds openings cells e opens = record {
      transcript = start-Agrees witness seeds openings e opens;
      wires =
          AllPairs-replicate (WireFits D L i j o) cells _ _
            (record { mask = share_zero-Fits D L i j o; corr = recon_zero-Fits D L i j o });
    }

    -- What a prover has recorded since the start is what it holds.
    pub Covers-said :
        (witness : List D.Recon) (seeds : Array Key packed) {u : ProverTranscript D} (said : Log D)
        {t' : OnlineTranscript D}
        → Records D (prover_new D witness seeds) u said
        → Covers D L i j o (recorded u) t'
        → Covers D L i j o (join D said (nothing D)) t'
    unfolding prover_new
    Covers-said witness seeds said {t'} records covers =
        subst (λ l. Covers D L i j o l t')
          (λ k. record {
            recons = (records.recons ∙ sym (append-nil said.recons)) k;
            corrs = (records.corrs ∙ sym (append-nil said.corrs)) k;
            inputs = (records.inputs ∙ sym (append-nil said.inputs)) k;
          })
          covers

    pub verifier_replays :
        (program : List (Operation D.Const)) (witness : List D.Recon) (seeds : Array Key packed)
        (cells : ℕ) (openings : Array OpenOnline packed) {t' : OnlineTranscript D}
        {u : ProverMachine D}
        → run D (prover D) (start D witness seeds cells) program ≡ ok u
        → online_new D openings ≡ ok t'
        → Opens (seeds i) o (openings j)
        → Covers D L i j o (recorded u.transcript) t'
        → (v : OnlineMachine D) × (run D (online D) (instance_new D t' cells) program ≡ ok v)
          × (transcript_hash (online D) v.transcript j ≡ transcript_hash (prover D) u.transcript i)
    unfolding instance_new prover_new
    verifier_replays program witness seeds cells openings {t'} {u} e e' opens covers =
        let f = run-Follows D L i j o program (start D witness seeds cells) u e in
        let replayed =
          f.replay (instance_new D t' cells) (nothing D)
            (start-Fits witness seeds openings cells e' opens)
            (Covers-said witness seeds f.said f.records covers) in
        (
          replayed.after,
          replayed.returns,
          Agrees-hash D L i j o u.transcript replayed.after.transcript replayed.fits.transcript,
        )
