-- ===== src/Replay/Product.antt =====
-- The product gate is replayed: `op_mul` on both transcripts.
use reverie_ppr.Prelude.{
  Feeds, ◌≡◌, refl, sym, ◌∙◌, subst, ap, Fin, List, [], ◌∷◌, ◌++◌, append-nil, append_assoc,
}
use reverie_ppr.Crypto.{StreamCipher, Blake3}
use reverie_ppr.Algebra.{Domain, Lanes, players, packed}
use reverie_ppr.Transcript.{Wire}
use reverie_ppr.Transcript.Prover
use reverie_ppr.Transcript.Prover.{ProverTranscript, prover}
use reverie_ppr.Transcript.Online
use reverie_ppr.Transcript.Online.{OnlineTranscript, online}
use reverie_ppr.Interpreter.Single.{mul_share, op_mul}
use reverie_ppr.Replay.{ShareFits, MessageFits, ReconFits, WireFits, Agrees}
use reverie_ppr.Replay.Gates.{
  share_add-Fits, share_sub-Fits, share_mul-Fits, recon_add-Fits, recon_mul-Fits,
}
use reverie_ppr.Replay.Messages.{new_mask-Fits, reconstruct-Fits, correction-Fits}

module _ ⦃c : StreamCipher⦄ ⦃b : Blake3⦄ (D : Domain) where
  -- What a prover's transcript records, and what an operation adds to it.
  pub record Log : Type 0 where
    pub recons : List D.Share
    pub corrs : List D.Recon
    pub inputs : List D.Recon

  abbrev pub join : Log → Log → Log
  join d l = record {
    recons = d.recons ++ l.recons;
    corrs = d.corrs ++ l.corrs;
    inputs = d.inputs ++ l.inputs;
  }

  abbrev pub nothing : Log
  nothing = record { recons = []; corrs = []; inputs = [] }

  pub record Records (t u : ProverTranscript D) (d : Log) : Type 0 where
    pub recons : u.reconstructions ≡ t.reconstructions ++ d.recons
    pub corrs : u.corrections ≡ t.corrections ++ d.corrs
    pub inputs : u.inputs ≡ t.inputs ++ d.inputs
    pub seeds : u.seeds ≡ t.seeds

  pub Records-trans :
      {t m u : ProverTranscript D} (d e : Log)
      → Records t m d
      → Records m u e
      → Records t u (join d e)
  Records-trans {t} d e f g = record {
    recons =
        g.recons
        ∙ ap (λ l. l ++ e.recons) f.recons
        ∙ append_assoc t.reconstructions d.recons e.recons;
    corrs = g.corrs ∙ ap (λ l. l ++ e.corrs) f.corrs ∙ append_assoc t.corrections d.corrs e.corrs;
    inputs = g.inputs ∙ ap (λ l. l ++ e.inputs) f.inputs ∙ append_assoc t.inputs d.inputs e.inputs;
    seeds = g.seeds ∙ f.seeds;
  }

  pub join_assoc : (d e l : Log) → join (join d e) l ≡ join d (join e l)
  join_assoc d e l k = record {
    recons = append_assoc d.recons e.recons l.recons k;
    corrs = append_assoc d.corrs e.corrs l.corrs k;
    inputs = append_assoc d.inputs e.inputs l.inputs k;
  }

  -- The two messages of a product gate.
  pub product_log : ProverTranscript D → Wire D → Wire D → Log
  product_log t w v =
      let (mask_ab, t1) = Prover.new_mask D t in
      let (mask_new, t2) = Prover.new_mask D t1 in
      record {
        recons = mul_share D w v mask_ab mask_new ∷ [];
        corrs =
            D.recon_sub (D.recon_mul (D.reconstruct w.mask) (D.reconstruct v.mask))
              (D.reconstruct mask_ab)
            ∷ [];
        inputs = [];
      }

  pub op_mul-Records :
      (t : ProverTranscript D) (w v : Wire D)
      → Records t (op_mul D (prover D) t w v).1 (product_log t w v)
  unfolding op_mul product_log Prover.new_mask Prover.correction Prover.reconstruct
  op_mul-Records t w v = record {
    recons = refl;
    corrs = refl;
    inputs = sym (append-nil _);
    seeds = refl;
  }

module _ ⦃c : StreamCipher⦄ ⦃b : Blake3⦄ (D : Domain) (L : Lanes D) (i j : Fin packed)
    (o : Fin players) where
  -- The verifier's iterators hold what the prover is going to record.
  pub record Covers (l : Log D) (t' : OnlineTranscript D) : Type 0 where
    pub recons : Feeds (MessageFits D L i j o) l.recons t'.recons
    pub corrs : Feeds (ReconFits D L i j o) l.corrs t'.corrs
    pub inputs : Feeds (ReconFits D L i j o) l.inputs t'.inputs

  pub regroup :
      (d e l : Log D) {t' : OnlineTranscript D}
      → Covers (join D (join D d e) l) t'
      → Covers (join D d (join D e l)) t'
  regroup d e l {t'} covers = subst (λ m. Covers m t') (join_assoc D d e l) covers

  mul_share-Fits :
      (w w' v v' : Wire D) (ab ab' new new' : D.Share)
      → WireFits D L i j o w w'
      → WireFits D L i j o v v'
      → ShareFits D L i j o ab ab'
      → ShareFits D L i j o new new'
      → ShareFits D L i j o (mul_share D w v ab new) (mul_share D w' v' ab' new')
  unfolding mul_share
  mul_share-Fits w w' v v' ab ab' new new' f g h k =
      share_sub-Fits D L i j o _ _ _ _
        (share_add-Fits D L i j o _ _ _ _
          (share_add-Fits D L i j o _ _ _ _ (share_mul-Fits D L i j o _ _ _ _ g.mask f.corr)
            (share_mul-Fits D L i j o _ _ _ _ f.mask g.corr))
          h)
        k

  module _ (t : ProverTranscript D) (t' : OnlineTranscript D) (w w' v v' : Wire D) where
    pub op_mul-Fits :
        Agrees D L i j o t t'
        → WireFits D L i j o w w'
        → WireFits D L i j o v v'
        → (l : Log D) → Covers (join D (product_log D t w v) l) t'
        → WireFits D L i j o (op_mul D (prover D) t w v).0 (op_mul D (online D) t' w' v').0
          × Agrees D L i j o (op_mul D (prover D) t w v).1 (op_mul D (online D) t' w' v').1
          × Covers l (op_mul D (online D) t' w' v').1
    unfolding op_mul product_log Online.new_mask
    op_mul-Fits agree f g l covers =
        let (ab, agree1) = new_mask-Fits D L i j o t t' agree in
        let (new, agree2) = new_mask-Fits D L i j o _ _ agree1 in
        let (delta, agree3, corrs, same_recons, same_inputs) =
          correction-Fits D L i j o _ _ agree2 _ _ l.corrs
            (L.recon_sub-IsValid _ _
              (L.recon_mul-IsValid _ _ (L.reconstruct-IsValid _) (L.reconstruct-IsValid _))
              (L.reconstruct-IsValid _))
            covers.corrs in
        let (sum, agree4, recons, same_corrs, same_inputs') =
          reconstruct-Fits D L i j o _ _ agree3 _ _ l.recons
            (mul_share-Fits w w' v v' _ _ _ _ f g ab new)
            (subst (Feeds (MessageFits D L i j o) (join D (product_log D t w v) l).recons)
              (sym same_recons) covers.recons) in
        (
          record {
            mask = new;
            corr =
                recon_add-Fits D L i j o _ _ _ _ (recon_add-Fits D L i j o _ _ _ _ sum delta)
                  (recon_mul-Fits D L i j o _ _ _ _ f.corr g.corr);
          },
          agree4,
          record {
            recons = recons;
            corrs = subst (Feeds (ReconFits D L i j o) l.corrs) (sym same_corrs) corrs;
            inputs =
                subst (Feeds (ReconFits D L i j o) l.inputs) (sym (same_inputs' ∙ same_inputs))
                  covers.inputs;
          },
        )
