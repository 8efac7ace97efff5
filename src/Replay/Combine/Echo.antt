-- ===== src/Replay/Combine/Echo.antt =====
-- A part of a step that both sides compute on their transcripts: what the prover records in it, and
-- that a verifier who is given that obtains a fitting result.
use reverie_ppr.Prelude.{Fin, [], ◌∷◌, append-nil, refl, sym, subst, Feeds, All-snoc}
use reverie_ppr.Crypto.{StreamCipher, Blake3}
use reverie_ppr.Algebra.{Domain, Lanes, players, packed}
use reverie_ppr.Transcript.{Wire}
use reverie_ppr.Transcript.Prover
use reverie_ppr.Transcript.Prover.{ProverTranscript, prover}
use reverie_ppr.Transcript.Online
use reverie_ppr.Transcript.Online.{OnlineTranscript, online}
use reverie_ppr.Interpreter.Single.{op_mul}
use reverie_ppr.Interpreter.Single.Prover.{TranscriptIsValid}
use reverie_ppr.Interpreter.Single.Valid.{op_mul-TranscriptIsValid}
use reverie_ppr.Replay.{ShareFits, MessageFits, ReconFits, WireFits, Agrees}
use reverie_ppr.Replay.Messages.{new_mask-Fits, reconstruct-Fits, correction-Fits}
use reverie_ppr.Replay.Product.{
  Log, nothing, join, Records, Covers, product_log, op_mul-Records, op_mul-Fits,
}
use reverie_ppr.Replay.Step.{records_reconstruct}

module _ ⦃c : StreamCipher⦄ ⦃b : Blake3⦄ (D : Domain) (L : Lanes D) (i j : Fin packed)
    (o : Fin players) where
  module _ {A A' : Type 0} (R : A → A' → Type 0) (result : A × ProverTranscript D) where
    -- The verifier has a fitting value and transcript, and what the prover records later.
    pub record Echoed (l : Log D) (result' : A' × OnlineTranscript D) : Type 0 where
      pub value : R result.0 result'.0
      pub agrees : Agrees D L i j o result.1 result'.1
      pub covers : Covers D L i j o l result'.1

    pub record Echoes {X : Type 0} (t : ProverTranscript D) (Fits : X → Type 0)
        (act : X → OnlineTranscript D → A' × OnlineTranscript D) : Type 0 where
      pub said : Log D
      pub records : Records D t result.1 said
      pub keeps : TranscriptIsValid D L t → TranscriptIsValid D L result.1
      pub echo :
          (x : X)
          → Fits x
          → (t' : OnlineTranscript D) (l : Log D) → Agrees D L i j o t t'
          → Covers D L i j o (join D said l) t'
          → Echoed l (act x t')

  pub op_mul-Echoes :
      (t : ProverTranscript D) (w v : Wire D)
      → Echoes
          (WireFits D L i j o)
          (op_mul D (prover D) t w v)
          {X = Wire D × Wire D}
          t
          (λ x. WireFits D L i j o w x.0 × WireFits D L i j o v x.1)
          (λ x t'. op_mul D (online D) t' x.0 x.1)
  op_mul-Echoes t w v = record {
    said = product_log D t w v;
    records = op_mul-Records D t w v;
    keeps = λ valid.
        op_mul-TranscriptIsValid D L (record { transcript = t; wires = [] })
          (record { wires = tt; transcript = valid }) w v;
    echo = λ x fits t' l agrees covers.
        let (value, agrees', covers') =
          op_mul-Fits D L i j o t t' w x.0 v x.1 agrees fits.0 fits.1 l covers in
        record { value = value; agrees = agrees'; covers = covers' };
  }

  pub new_mask-Echoes :
      (t : ProverTranscript D)
      → Echoes
          (ShareFits D L i j o)
          (Prover.new_mask D t)
          {X = Unit {0}}
          t
          (λ _. Unit {0})
          (λ _ t'. Online.new_mask D t')
  unfolding Prover.new_mask Online.new_mask
  new_mask-Echoes t = record {
    said = nothing D;
    records = record {
      recons = sym (append-nil _);
      corrs = sym (append-nil _);
      inputs = sym (append-nil _);
      seeds = refl;
    };
    keeps = λ valid. record {
      witness = valid.witness;
      corrections = valid.corrections;
      inputs = valid.inputs;
    };
    echo = λ _ _ t' l agrees covers.
        let (fits, agrees') = new_mask-Fits D L i j o t t' agrees in
        record {
          value = fits;
          agrees = agrees';
          covers = record { recons = covers.recons; corrs = covers.corrs; inputs = covers.inputs };
        };
  }

  pub reconstruct-Echoes :
      (t : ProverTranscript D) (s : D.Share)
      → Echoes
          (ReconFits D L i j o)
          (Prover.reconstruct D t s)
          t
          (ShareFits D L i j o s)
          (λ s' t'. Online.reconstruct D t' s')
  unfolding Prover.reconstruct
  reconstruct-Echoes t s = record {
    said = record { recons = s ∷ []; corrs = []; inputs = [] };
    records = records_reconstruct D t s;
    keeps = λ valid. record {
      witness = valid.witness;
      corrections = valid.corrections;
      inputs = valid.inputs;
    };
    echo = λ s' fits t' l agrees covers.
        let (value, agrees', recons, corrs, inputs) =
          reconstruct-Fits D L i j o t t' agrees s s' l.recons fits covers.recons in
        record {
          value = value;
          agrees = agrees';
          covers = record {
            recons = recons;
            corrs = subst (Feeds (ReconFits D L i j o) l.corrs) (sym corrs) covers.corrs;
            inputs = subst (Feeds (ReconFits D L i j o) l.inputs) (sym inputs) covers.inputs;
          };
        };
  }

  -- The verifier's own argument means nothing.
  pub correction-Echoes :
      (t : ProverTranscript D) (x : D.Recon)
      → L.IsValid x
      → Echoes
          (ReconFits D L i j o)
          (Prover.correction D t x)
          {X = D.Recon}
          t
          (λ _. Unit {0})
          (λ x' t'. Online.correction D t' x')
  unfolding Prover.correction
  correction-Echoes t x v = record {
    said = record { recons = []; corrs = x ∷ []; inputs = [] };
    records = record {
      recons = sym (append-nil _);
      corrs = refl;
      inputs = sym (append-nil _);
      seeds = refl;
    };
    keeps = λ valid. record {
      witness = valid.witness;
      corrections = All-snoc L.IsValid t.corrections x valid.corrections v;
      inputs = valid.inputs;
    };
    echo = λ x' _ t' l agrees covers.
        let (value, agrees', corrs, recons, inputs) =
          correction-Fits D L i j o t t' agrees x x' l.corrs v covers.corrs in
        record {
          value = value;
          agrees = agrees';
          covers = record {
            recons = subst (Feeds (MessageFits D L i j o) l.recons) (sym recons) covers.recons;
            corrs = corrs;
            inputs = subst (Feeds (ReconFits D L i j o) l.inputs) (sym inputs) covers.inputs;
          };
        };
  }
