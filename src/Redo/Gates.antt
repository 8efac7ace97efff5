-- ===== src/Redo/Gates.antt =====
-- The masks of each gate, and the corrections of a product.
use reverie_ppr.Prelude.{◌≡◌, sym, ◌∙◌, ap, ap₂, fun_ext, Fin, Array}
use reverie_ppr.Ring.Sum.{total}
use reverie_ppr.Crypto.{StreamCipher, Blake3}
use reverie_ppr.Algebra.{Domain, Lanes, players, packed}
use reverie_ppr.Generator.Redo.{SameShare, next-Redoes}
use reverie_ppr.Transcript.{Wire}
use reverie_ppr.Transcript.Prover
use reverie_ppr.Transcript.Prover.{ProverTranscript, prover}
use reverie_ppr.Transcript.Preprocess
use reverie_ppr.Transcript.Preprocess.{PreprocessTranscript, preprocess}
use reverie_ppr.Interpreter.Single.{op_mul}
use reverie_ppr.Redo.{SameMask, Follows}

module _ ⦃c : StreamCipher⦄ ⦃b : Blake3⦄ (D : Domain) (L : Lanes D) (i j : Fin packed) where
  module _ (s t s' t' : D.Share) (h : SameShare D L i j s s') (k : SameShare D L i j t t') where
    pub share_add-Same : SameShare D L i j (D.share_add s t) (D.share_add s' t')
    share_add-Same = fun_ext λ p.
        L.share_add-lane s' t' j p
        ∙ ap₂ L.ring.add (λ e. h e p) (λ e. k e p)
        ∙ sym (L.share_add-lane s t i p)

    pub share_sub-Same : SameShare D L i j (D.share_sub s t) (D.share_sub s' t')
    share_sub-Same = fun_ext λ p.
        L.share_sub-lane s' t' j p
        ∙ ap₂ L.ring.sub (λ e. h e p) (λ e. k e p)
        ∙ sym (L.share_sub-lane s t i p)

  pub share_mul-Same :
      (s s' : D.Share) (k : D.Const)
      → SameShare D L i j s s'
      → SameShare D L i j (D.share_mul s (D.into k)) (D.share_mul s' (D.into k))
  share_mul-Same s s' k h = fun_ext λ p.
      L.share_mul-lane s' (D.into k) (L.into-IsValid k) j p
      ∙ ap₂ L.ring.mul (λ e. h e p) (L.into-lane k j ∙ sym (L.into-lane k i))
      ∙ sym (L.share_mul-lane s (D.into k) (L.into-IsValid k) i p)

  pub share_zero-Same : SameShare D L i j D.share_zero D.share_zero
  share_zero-Same = fun_ext λ p. L.share_zero-lane j p ∙ sym (L.share_zero-lane i p)

  pub reconstruct-lanes :
      (s s' : D.Share)
      → SameShare D L i j s s'
      → L.recon_lane (D.reconstruct s') j ≡ L.recon_lane (D.reconstruct s) i
  reconstruct-lanes s s' h =
      L.reconstruct-lane s' j ∙ ap (total ⦃r = L.ring⦄ players) h ∙ sym (L.reconstruct-lane s i)

  -- The correction of a product is made of masks alone.
  abbrev delta : D.Share → D.Share → D.Share → D.Recon
  delta a d ab = D.recon_sub (D.recon_mul (D.reconstruct a) (D.reconstruct d)) (D.reconstruct ab)

  delta-IsValid : (a d ab : D.Share) → L.IsValid (delta a d ab)
  delta-IsValid a d ab =
      L.recon_sub-IsValid _ _
        (L.recon_mul-IsValid _ _ (L.reconstruct-IsValid a) (L.reconstruct-IsValid d))
        (L.reconstruct-IsValid ab)

  delta-lanes :
      (a d ab a' d' ab' : D.Share)
      → SameShare D L i j a a'
      → SameShare D L i j d d'
      → SameShare D L i j ab ab'
      → L.recon_lane (delta a' d' ab') j ≡ L.recon_lane (delta a d ab) i
  delta-lanes a d ab a' d' ab' f g h =
      L.recon_sub-lane _ _ j
      ∙ ap₂ L.ring.sub
          (L.recon_mul-lane _ _ j
            ∙ ap₂ L.ring.mul (reconstruct-lanes a a' f) (reconstruct-lanes d d' g)
            ∙ sym (L.recon_mul-lane _ _ i))
          (reconstruct-lanes ab ab' h)
      ∙ sym (L.recon_sub-lane _ _ i)

  module _ (comms : Array b.Digest packed) (t : ProverTranscript D) (t' : PreprocessTranscript D)
      (m : Follows D L i j comms t t') where
    pub new_mask-Follows :
        SameShare D L i j (Prover.new_mask D t).0 (Preprocess.new_mask D t').0
        × Follows D L i j comms (Prover.new_mask D t).1 (Preprocess.new_mask D t').1
    unfolding Prover.new_mask Preprocess.new_mask
    new_mask-Follows =
        let (mask, gens) = next-Redoes D L i j t.share_gen t'.share_gen m.gens in
        (mask, record { gens = gens; preprocess = m.preprocess; kept = m.kept })

    pub correction-Follows :
        (x x' : D.Recon)
        → L.IsValid x
        → L.IsValid x'
        → L.recon_lane x' j ≡ L.recon_lane x i
        → Follows D L i j comms (Prover.correction D t x).1 (Preprocess.correction D t' x').1
    unfolding Prover.correction Preprocess.correction
    correction-Follows x x' v v' e = record {
      gens = m.gens;
      preprocess =
          L.recon_hash-lane x' t'.hash_preprocess j v'
          ∙ ap₂ b.update m.preprocess (ap L.recon_bytes e)
          ∙ sym (L.recon_hash-lane x t.hash_preprocess i v);
      kept = m.kept;
    }

    -- What the prover reconstructs online leaves its masks and its preprocessing hash alone.
    pub reconstruct-Follows : (s : D.Share) → Follows D L i j comms (Prover.reconstruct D t s).1 t'
    unfolding Prover.reconstruct
    reconstruct-Follows s = record { gens = m.gens; preprocess = m.preprocess; kept = m.kept }

  pub op_mul-Follows :
      (comms : Array b.Digest packed) (t : ProverTranscript D) (t' : PreprocessTranscript D)
      (w v w' v' : Wire D)
      → Follows D L i j comms t t'
      → SameMask D L i j comms w w'
      → SameMask D L i j comms v v'
      → SameMask D L i j comms (op_mul D (prover D) t w v).0 (op_mul D (preprocess D) t' w' v').0
        × Follows D L i j comms (op_mul D (prover D) t w v).1 (op_mul D (preprocess D) t' w' v').1
  unfolding op_mul Preprocess.reconstruct
  op_mul-Follows comms t t' w v w' v' m f g =
      let (ab, m1) = new_mask-Follows comms t t' m in
      let (new, m2) = new_mask-Follows comms _ _ m1 in
      (
        record { mask = new },
        reconstruct-Follows comms _ _
            (correction-Follows comms _ _ m2 _ _ (delta-IsValid _ _ _) (delta-IsValid _ _ _)
              (delta-lanes _ _ _ _ _ _ f.mask g.mask ab))
            _,
      )
