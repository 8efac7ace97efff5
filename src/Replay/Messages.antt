-- ===== src/Replay/Messages.antt =====
-- The transcripts' methods keep agreeing, and the verifier consumes what the prover records.
use reverie_ppr.Prelude.{
  Feeds, Feeds-cons, ◌≡◌, refl, sym, ap, ap₂, ◌∙◌, fun_ext, Fin, same, Bool, true, false,
  if◌then◌else◌, List, ◌∷◌, ok,
}
use reverie_ppr.Ring.{add-zero}
use reverie_ppr.Ring.Sum.{total}
use reverie_ppr.Crypto.{StreamCipher, Blake3}
use reverie_ppr.Algebra.{Domain, Lanes, players, packed}
use reverie_ppr.Generator.{next}
use reverie_ppr.Generator.Omit.{next-Matches}
use reverie_ppr.Transcript.{Wire}
use reverie_ppr.Transcript.Prover
use reverie_ppr.Transcript.Prover.{ProverTranscript}
use reverie_ppr.Transcript.Online
use reverie_ppr.Transcript.Online.{OnlineTranscript}
use reverie_ppr.Replay.{ShareFits, MessageFits, ReconFits, WireFits, Agrees}

module _ ⦃c : StreamCipher⦄ ⦃b : Blake3⦄ (D : Domain) (L : Lanes D) (i j : Fin packed)
    (o : Fin players) (t : ProverTranscript D) (t' : OnlineTranscript D)
    (agree : Agrees D L i j o t t') where
  open L use {Lane, share_lane, recon_lane}

  pub new_mask-Fits :
      ShareFits D L i j o (Prover.new_mask D t).0 (Online.new_mask D t').0
      × Agrees D L i j o (Prover.new_mask D t).1 (Online.new_mask D t').1
  unfolding Prover.new_mask Online.new_mask
  new_mask-Fits =
      let (fits, gens) = next-Matches D L i j o t.share_gen t'.share_gen agree.gens in
      (fits, record { gens = gens; online = agree.online; preprocess = agree.preprocess })

  -- What the opened players and the proof say of a share is all of it.
  whole :
      (test : Bool) (x : Lane)
      → L.ring.add (if test then L.ring.zero else x) (if test then x else L.ring.zero) ≡ x
  whole true x = L.ring.zero-add x
  whole false x = add-zero ⦃s = L.ring⦄ x

  whole_share :
      (s s' msg : D.Share)
      → ShareFits D L i j o s s'
      → MessageFits D L i j o s msg
      → share_lane (D.share_add s' msg) j ≡ share_lane s i
  whole_share s s' msg h k = fun_ext λ p.
      L.share_add-lane s' msg j p
      ∙ ap₂ L.ring.add (λ e. h e p) (λ e. k e p)
      ∙ whole (same p o) (share_lane s i p)

  -- `reconstruct`: the same value in the lane, and the same bytes hashed.
  pub reconstruct-Fits :
      (s s' : D.Share) (rest : List D.Share)
      → ShareFits D L i j o s s'
      → Feeds (MessageFits D L i j o) (s ∷ rest) t'.recons
      → ReconFits D L i j o (Prover.reconstruct D t s).0 (Online.reconstruct D t' s').0
        × Agrees D L i j o (Prover.reconstruct D t s).1 (Online.reconstruct D t' s').1
        × Feeds (MessageFits D L i j o) rest (Online.reconstruct D t' s').1.recons
        × ((Online.reconstruct D t' s').1.corrs ≡ t'.corrs)
        × ((Online.reconstruct D t' s').1.inputs ≡ t'.inputs)
  unfolding Prover.reconstruct Online.reconstruct
  reconstruct-Fits s s' rest h feeds =
      let (msg, left, e, fits, more) = Feeds-cons (MessageFits D L i j o) s rest t'.recons feeds in
      rw e (
        record {
          lane =
              L.reconstruct-lane _ j
              ∙ ap (total ⦃r = L.ring⦄ players) (whole_share s s' msg h fits)
              ∙ sym (L.reconstruct-lane s i);
          valid = L.reconstruct-IsValid _;
          valid' = L.reconstruct-IsValid _;
        },
        record {
          gens = agree.gens;
          online =
              L.share_hash-lane _ t'.hash_online j
              ∙ ap₂ b.update agree.online (ap L.share_bytes (whole_share s s' msg h fits))
              ∙ sym (L.share_hash-lane s t.hash_online i);
          preprocess = agree.preprocess;
        },
        more,
        refl,
        refl,
      )

  pub correction-Fits :
      (x x' : D.Recon) (rest : List D.Recon)
      → L.IsValid x
      → Feeds (ReconFits D L i j o) (x ∷ rest) t'.corrs
      → ReconFits D L i j o (Prover.correction D t x).0 (Online.correction D t' x').0
        × Agrees D L i j o (Prover.correction D t x).1 (Online.correction D t' x').1
        × Feeds (ReconFits D L i j o) rest (Online.correction D t' x').1.corrs
        × ((Online.correction D t' x').1.recons ≡ t'.recons)
        × ((Online.correction D t' x').1.inputs ≡ t'.inputs)
  unfolding Prover.correction Online.correction
  correction-Fits x x' rest valid feeds =
      let (y, left, e, fits, more) = Feeds-cons (ReconFits D L i j o) x rest t'.corrs feeds in
      rw e (
        fits,
        record {
          gens = agree.gens;
          online = agree.online;
          preprocess =
              L.recon_hash-lane y t'.hash_preprocess j fits.valid'
              ∙ ap₂ b.update agree.preprocess (ap L.recon_bytes fits.lane)
              ∙ sym (L.recon_hash-lane x t.hash_preprocess i valid);
        },
        more,
        refl,
        refl,
      )

  pub input-Fits :
      (value : D.Recon) (witness rest : List D.Recon)
      → Feeds
          (ReconFits D L i j o)
          ((Prover.record_input D t value witness).0.corr ∷ rest)
          t'.inputs
      → (w' : Wire D) × (u' : OnlineTranscript D) × (Online.input D t' ≡ ok (w', u'))
        × WireFits D L i j o (Prover.record_input D t value witness).0 w'
        × Agrees D L i j o (Prover.record_input D t value witness).1 u'
        × Feeds (ReconFits D L i j o) rest u'.inputs
        × (u'.recons ≡ t'.recons)
        × (u'.corrs ≡ t'.corrs)
  unfolding Prover.record_input Online.input
  input-Fits value witness rest feeds =
      let corr = D.recon_sub value (D.reconstruct (next D t.share_gen).0) in
      let (y, left, e, fits, more) = Feeds-cons (ReconFits D L i j o) corr rest t'.inputs feeds in
      let (mask, gens) = next-Matches D L i j o t.share_gen t'.share_gen agree.gens in
      (
        record { mask = (next D t'.share_gen).0; corr = y },
        record t' {
          share_gen = (next D t'.share_gen).1;
          hash_online = D.recon_hash y t'.hash_online;
          inputs = left;
        },
        rw e,
        record { mask = mask; corr = fits },
        record {
          gens = gens;
          online =
              L.recon_hash-lane y t'.hash_online j fits.valid'
              ∙ ap₂ b.update agree.online (ap L.recon_bytes fits.lane)
              ∙ sym (L.recon_hash-lane corr t.hash_online i fits.valid);
          preprocess = agree.preprocess;
        },
        more,
        refl,
        refl,
      )
