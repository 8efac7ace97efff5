-- ===== src/Transcript/Extract.antt =====
-- transcript/prover.rs, `extract`: what the prover opens of its repetitions.
use reverie_ppr.Prelude.{ℕ, List, [], ◌∷◌, Fin, Array, Bool, ltb, ◌==◌, if◌then◌else◌, val}
use reverie_ppr.Crypto.{StreamCipher, Blake3}
use reverie_ppr.Crypto.Hash.{finalize}
use reverie_ppr.Algebra.{Domain, players, packed}
use reverie_ppr.Transcript.Seeds.{expand_seed}
use reverie_ppr.Transcript.Prover.{ProverTranscript}
use reverie_ppr.Transcript.Online.{OpenOnline}
use reverie_ppr.Transcript.Preprocess.{OpenPreprocessing}

module _ ⦃c : StreamCipher⦄ ⦃b : Blake3⦄ (D : Domain) where
  -- The opening that is pushed for a repetition whose omitted player is one of the players.
  unfoldable pub opening : ProverTranscript D → Array ℕ packed → Fin packed → OpenOnline
  opening t omits rep =
      let selected : Array Bool packed = λ i. ltb (omits i) players in
      record {
        omit = omits rep;
        seeds = λ p. if val p == omits rep then (λ _. 0) else expand_seed (t.seeds rep) p;
        recons = D.pack_selected (λ _. []) t.reconstructions omits rep;
        corrs = D.pack (λ _. []) t.corrections selected rep;
        inputs = D.pack (λ _. []) t.inputs selected rep;
      }

  unfoldable pub preprocessing_opening : ProverTranscript D → Fin packed → OpenPreprocessing
  preprocessing_opening t rep = record {
    seed = t.seeds rep;
    comm_online = finalize (t.hash_online rep);
  }

  -- `for rep in 0..PACKED`
  unfoldable pub extract_loop :
      (n : ℕ)
      → Array ℕ n
      → Array OpenOnline n
      → Array OpenPreprocessing n
      → List OpenOnline × List OpenPreprocessing
  extract_loop ℕ.zero omits online preprocessing = ([], [])
  extract_loop (ℕ.suc n) omits online preprocessing =
      let (on, pre) =
        extract_loop n (λ i. omits (Fin.suc i)) (λ i. online (Fin.suc i))
          (λ i. preprocessing (Fin.suc i)) in
      if ltb (omits Fin.zero) players
      then (online Fin.zero ∷ on, pre)
      else (on, preprocessing Fin.zero ∷ pre)

  unfoldable pub extract :
      ProverTranscript D → Array ℕ packed → List OpenOnline × List OpenPreprocessing
  unfolding extract_loop opening preprocessing_opening
  extract t omits = extract_loop packed omits (opening t omits) (preprocessing_opening t)
