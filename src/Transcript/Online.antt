-- ===== src/Transcript/Online.antt =====
-- transcript/verifier/online.rs: the transcript that replays the opened online phases.
use reverie_ppr.Prelude.{ℕ, List, [], ◌∷◌, Bool, true, ◌&&◌, Array, Outcome, ok, ◌>>=◌}
use reverie_ppr.Crypto.{StreamCipher, Blake3, Key}
use reverie_ppr.Crypto.Hash.{PackedHasher, packed_new, packed_finalize}
use reverie_ppr.Algebra.{Domain, players, packed}
use reverie_ppr.Generator.{ShareGen, next, share_gen_new}
use reverie_ppr.Transcript.{Wire, Transcript}

-- `proof::OpenOnline`
pub record OpenOnline : Type 0 where
  pub omit : ℕ
  pub seeds : Array Key players
  pub recons : List ℕ
  pub corrs : List ℕ
  pub inputs : List ℕ

module _ ⦃c : StreamCipher⦄ ⦃b : Blake3⦄ (D : Domain) where
  -- `VerifierTranscriptOnline`; the iterators are the lists of what they have left.
  pub record OnlineTranscript : Type 0 where
    pub share_gen : ShareGen D
    pub hash_online : PackedHasher
    pub hash_preprocess : PackedHasher
    pub recons : List D.Share
    pub corrs : List D.Recon
    pub inputs : List D.Recon
    pub okay : Bool

  -- `iter.next().unwrap_or_default()`, with what the iterator has left.
  abbrev pub next_or : {A : Type 0} → A → List A → A × List A
  next_or d [] = (d, [])
  next_or d (x ∷ xs) = (x, xs)

  -- `VerifierTranscriptOnline::new`: the openings are deserialised, and the generator gets the
  -- keys of the opened players.
  unfoldable pub online_new : Array OpenOnline packed → Outcome OnlineTranscript
  unfolding packed_new share_gen_new
  online_new proofs = do
    corrs ← D.unpack [] (λ r. (proofs r).corrs)
    inputs ← D.unpack [] (λ r. (proofs r).inputs)
    recons ← D.unpack_selected [] (λ r. (proofs r).recons) (λ r. (proofs r).omit)
    ok (record {
      share_gen = share_gen_new D (λ r. (proofs r).seeds) (λ r. (proofs r).omit);
      hash_online = packed_new;
      hash_preprocess = packed_new;
      recons = recons;
      corrs = corrs;
      inputs = inputs;
      okay = true;
    })

  unfoldable pub input : OnlineTranscript → Outcome (Wire D × OnlineTranscript)
  input t =
      let (corr, inputs) = next_or D.recon_zero t.inputs in
      let (mask, share_gen) = next D t.share_gen in
      ok (
        record { mask = mask; corr = corr },
        record t {
          share_gen = share_gen;
          hash_online = D.recon_hash corr t.hash_online;
          inputs = inputs;
        },
      )

  unfoldable pub reconstruct : OnlineTranscript → D.Share → D.Recon × OnlineTranscript
  reconstruct t mask =
      let (msg, recons) = next_or D.share_zero t.recons in
      let whole = D.share_add mask msg in
      (
        D.reconstruct whole,
        record t { hash_online = D.share_hash whole t.hash_online; recons = recons },
      )

  unfoldable pub correction : OnlineTranscript → D.Recon → D.Recon × OnlineTranscript
  correction t _ =
      let (corr, corrs) = next_or D.recon_zero t.corrs in
      (corr, record t { hash_preprocess = D.recon_hash corr t.hash_preprocess; corrs = corrs })

  unfoldable pub zero_check : OnlineTranscript → D.Recon → Outcome OnlineTranscript
  zero_check t recon = ok (record t { okay = t.okay && D.recon_is_zero recon })

  unfoldable pub new_mask : OnlineTranscript → D.Share × OnlineTranscript
  new_mask t =
      let (mask, share_gen) = next D t.share_gen in (mask, record t { share_gen = share_gen })

  abbrev pub online : Transcript D OnlineTranscript
  online = record {
    input = input;
    reconstruct = reconstruct;
    correction = correction;
    zero_check = zero_check;
    new_mask = new_mask;
    online_hash = λ t. packed_finalize t.hash_online;
    preprocess_hash = λ t. packed_finalize t.hash_preprocess;
  }
