-- ===== src/Transcript/Preprocess.antt =====
-- transcript/verifier/preprocess.rs: the transcript that redoes the preprocessing alone.
use reverie_ppr.Prelude.{Array, Outcome, ok}
use reverie_ppr.Crypto.{StreamCipher, Blake3, Key}
use reverie_ppr.Crypto.Hash.{PackedHasher, packed_new, packed_finalize}
use reverie_ppr.Algebra.{Domain, packed}
use reverie_ppr.Generator.{ShareGen, next}
use reverie_ppr.Transcript.{Wire, Transcript}
use reverie_ppr.Transcript.Seeds.{share_gen_from_rep_seeds}

-- `proof::OpenPreprocessing`
pub record OpenPreprocessing ⦃b : Blake3⦄ : Type 0 where
  pub seed : Key
  pub comm_online : b.Digest

module _ ⦃c : StreamCipher⦄ ⦃b : Blake3⦄ (D : Domain) where
  pub record PreprocessTranscript : Type 0 where
    pub share_gen : ShareGen D
    pub comms_online : Array b.Digest packed
    pub hash_preprocess : PackedHasher

  -- `VerifierTranscriptPreprocess::new`
  unfoldable pub preprocess_new : Array OpenPreprocessing packed → PreprocessTranscript
  unfolding packed_new share_gen_from_rep_seeds
  preprocess_new proofs = record {
    share_gen = share_gen_from_rep_seeds D (λ r. (proofs r).seed);
    comms_online = λ r. (proofs r).comm_online;
    hash_preprocess = packed_new;
  }

  unfoldable pub input : PreprocessTranscript → Outcome (Wire D × PreprocessTranscript)
  input t =
      let (mask, share_gen) = next D t.share_gen in
      ok (record { mask = mask; corr = D.recon_zero }, record t { share_gen = share_gen })

  unfoldable pub reconstruct : PreprocessTranscript → D.Share → D.Recon × PreprocessTranscript
  reconstruct t _ = (D.recon_zero, t)

  unfoldable pub correction : PreprocessTranscript → D.Recon → D.Recon × PreprocessTranscript
  correction t corr = (corr, record t { hash_preprocess = D.recon_hash corr t.hash_preprocess })

  unfoldable pub zero_check : PreprocessTranscript → D.Recon → Outcome PreprocessTranscript
  zero_check t _ = ok t

  unfoldable pub new_mask : PreprocessTranscript → D.Share × PreprocessTranscript
  new_mask t =
      let (mask, share_gen) = next D t.share_gen in (mask, record t { share_gen = share_gen })

  abbrev pub preprocess : Transcript D PreprocessTranscript
  preprocess = record {
    input = input;
    reconstruct = reconstruct;
    correction = correction;
    zero_check = zero_check;
    new_mask = new_mask;
    online_hash = λ t. t.comms_online;
    preprocess_hash = λ t. packed_finalize t.hash_preprocess;
  }
