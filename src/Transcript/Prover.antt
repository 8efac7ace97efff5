-- ===== src/Transcript/Prover.antt =====
-- transcript/prover.rs: the prover's transcript, which records what it will open.
use reverie_ppr.Prelude.{
  List, [], ◌∷◌, ◌++◌, Array, Outcome, ok, panic, witness_too_short, witness_invalid, if◌then◌else◌,
}
use reverie_ppr.Crypto.{StreamCipher, Blake3, Key}
use reverie_ppr.Crypto.Hash.{PackedHasher, packed_new, packed_finalize}
use reverie_ppr.Algebra.{Domain, packed}
use reverie_ppr.Generator.{ShareGen, next}
use reverie_ppr.Transcript.{Wire, Transcript}
use reverie_ppr.Transcript.Seeds.{share_gen_from_rep_seeds}

module _ ⦃c : StreamCipher⦄ ⦃b : Blake3⦄ (D : Domain) where
  -- `ProverTranscript`; the iterator over the witness is the list of what it has left.
  pub record ProverTranscript : Type 0 where
    pub seeds : Array Key packed
    pub witness : List D.Recon
    pub share_gen : ShareGen D
    pub hash_online : PackedHasher
    pub hash_preprocess : PackedHasher
    pub reconstructions : List D.Share
    pub corrections : List D.Recon
    pub inputs : List D.Recon

  unfoldable pub prover_new : List D.Recon → Array Key packed → ProverTranscript
  unfolding packed_new share_gen_from_rep_seeds
  prover_new witness seeds = record {
    seeds = seeds;
    witness = witness;
    share_gen = share_gen_from_rep_seeds D seeds;
    hash_online = packed_new;
    hash_preprocess = packed_new;
    reconstructions = [];
    corrections = [];
    inputs = [];
  }

  -- `input` once the witness is known not to be exhausted.
  unfoldable pub record_input :
      ProverTranscript → D.Recon → List D.Recon → Wire D × ProverTranscript
  record_input t value witness =
      let (mask, share_gen) = next D t.share_gen in
      let corr = D.recon_sub value (D.reconstruct mask) in
      (
        record { mask = mask; corr = corr },
        record t {
          witness = witness;
          share_gen = share_gen;
          hash_online = D.recon_hash corr t.hash_online;
          inputs = t.inputs ++ corr ∷ [];
        },
      )

  unfoldable pub input_from : ProverTranscript → List D.Recon → Outcome (Wire D × ProverTranscript)
  unfolding record_input
  input_from t [] = panic witness_too_short
  input_from t (value ∷ witness) = ok (record_input t value witness)

  unfoldable pub input : ProverTranscript → Outcome (Wire D × ProverTranscript)
  unfolding input_from
  input t = input_from t t.witness

  unfoldable pub reconstruct : ProverTranscript → D.Share → D.Recon × ProverTranscript
  reconstruct t mask = (
    D.reconstruct mask,
    record t {
      hash_online = D.share_hash mask t.hash_online;
      reconstructions = t.reconstructions ++ mask ∷ [];
    },
  )

  unfoldable pub correction : ProverTranscript → D.Recon → D.Recon × ProverTranscript
  correction t corr = (
    corr,
    record t {
      hash_preprocess = D.recon_hash corr t.hash_preprocess;
      corrections = t.corrections ++ corr ∷ [];
    },
  )

  unfoldable pub zero_check : ProverTranscript → D.Recon → Outcome ProverTranscript
  zero_check t recon = if D.recon_is_zero recon then ok t else panic witness_invalid

  unfoldable pub new_mask : ProverTranscript → D.Share × ProverTranscript
  new_mask t =
      let (mask, share_gen) = next D t.share_gen in (mask, record t { share_gen = share_gen })

  abbrev pub prover : Transcript D ProverTranscript
  prover = record {
    input = input;
    reconstruct = reconstruct;
    correction = correction;
    zero_check = zero_check;
    new_mask = new_mask;
    online_hash = λ t. packed_finalize t.hash_online;
    preprocess_hash = λ t. packed_finalize t.hash_preprocess;
  }
