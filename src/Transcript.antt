-- ===== src/Transcript.antt =====
-- transcript/mod.rs: the interface between the circuit interpreter and the three transcripts.
pub mod Seeds
pub mod Prover
pub mod Online
pub mod Preprocess
pub mod Extract
use reverie_ppr.Prelude.{Bool, Array, Outcome, List, ◌++◌}
use reverie_ppr.Crypto.{StreamCipher, Blake3}
use reverie_ppr.Crypto.Hash.{hasher_new, update, finalize}
use reverie_ppr.Algebra.{Domain, packed}

module _ ⦃c : StreamCipher⦄ ⦃b : Blake3⦄ where
  -- `Wire<D>`: shares of a mask, and the public correction.
  pub record Wire (D : Domain) : Type 0 where
    pub mask : D.Share
    pub corr : D.Recon

  -- The trait `Transcript<D>`; each method returns the transcript after it.
  pub record Transcript (D : Domain) (T : Type 0) : Type 0 where
    pub input : T → Outcome (Wire D × T)
    pub reconstruct : T → D.Share → D.Recon × T
    pub correction : T → D.Recon → D.Recon × T
    pub zero_check : T → D.Recon → Outcome T
    pub new_mask : T → D.Share × T
    pub online_hash : T → Array b.Digest packed
    pub preprocess_hash : T → Array b.Digest packed

  -- `hash_join`
  unfoldable pub hash_join : b.Digest → b.Digest → b.Digest
  unfolding hasher_new update finalize
  hash_join preprocess online =
      finalize (update (update hasher_new (b.as_bytes preprocess)) (b.as_bytes online))

  -- The provided method `hash`.
  unfoldable pub transcript_hash :
      {D : Domain} {T : Type 0} → Transcript D T → T → Array b.Digest packed
  unfolding hash_join
  transcript_hash tr t i = hash_join (tr.preprocess_hash t i) (tr.online_hash t i)
