-- ===== src/Replay.antt =====
-- transcript/verifier/online.rs against transcript/prover.rs: what a verifier's repetition `j`
-- knows of the prover's repetition `i` when player `o` is not opened, as relations.
pub mod Gates
pub mod Messages
pub mod Product
pub mod Machine
pub mod Wired
pub mod Step
pub mod Run
pub mod Start
pub mod Opening
pub mod Combine
use reverie_ppr.Prelude.{
  ℕ, ◌≡◌, refl, sym, ap, List, [], ◌∷◌, Fin, Array, same, Bool, true, false, if◌then◌else◌,
}
use reverie_ppr.Crypto.{StreamCipher, Blake3}
use reverie_ppr.Crypto.Hash.{absorbed}
use reverie_ppr.Algebra.{Domain, Lanes, players, packed}
use reverie_ppr.Generator.Omit.{hide, Matches}
use reverie_ppr.Transcript.{Wire}
use reverie_ppr.Transcript.Prover.{ProverTranscript}
use reverie_ppr.Transcript.Online.{OnlineTranscript}

module _ ⦃c : StreamCipher⦄ ⦃b : Blake3⦄ (D : Domain) (L : Lanes D) (i j : Fin packed)
    (o : Fin players) where
  -- The verifier's share is the prover's without the part of the omitted player.
  abbrev pub ShareFits : D.Share → D.Share → Type 0
  ShareFits s s' = L.share_lane s' j ≡ hide D L i j o (L.share_lane s i)

  -- The omitted player's part alone, which the proof carries.
  abbrev pub only : Array L.Lane players → Array L.Lane players
  only a p = if same p o then a p else L.ring.zero

  abbrev pub MessageFits : D.Share → D.Share → Type 0
  MessageFits s msg = L.share_lane msg j ≡ only (L.share_lane s i)

  pub record ReconFits (x x' : D.Recon) : Type 0 where
    pub lane : L.recon_lane x' j ≡ L.recon_lane x i
    pub valid : L.IsValid x
    pub valid' : L.IsValid x'

  pub record WireFits (w w' : Wire D) : Type 0 where
    pub mask : ShareFits w.mask w'.mask
    pub corr : ReconFits w.corr w'.corr

  -- Both transcripts have generated and hashed the same, as far as the repetition goes.
  pub record Agrees (t : ProverTranscript D) (t' : OnlineTranscript D) : Type 0 where
    pub gens : Matches D L i j o t.share_gen t'.share_gen
    pub online : absorbed (t'.hash_online j) ≡ absorbed (t.hash_online i)
    pub preprocess : absorbed (t'.hash_preprocess j) ≡ absorbed (t.hash_preprocess i)
