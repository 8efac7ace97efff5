-- ===== src/Redo.antt =====
-- transcript/verifier/preprocess.rs against transcript/prover.rs: a verifier that is given the
-- seed of the prover's repetition `i` at its repetition `j` redoes the masks and corrections.
pub mod Gates
pub mod Step
pub mod Run
pub mod Combine
use reverie_ppr.Prelude.{◌≡◌, Fin, Array, AllPairs, Outcome, ok}
use reverie_ppr.Crypto.{StreamCipher, Blake3}
use reverie_ppr.Crypto.Hash.{absorbed}
use reverie_ppr.Algebra.{Domain, Lanes, packed}
use reverie_ppr.Generator.Redo.{SameShare, Redoes}
use reverie_ppr.Transcript.{Wire}
use reverie_ppr.Transcript.Prover.{ProverTranscript}
use reverie_ppr.Transcript.Preprocess.{PreprocessTranscript}
use reverie_ppr.Interpreter.Single.{Instance}
use reverie_ppr.Interpreter.Single.Prover.{Machine}

module _ ⦃c : StreamCipher⦄ ⦃b : Blake3⦄ (D : Domain) where
  abbrev pub PreprocessMachine : Type 0
  PreprocessMachine = Instance D (PreprocessTranscript D)

  module _ (L : Lanes D) (i j : Fin packed) (comms : Array b.Digest packed) where
    -- The masks are the same; the corrections of the verifier's wires mean nothing.
    pub record SameMask (w w' : Wire D) : Type 0 where
      pub mask : SameShare D L i j w.mask w'.mask

    pub record Follows (t : ProverTranscript D) (t' : PreprocessTranscript D) : Type 0 where
      pub gens : Redoes D L i j t.share_gen t'.share_gen
      pub preprocess : absorbed (t'.hash_preprocess j) ≡ absorbed (t.hash_preprocess i)
      pub kept : t'.comms_online ≡ comms

    pub record MachineFollows (s : Machine D) (s' : PreprocessMachine) : Type 0 where
      pub transcript : Follows s.transcript s'.transcript
      pub wires : AllPairs SameMask s.wires s'.wires

    -- The verifier's call returns a machine that follows the prover's.
    abbrev pub Redone : Machine D → Outcome PreprocessMachine → Type 0
    Redone u result = (u' : PreprocessMachine) × (result ≡ ok u') × MachineFollows u u'
