-- ===== src/Redo/Combine.antt =====
-- interpreter/combine.rs: a verifier's machine over both domains that redoes the prover's masks,
-- in the repetitions that are opened by their seeds.
pub mod Adder
pub mod Masks
pub mod Parts
pub mod Step
pub mod Accepts
use reverie_ppr.Prelude.{Fin, Array, Outcome, ok, ◌≡◌}
use reverie_ppr.Crypto.{StreamCipher, Blake3}
use reverie_ppr.Algebra.{packed}
use reverie_ppr.Algebra.Z64.Domain.{domain_z64}
use reverie_ppr.Algebra.Z64.Laws.{lanes_z64}
use reverie_ppr.Algebra.Gf2.Laws.{domain_gf2, lanes_gf2}
use reverie_ppr.Transcript.Prover.{ProverTranscript}
use reverie_ppr.Transcript.Preprocess.{PreprocessTranscript}
use reverie_ppr.Interpreter.Combine.{CombineInstance}
use reverie_ppr.Redo.{MachineFollows}

module _ ⦃c : StreamCipher⦄ ⦃b : Blake3⦄ where
  abbrev pub CombineProver : Type 0
  CombineProver = CombineInstance (ProverTranscript domain_gf2) (ProverTranscript domain_z64)

  abbrev pub CombinePreprocess : Type 0
  CombinePreprocess =
      CombineInstance (PreprocessTranscript domain_gf2) (PreprocessTranscript domain_z64)

  module _ (i j : Fin packed) (comms₁ comms₂ : Array b.Digest packed) where
    pub record CombineFollows (s : CombineProver) (s' : CombinePreprocess) : Type 0 where
      pub gf2 : MachineFollows domain_gf2 lanes_gf2 i j comms₁ s.gf2 s'.gf2
      pub z64 : MachineFollows domain_z64 lanes_z64 i j comms₂ s.z64 s'.z64

    abbrev pub CombineRedone : CombineProver → Outcome CombinePreprocess → Type 0
    CombineRedone u result = (u' : CombinePreprocess) × (result ≡ ok u') × CombineFollows u u'
