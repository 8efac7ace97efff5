-- ===== src/Replay/Combine.antt =====
-- interpreter/combine.rs: a verifier's machine over both domains against the prover's, in the
-- repetitions that are opened online.
pub mod Echo
pub mod Adder
pub mod Conversion
pub mod Parts
pub mod B2a
pub mod Step
pub mod Run
pub mod Accepts
use reverie_ppr.Prelude.{Fin, Outcome, ok, ◌≡◌}
use reverie_ppr.Crypto.{StreamCipher, Blake3}
use reverie_ppr.Algebra.{Domain, players, packed}
use reverie_ppr.Algebra.Z64.Domain.{domain_z64}
use reverie_ppr.Algebra.Z64.Laws.{lanes_z64}
use reverie_ppr.Algebra.Gf2.Laws.{domain_gf2, lanes_gf2}
use reverie_ppr.Transcript.Prover.{ProverTranscript}
use reverie_ppr.Transcript.Online.{OnlineTranscript}
use reverie_ppr.Interpreter.Combine.{CombineInstance}
use reverie_ppr.Interpreter.Single.Prover.{MachineIsValid}
use reverie_ppr.Replay.Product.{Log, join, Records, Covers}
use reverie_ppr.Replay.Machine.{MachineFits}

module _ ⦃c : StreamCipher⦄ ⦃b : Blake3⦄ where
  abbrev pub CombineProver : Type 0
  CombineProver = CombineInstance (ProverTranscript domain_gf2) (ProverTranscript domain_z64)

  abbrev pub CombineOnline : Type 0
  CombineOnline = CombineInstance (OnlineTranscript domain_gf2) (OnlineTranscript domain_z64)

  pub record CombineIsValid (s : CombineProver) : Type 0 where
    pub gf2 : MachineIsValid domain_gf2 lanes_gf2 s.gf2
    pub z64 : MachineIsValid domain_z64 lanes_z64 s.z64

  module _ (i j : Fin packed) (o : Fin players) where
    pub record CombineFits (s : CombineProver) (s' : CombineOnline) : Type 0 where
      pub gf2 : MachineFits domain_gf2 lanes_gf2 i j o s.gf2 s'.gf2
      pub z64 : MachineFits domain_z64 lanes_z64 i j o s.z64 s'.z64

    -- What is said in each domain.
    pub record CombineLog : Type 0 where
      pub gf2 : Log domain_gf2
      pub z64 : Log domain_z64

    abbrev pub join_both : CombineLog → CombineLog → CombineLog
    join_both d l = record { gf2 = join domain_gf2 d.gf2 l.gf2; z64 = join domain_z64 d.z64 l.z64 }

    pub record CombineRecords (s u : CombineProver) (d : CombineLog) : Type 0 where
      pub gf2 : Records domain_gf2 s.gf2.transcript u.gf2.transcript d.gf2
      pub z64 : Records domain_z64 s.z64.transcript u.z64.transcript d.z64

    pub record CombineCovers (l : CombineLog) (s' : CombineOnline) : Type 0 where
      pub gf2 : Covers domain_gf2 lanes_gf2 i j o l.gf2 s'.gf2.transcript
      pub z64 : Covers domain_z64 lanes_z64 i j o l.z64 s'.z64.transcript

    pub record CombineReplayed (u : CombineProver) (l : CombineLog) (result : Outcome CombineOnline)
        : Type 0 where
      pub after : CombineOnline
      pub returns : result ≡ ok after
      pub fits : CombineFits u after
      pub covers : CombineCovers l after

    -- The prover went from `s` to `u`, from a valid machine to a valid one; whatever verifier's
    -- machine fits `s` and is given what the prover recorded does `act` without a panic and
    -- fits `u`.
    pub record CombineFollows (s u : CombineProver) (act : CombineOnline → Outcome CombineOnline)
        : Type 0 where
      pub said : CombineLog
      pub records : CombineRecords s u said
      pub keeps : CombineIsValid s → CombineIsValid u
      pub replay :
          (s' : CombineOnline) (l : CombineLog)
          → CombineFits s s'
          → CombineCovers (join_both said l) s'
          → CombineReplayed u l (act s')
