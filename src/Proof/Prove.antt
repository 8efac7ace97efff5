-- ===== src/Proof/Prove.antt =====
-- proof/mod.rs, `Proof::new`: the runs of all repetitions, the challenge, and what is opened. The
-- keys that the system's generator fills are a parameter.
use reverie_ppr.Prelude.{
  ℕ, zero, suc, List, [], ◌∷◌, ◌++◌, map, Option, none, some, Bool, Fin, Array, push_front, to_list,
  Outcome, ok, ◌>>=◌,
}
use reverie_ppr.Ring.Sum.{rest}
use reverie_ppr.Word.{U64}
use reverie_ppr.Crypto.{StreamCipher, Blake3, Key}
use reverie_ppr.Crypto.Oracle.{Xof}
use reverie_ppr.Algebra.{Domain, packed}
use reverie_ppr.Algebra.Z64.Domain.{domain_z64}
use reverie_ppr.Algebra.Gf2.Laws.{domain_gf2}
use reverie_ppr.Transcript.{Transcript}
use reverie_ppr.Transcript.Prover.{ProverTranscript, prover, prover_new}
use reverie_ppr.Transcript.Online.{OpenOnline}
use reverie_ppr.Transcript.Preprocess.{OpenPreprocessing}
use reverie_ppr.Transcript.Extract.{extract}
use reverie_ppr.Interpreter.Single.{instance_new}
use reverie_ppr.Interpreter.Combine.{
  CombineInstance, CombineOperation, combine_new, combine_step, combine_hash,
}
use reverie_ppr.Proof.{ProofSingle, Openings, packed_reps, opening_to_packed, combine_hashes}
use reverie_ppr.Proof.Challenge.{challenge_to_opening}

module _ ⦃b : Blake3⦄ where
  -- The openings of all batches, one after the other.
  unfoldable pub collect : List (List OpenOnline × List OpenPreprocessing) → ProofSingle
  collect [] = record { online = []; preprocessing = [] }
  collect ((online, preprocessing) ∷ reps) =
      let more = collect reps in
      record { online = online ++ more.online; preprocessing = preprocessing ++ more.preprocessing }

  pub record Proof : Type 0 where
    pub comm : List ℕ
    pub gf2 : ProofSingle
    pub z64 : ProofSingle

module _ ⦃c : StreamCipher⦄ ⦃b : Blake3⦄ where
  -- `for op in circuit.iter() { ins.step(op); }`
  unfoldable pub run_combined :
      {T1 T2 : Type 0}
      → Transcript domain_gf2 T1
      → Transcript domain_z64 T2
      → CombineInstance T1 T2
      → List CombineOperation
      → Outcome (CombineInstance T1 T2)
  unfolding combine_step
  run_combined tr1 tr2 s [] = ok s
  run_combined tr1 tr2 s (op ∷ circuit) =
      combine_step tr1 tr2 s op >>= λ s'. run_combined tr1 tr2 s' circuit

  -- What a batch of repetitions leaves: its hashes and its transcripts.
  abbrev pub Executed : Type 0
  Executed = Array b.Digest 8 × ProverTranscript domain_gf2 × ProverTranscript domain_z64

  module _ (circuit : List CombineOperation) (wit_gf2 : List Bool) (wit_z64 : List U64)
      (z64_count gf2_count : ℕ) where
    unfoldable pub execute : Array Key packed → Outcome Executed
    unfolding run_combined combine_new combine_hash instance_new prover_new
    execute keys =
        let instance_gf2 =
          instance_new domain_gf2 (prover_new domain_gf2 (map domain_gf2.into wit_gf2) keys)
            gf2_count in
        let instance_z64 =
          instance_new domain_z64 (prover_new domain_z64 (map domain_z64.into wit_z64) keys)
            z64_count in
        run_combined (prover domain_gf2) (prover domain_z64) (combine_new instance_gf2 instance_z64)
          circuit
        >>= λ ins. ok (
          combine_hash (prover domain_gf2) (prover domain_z64) ins,
          ins.gf2.transcript,
          ins.z64.transcript,
        )

    unfoldable pub execute_all : (n : ℕ) → Array (Array Key packed) n → Outcome (Array Executed n)
    unfolding execute
    execute_all zero keys = ok (λ i. elim i [ ])
    execute_all (suc n) keys = do
      first ← execute (keys Fin.zero)
      more ← execute_all n (rest keys)
      ok (push_front first more)

  -- The hashes of all batches in a row.
  abbrev pub flatten : List (Array b.Digest 8) → List b.Digest
  flatten [] = []
  flatten (hashes ∷ more) = to_list 8 hashes ++ flatten more

  -- The openings in one domain, with the players to omit that a challenge names.
  unfoldable pub open_all :
      (D : Domain) → Array (ProverTranscript D) packed_reps → Openings → ProofSingle
  unfolding collect extract opening_to_packed
  open_all D transcripts opened =
      collect (to_list packed_reps (λ i. extract D (transcripts i) (opening_to_packed opened i)))

  -- The proof, once the challenge is there.
  unfoldable pub assemble : List ℕ → Array Executed packed_reps → Option Openings → Option Proof
  unfolding open_all
  assemble comm reps none = none
  assemble comm reps (some opened) = some (record {
    comm = comm;
    gf2 = open_all domain_gf2 (λ i. (reps i).1) opened;
    z64 = open_all domain_z64 (λ i. (reps i).2) opened;
  })

  -- `Proof::new`, where the challenge is drawn in so many rounds at most.
  unfoldable pub prove :
      ⦃x : Xof⦄
      → ℕ
      → List CombineOperation
      → List Bool
      → List U64
      → ℕ × ℕ
      → Array (Array Key packed) packed_reps
      → Outcome (Option Proof)
  unfolding execute_all assemble combine_hashes challenge_to_opening
  prove rounds circuit wit_gf2 wit_z64 (z64_count, gf2_count) keys =
      execute_all circuit wit_gf2 wit_z64 z64_count gf2_count packed_reps keys >>= λ reps.
      let comm = b.as_bytes (combine_hashes (flatten (to_list packed_reps (λ i. (reps i).0)))) in
      ok (assemble comm reps (challenge_to_opening rounds comm))
