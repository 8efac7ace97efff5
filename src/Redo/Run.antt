-- ===== src/Redo/Run.antt =====
-- A whole circuit on both machines, from the opening that `extract` makes.
use reverie_ppr.Prelude.{
  ℕ, ◌≡◌, refl, ◌∙◌, ap, ap₂, subst, Fin, Array, List, [], ◌∷◌, ok, >>=-eq-ok, ok_injective,
  AllPairs-replicate,
}
use reverie_ppr.Crypto.{StreamCipher, Blake3, Key}
use reverie_ppr.Crypto.Hash.{packed_new, packed_finalize, finalize}
use reverie_ppr.Algebra.{Domain, Lanes, packed}
use reverie_ppr.Generator.Redo.{share_gen_new-Redoes}
use reverie_ppr.Transcript.{hash_join, transcript_hash}
use reverie_ppr.Transcript.Seeds.{expand_seed, share_gen_from_rep_seeds}
use reverie_ppr.Transcript.Prover.{ProverTranscript, prover, prover_new}
use reverie_ppr.Transcript.Preprocess.{
  OpenPreprocessing, PreprocessTranscript, preprocess, preprocess_new,
}
use reverie_ppr.Transcript.Extract.{preprocessing_opening}
use reverie_ppr.Interpreter.{Operation}
use reverie_ppr.Interpreter.Single.{step, run, instance_new, default_wire}
use reverie_ppr.Interpreter.Single.Prover.{Machine}
use reverie_ppr.Interpreter.Single.Refinement.{start}
use reverie_ppr.Replay.Run.{run-Follows}
use reverie_ppr.Redo.{PreprocessMachine, SameMask, Follows, MachineFollows, Redone}
use reverie_ppr.Redo.Gates.{share_zero-Same}
use reverie_ppr.Redo.Step.{step-Redone}

module _ ⦃c : StreamCipher⦄ ⦃b : Blake3⦄ (D : Domain) (L : Lanes D) (i j : Fin packed) where
  run-Redone :
      (comms : Array b.Digest packed) (program : List (Operation D.Const)) (s u : Machine D)
      (s' : PreprocessMachine D)
      → MachineFollows D L i j comms s s'
      → run D (prover D) s program ≡ ok u
      → Redone D L i j comms u (run D (preprocess D) s' program)
  unfolding run
  run-Redone comms [] s u s' m e =
      (s', refl, subst (λ x. MachineFollows D L i j comms x s') (ok_injective e) m)
  run-Redone comms (op ∷ program) s u s' m e =
      let (t, e₁, e₂) = >>=-eq-ok (step D (prover D) s op) _ e in
      let (t', e₃, m') = step-Redone D L i j comms s t s' m op e₁ in
      rw e₃ (run-Redone comms program t u t' m' e₂)

  pub start-Follows :
      (witness : List D.Recon) (seeds : Array Key packed) (cells : ℕ)
      (proofs : Array OpenPreprocessing packed)
      → (proofs j).seed ≡ seeds i
      → MachineFollows D L i j
          (λ r. (proofs r).comm_online)
          (start D witness seeds cells)
          (instance_new D (preprocess_new D proofs) cells)
  unfolding instance_new default_wire prover_new preprocess_new share_gen_from_rep_seeds packed_new
  start-Follows witness seeds cells proofs e = record {
    transcript = record {
      gens =
          share_gen_new-Redoes D L i j (λ r. expand_seed (seeds r))
            (λ r. expand_seed (proofs r).seed) (ap expand_seed e);
      preprocess = refl;
      kept = refl;
    };
    wires =
        AllPairs-replicate (SameMask D L i j (λ r. (proofs r).comm_online)) cells _ _
          (record { mask = share_zero-Same D L i j });
  }

  pub Follows-hash :
      (comms : Array b.Digest packed) (t : ProverTranscript D) (t' : PreprocessTranscript D)
      → Follows D L i j comms t t'
      → comms j ≡ finalize (t.hash_online i)
      → transcript_hash (preprocess D) t' j ≡ transcript_hash (prover D) t i
  unfolding transcript_hash packed_finalize finalize
  Follows-hash comms t t' m e =
      ap₂ hash_join (ap b.finalize m.preprocess) (ap (λ f. f j) m.kept ∙ e)

  -- Completeness of a repetition that is opened by its seed: where the prover's run of a program
  -- does not panic and opening `j` of a verifier's batch is the one that `extract` makes of the
  -- prover's repetition `i` when no player is omitted, the run of the program on the preprocessing
  -- transcript does not panic, and it ends with the hash of repetition `j` that the prover has of
  -- repetition `i`.
  pub preprocessing_accepts :
      (program : List (Operation D.Const)) (witness : List D.Recon) (seeds : Array Key packed)
      (cells : ℕ) (proofs : Array OpenPreprocessing packed) {u : Machine D}
      → run D (prover D) (start D witness seeds cells) program ≡ ok u
      → proofs j ≡ preprocessing_opening D u.transcript i
      → (v : PreprocessMachine D) × (run D
            (preprocess D)
            (instance_new D (preprocess_new D proofs) cells)
            program
          ≡ ok v)
        × (transcript_hash (preprocess D) v.transcript j
            ≡ transcript_hash (prover D) u.transcript i)
  unfolding instance_new prover_new preprocessing_opening
  preprocessing_accepts program witness seeds cells proofs {u} e opened =
      let same_seeds : u.transcript.seeds ≡ seeds =
        (run-Follows D L i j Fin.zero program (start D witness seeds cells) u e).records.seeds in
      let (v, returns, m) =
        run-Redone (λ r. (proofs r).comm_online) program (start D witness seeds cells) u
          (instance_new D (preprocess_new D proofs) cells)
          (start-Follows witness seeds cells proofs
            (ap (λ x. x.seed) opened ∙ ap (λ f. f i) same_seeds))
          e in
      (
        v,
        returns,
        Follows-hash (λ r. (proofs r).comm_online) u.transcript v.transcript m.transcript
            (ap (λ x. x.comm_online) opened),
      )
