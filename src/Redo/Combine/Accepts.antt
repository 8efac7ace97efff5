-- ===== src/Redo/Combine/Accepts.antt =====
-- proof/mod.rs, `Proof::verify`: the run of a batch of repetitions that an honest prover opens by
-- their seeds.
use reverie_ppr.Prelude.{
  ℕ, Bool, ◌≡◌, refl, sym, ◌∙◌, ap, ap₂, subst, map, Fin, Array, List, [], ◌∷◌, ok, >>=-eq-ok,
  ok_injective,
}
use reverie_ppr.Word.{U64}
use reverie_ppr.Crypto.{StreamCipher, Blake3, Key}
use reverie_ppr.Crypto.Hash.{finalize}
use reverie_ppr.Algebra.{packed}
use reverie_ppr.Algebra.Z64.Domain.{domain_z64}
use reverie_ppr.Algebra.Z64.Laws.{lanes_z64}
use reverie_ppr.Algebra.Gf2.Laws.{domain_gf2, lanes_gf2}
use reverie_ppr.Transcript.Prover.{prover, prover_new}
use reverie_ppr.Transcript.Preprocess.{OpenPreprocessing, preprocess, preprocess_new}
use reverie_ppr.Transcript.Extract.{preprocessing_opening}
use reverie_ppr.Interpreter.Single.{instance_new}
use reverie_ppr.Interpreter.Combine.{CombineOperation, combine_new, combine_step, combine_hash}
use reverie_ppr.Proof.Prove.{Executed, run_combined, execute}
use reverie_ppr.Proof.Verify.{run_preprocessing}
use reverie_ppr.Replay.Combine.Run.{run_combined-Follows}
use reverie_ppr.Replay.Combine.Accepts.{combine_start, execute-eq-ok}
use reverie_ppr.Redo.Run.{start-Follows, Follows-hash}
use reverie_ppr.Redo.Combine.{CombineProver, CombinePreprocess, CombineFollows, CombineRedone}
use reverie_ppr.Redo.Combine.Step.{combine_step-Redone}

module _ ⦃c : StreamCipher⦄ ⦃b : Blake3⦄ where
  module _ (i j : Fin packed) (comms₁ comms₂ : Array b.Digest packed) where
    run_combined-Redone :
        (circuit : List CombineOperation) (s : CombineProver) (s' : CombinePreprocess)
        {u : CombineProver}
        → CombineFollows i j comms₁ comms₂ s s'
        → run_combined (prover domain_gf2) (prover domain_z64) s circuit ≡ ok u
        → CombineRedone i j comms₁ comms₂ u
            (run_combined (preprocess domain_gf2) (preprocess domain_z64) s' circuit)
    unfolding run_combined
    run_combined-Redone [] s s' m e =
        (s', refl, subst (λ u. CombineFollows i j comms₁ comms₂ u s') (ok_injective e) m)
    run_combined-Redone (op ∷ circuit) s s' m e =
        let (t, e₁, e₂) =
          >>=-eq-ok (combine_step (prover domain_gf2) (prover domain_z64) s op) _ e in
        let (t', e₃, m') = combine_step-Redone i j comms₁ comms₂ s s' m op e₁ in
        rw e₃ (run_combined-Redone circuit t t' m' e₂)

    combine_hash-Redone :
        (s : CombineProver) (s' : CombinePreprocess)
        → CombineFollows i j comms₁ comms₂ s s'
        → comms₁ j ≡ finalize (s.gf2.transcript.hash_online i)
        → comms₂ j ≡ finalize (s.z64.transcript.hash_online i)
        → combine_hash (preprocess domain_gf2) (preprocess domain_z64) s' j
          ≡ combine_hash (prover domain_gf2) (prover domain_z64) s i
    unfolding combine_hash
    combine_hash-Redone s s' m e₁ e₂ =
        ap₂ (λ x y. b.finalize (b.update (b.update b.new (b.as_bytes x)) (b.as_bytes y)))
          (Follows-hash domain_gf2 lanes_gf2 i j comms₁ s.gf2.transcript s'.gf2.transcript
            m.gf2.transcript e₁)
          (Follows-hash domain_z64 lanes_z64 i j comms₂ s.z64.transcript s'.z64.transcript
            m.z64.transcript e₂)

  module _ (circuit : List CombineOperation) (wit_gf2 : List Bool) (wit_z64 : List U64)
      (z64_count gf2_count : ℕ) (keys : Array Key packed) where
    -- Completeness of a repetition that is opened by its seed in both domains: where a run of a
    -- circuit, conversions included, does not panic on the prover's side, and openings `j` of a
    -- batch are in both domains the ones that `extract` makes of the prover's repetition `i` when
    -- no player is omitted, the verifier's run of the batch does not panic, and returns for
    -- repetition `j` the hash that the prover has of repetition `i`.
    pub run_preprocessing-accepts :
        (i j : Fin packed) (gf2 z64 : Array OpenPreprocessing packed) {executed : Executed}
        → execute circuit wit_gf2 wit_z64 z64_count gf2_count keys ≡ ok executed
        → gf2 j ≡ preprocessing_opening domain_gf2 executed.1 i
        → z64 j ≡ preprocessing_opening domain_z64 executed.2 i
        → (hashes : Array b.Digest 8) × (run_preprocessing circuit z64_count gf2_count gf2 z64
            ≡ ok hashes)
          × (hashes j ≡ executed.0 i)
    unfolding run_preprocessing combine_new prover_new instance_new preprocessing_opening
    run_preprocessing-accepts i j gf2 z64 {executed} e opened₁ opened₂ =
        let begin = combine_start circuit wit_gf2 wit_z64 z64_count gf2_count keys in
        let (u, e₁, same) = execute-eq-ok circuit wit_gf2 wit_z64 z64_count gf2_count keys e in
        let f = run_combined-Follows i j Fin.zero circuit begin e₁ in
        let made₁ = opened₁ ∙ ap (λ x. preprocessing_opening domain_gf2 x.1 i) (sym same) in
        let made₂ = opened₂ ∙ ap (λ x. preprocessing_opening domain_z64 x.2 i) (sym same) in
        let machine =
          combine_new (instance_new domain_gf2 (preprocess_new domain_gf2 gf2) gf2_count)
            (instance_new domain_z64 (preprocess_new domain_z64 z64) z64_count) in
        let (v, returns, m) =
          run_combined-Redone i j (λ r. (gf2 r).comm_online) (λ r. (z64 r).comm_online) circuit
            begin machine
            (record {
              gf2 =
                  start-Follows domain_gf2 lanes_gf2 i j (map domain_gf2.into wit_gf2) keys
                    gf2_count gf2 (ap (λ x. x.seed) made₁ ∙ ap (λ k. k i) f.records.gf2.seeds);
              z64 =
                  start-Follows domain_z64 lanes_z64 i j (map domain_z64.into wit_z64) keys
                    z64_count z64 (ap (λ x. x.seed) made₂ ∙ ap (λ k. k i) f.records.z64.seeds);
            })
            e₁ in
        (
          combine_hash (preprocess domain_gf2) (preprocess domain_z64) v,
          rw returns refl,
          combine_hash-Redone i j _ _ u v m (ap (λ x. x.comm_online) made₁)
                (ap (λ x. x.comm_online) made₂)
              ∙ ap (λ x. x.0 i) same,
        )
