-- ===== src/Proof/Complete/Verdict.antt =====
-- proof/mod.rs: `Proof::verify` on what `Proof::new` returns.
use reverie_ppr.Prelude.{
  ℕ, ◌≤◌, ◌≡◌, refl, sym, ◌∙◌, ap, Bool, true, List, [], length, Option, none, some, Array, ok,
  >>=-eq-ok, ok_injective, subst, to_list,
}
use reverie_ppr.Word.{U64}
use reverie_ppr.Crypto.{StreamCipher, Blake3, Key}
use reverie_ppr.Crypto.Oracle.{Xof, oracle_new}
use reverie_ppr.Algebra.{packed}
use reverie_ppr.Algebra.Z64.Domain.{domain_z64}
use reverie_ppr.Algebra.Gf2.Laws.{domain_gf2}
use reverie_ppr.Interpreter.Combine.{CombineOperation}
use reverie_ppr.Proof.{Openings, online_reps, total_reps, packed_reps, combine_hashes, order_hashes}
use reverie_ppr.Proof.Challenge.{
  ctx_challenge, drawn, challenge_to_opening, challenge_to_opening-returns,
}
use reverie_ppr.Proof.Order.{online_of, preprocessing_of, order_hashes-split}
use reverie_ppr.Proof.Prove.{Proof, Executed, execute_all, flatten, assemble, prove}
use reverie_ppr.Proof.Assembled.{
  IsChallenge, some_injective, open_all-IsChallenge, challenge_to_opening-IsChallenge,
}
use reverie_ppr.Proof.Verify.{compare_hashes, verify}
use reverie_ppr.Proof.Complete.Batches.{length-flatten}
use reverie_ppr.Proof.Complete.Accepts.{same_bytes_refl, honest_proof, run_reps-honest}

module _ ⦃c : StreamCipher⦄ ⦃b : Blake3⦄ ⦃x : Xof⦄ (rounds : ℕ) (circuit : List CombineOperation)
    (wit_gf2 : List Bool) (wit_z64 : List U64) (counts : ℕ × ℕ)
    (keys : Array (Array Key packed) packed_reps) where
  -- The commitment that the prover's hashes lead to.
  abbrev pub commitment : Array Executed packed_reps → List ℕ
  commitment reps = b.as_bytes (combine_hashes (flatten (to_list packed_reps (λ i. (reps i).0))))

  module _ (reps : Array Executed packed_reps)
      (all_ran : execute_all circuit wit_gf2 wit_z64 counts.0 counts.1 packed_reps keys
        ≡ ok reps) where
    verify-honest :
        (opened : Openings) (challenge : IsChallenge opened)
        → challenge_to_opening rounds (commitment reps) ≡ some opened
        → verify circuit counts.0 counts.1 rounds (
            honest_proof circuit wit_gf2 wit_z64 counts.0 counts.1 keys reps all_ran opened
              challenge
              (commitment reps))
          ≡ ok (some true)
    unfolding verify compare_hashes
    verify-honest opened challenge drawn_opened =
        let all = flatten (to_list packed_reps (λ i. (reps i).0)) in
        let ordered : order_hashes opened 0 total_reps (online_of opened 0 all)
              (preprocessing_of opened 0 all)
            ≡ ok all =
          ap (λ n. order_hashes opened 0 n (online_of opened 0 all) (preprocessing_of opened 0 all))
            (sym (length-flatten packed_reps (λ i. (reps i).0)))
          ∙ order_hashes-split opened 0 all in
        rw
          (
            open_all-IsChallenge domain_gf2 (λ i. (reps i).1) opened challenge,
            open_all-IsChallenge domain_z64 (λ i. (reps i).2) opened challenge,
            run_reps-honest circuit wit_gf2 wit_z64 counts.0 counts.1 keys reps all_ran opened
                challenge (commitment reps),
            drawn_opened,
            ordered,
            same_bytes_refl (commitment reps),
          )
          refl

    verify-assembled :
        (o : Option Openings) {proof : Proof}
        → challenge_to_opening rounds (commitment reps) ≡ o
        → assemble (commitment reps) reps o ≡ some proof
        → verify circuit counts.0 counts.1 rounds proof ≡ ok (some true)
    unfolding assemble
    verify-assembled none d e = absurd (cc)
    verify-assembled (some opened) d e =
        subst (λ p. verify circuit counts.0 counts.1 rounds p ≡ ok (some true)) (some_injective e)
          (verify-honest opened (challenge_to_opening-IsChallenge rounds (commitment reps) d) d)

  -- Completeness of the proof system: a proof that `Proof::new` returns, for whatever circuit,
  -- witness, counts of wires and keys, `Proof::verify` accepts on the same circuit and counts.
  pub prove-verify :
      {proof : Proof}
      → prove rounds circuit wit_gf2 wit_z64 counts keys ≡ ok (some proof)
      → verify circuit counts.0 counts.1 rounds proof ≡ ok (some true)
  unfolding prove
  prove-verify e =
      let (reps, e₁, e₂) =
        >>=-eq-ok (execute_all circuit wit_gf2 wit_z64 counts.0 counts.1 packed_reps keys) _ e in
      verify-assembled reps e₁ (challenge_to_opening rounds (commitment reps)) refl
        (ok_injective e₂)

  -- An honest prover is served: where the runs of all batches do not panic, and the challenge of
  -- their commitment names 40 different repetitions within the rounds given, `Proof::new` returns
  -- a proof and `Proof::verify` accepts it.
  pub honest_accepted :
      (reps : Array Executed packed_reps)
      → execute_all circuit wit_gf2 wit_z64 counts.0 counts.1 packed_reps keys ≡ ok reps
      → online_reps ≤ length (drawn rounds (oracle_new ctx_challenge (commitment reps)) [])
      → (proof : Proof) × (prove rounds circuit wit_gf2 wit_z64 counts keys ≡ ok (some proof))
        × (verify circuit counts.0 counts.1 rounds proof ≡ ok (some true))
  unfolding prove assemble
  honest_accepted reps e enough =
      let (opened, d, _, _) = challenge_to_opening-returns rounds (commitment reps) enough in
      let challenge = challenge_to_opening-IsChallenge rounds (commitment reps) d in
      (
        honest_proof circuit wit_gf2 wit_z64 counts.0 counts.1 keys reps e opened challenge
            (commitment reps),
        rw (e, d) refl,
        verify-honest reps e opened challenge d,
      )
