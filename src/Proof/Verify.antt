-- ===== src/Proof/Verify.antt =====
-- proof/mod.rs, `Proof::verify`: the runs on the opened repetitions, their order, and the test.
use reverie_ppr.Prelude.{
  ℕ, zero, suc, ◌/◌, List, [], ◌∷◌, drop, length, Option, none, some, Bool, true, false, ◌&&◌, ◌==◌,
  Array, Outcome, ok, ◌>>=◌, if◌then◌else◌,
}
use reverie_ppr.Crypto.{StreamCipher, Blake3}
use reverie_ppr.Crypto.Oracle.{Xof}
use reverie_ppr.Algebra.{packed}
use reverie_ppr.Algebra.Z64.Domain.{domain_z64}
use reverie_ppr.Algebra.Gf2.Laws.{domain_gf2}
use reverie_ppr.Transcript.Online.{OpenOnline, online, online_new}
use reverie_ppr.Transcript.Preprocess.{OpenPreprocessing, preprocess, preprocess_new}
use reverie_ppr.Interpreter.Single.{instance_new}
use reverie_ppr.Interpreter.Combine.{CombineOperation, combine_new, combine_hash, wires_from}
use reverie_ppr.Proof.{Openings, total_reps, check_format, combine_hashes, order_hashes}
use reverie_ppr.Proof.Challenge.{challenge_to_opening}
use reverie_ppr.Proof.Prove.{Proof, run_combined, flatten}

-- `chunks_exact(PACKED)`, for so many chunks.
unfoldable pub chunks : {A : Type 0} → ℕ → List A → Outcome (List (Array A packed))
unfolding wires_from
chunks zero xs = ok []
chunks (suc n) xs = do
  first ← wires_from packed xs 0
  more ← chunks n (drop packed xs)
  ok (first ∷ more)

unfoldable pub chunks_exact : {A : Type 0} → List A → Outcome (List (Array A packed))
unfolding chunks
chunks_exact xs = chunks (length xs / packed) xs

-- `a.zip(b).map(f).collect()`
unfoldable pub map_zip : {A C : Type 0} → (A → A → Outcome C) → List A → List A → Outcome (List C)
map_zip f [] ys = ok []
map_zip f (x ∷ xs) [] = ok []
map_zip f (x ∷ xs) (y ∷ ys) = do z ← f x y; zs ← map_zip f xs ys; ok (z ∷ zs)

-- The comparison of two slices of bytes.
abbrev pub same_bytes : List ℕ → List ℕ → Bool
same_bytes [] [] = true
same_bytes [] (y ∷ ys) = false
same_bytes (x ∷ xs) [] = false
same_bytes (x ∷ xs) (y ∷ ys) = (x == y) && same_bytes xs ys

module _ ⦃b : Blake3⦄ where
  -- What is done with the hashes once the challenge is there.
  unfoldable pub compare_hashes :
      List ℕ → List b.Digest × List b.Digest → Option Openings → Outcome (Option Bool)
  unfolding order_hashes combine_hashes
  compare_hashes comm hashes none = ok none
  compare_hashes comm (online_hashes, preprocessing_hashes) (some opened) = do
    ordered_hashes ← order_hashes opened 0 total_reps online_hashes preprocessing_hashes
    ok (some (same_bytes (b.as_bytes (combine_hashes ordered_hashes)) comm))

module _ ⦃c : StreamCipher⦄ ⦃b : Blake3⦄ (circuit : List CombineOperation)
    (z64_count gf2_count : ℕ) where
  -- The closure that is mapped over the batches that are opened online.
  unfoldable pub run_online :
      Array OpenOnline packed → Array OpenOnline packed → Outcome (Array b.Digest 8)
  unfolding online_new instance_new run_combined combine_new combine_hash
  run_online gf2 z64 = do
    gf2_transcript ← online_new domain_gf2 gf2
    z64_transcript ← online_new domain_z64 z64
    ins ←
        run_combined (online domain_gf2) (online domain_z64)
          (combine_new (instance_new domain_gf2 gf2_transcript gf2_count)
            (instance_new domain_z64 z64_transcript z64_count))
          circuit
    ok (combine_hash (online domain_gf2) (online domain_z64) ins)

  unfoldable pub run_preprocessing :
      Array OpenPreprocessing packed → Array OpenPreprocessing packed → Outcome (Array b.Digest 8)
  unfolding preprocess_new instance_new run_combined combine_new combine_hash
  run_preprocessing gf2 z64 = do
    ins ←
        run_combined (preprocess domain_gf2) (preprocess domain_z64)
          (combine_new (instance_new domain_gf2 (preprocess_new domain_gf2 gf2) gf2_count)
            (instance_new domain_z64 (preprocess_new domain_z64 z64) z64_count))
          circuit
    ok (combine_hash (preprocess domain_gf2) (preprocess domain_z64) ins)

  -- The hashes of the repetitions that are opened online, and of the others: with the format
  -- checked, the first 40 of all hashes and the rest.
  unfoldable pub run_reps : Proof → Outcome (List b.Digest × List b.Digest)
  unfolding chunks_exact map_zip run_online run_preprocessing
  run_reps proof = do
    gf2_online ← chunks_exact proof.gf2.online
    z64_online ← chunks_exact proof.z64.online
    gf2_preprocessing ← chunks_exact proof.gf2.preprocessing
    z64_preprocessing ← chunks_exact proof.z64.preprocessing
    online_reps ← map_zip run_online gf2_online z64_online
    preprocessing_reps ← map_zip run_preprocessing gf2_preprocessing z64_preprocessing
    ok (flatten online_reps, flatten preprocessing_reps)

  -- `Proof::verify`, where the challenge is drawn in so many rounds at most.
  unfoldable pub verify : ⦃x : Xof⦄ → ℕ → Proof → Outcome (Option Bool)
  unfolding check_format run_reps challenge_to_opening compare_hashes
  verify rounds proof =
      let accepts = run_reps proof >>= λ hashes.
      compare_hashes proof.comm hashes (challenge_to_opening rounds proof.comm) in
      if check_format proof.gf2
      then (if check_format proof.z64 then accepts else ok (some false))
      else ok (some false)
