-- ===== src/Proof/Complete/Accepts.antt =====
-- proof/mod.rs: `Proof::verify` on what `Proof::new` returns.
use reverie_ppr.Prelude.{
  length-map, ℕ, ◌≡◌, ◌==◌, refl, sym, ◌∙◌, ap, ap₂, arith, Bool, true, ◌&&◌, List, [], ◌∷◌, map,
  length, Array, to_list, All, ok,
}
use reverie_ppr.Word.{U64}
use reverie_ppr.Crypto.{StreamCipher, Blake3, Key}
use reverie_ppr.Algebra.{packed}
use reverie_ppr.Algebra.Z64.Domain.{domain_z64}
use reverie_ppr.Algebra.Gf2.Boolean.{and_left, and_right}
use reverie_ppr.Algebra.Gf2.Laws.{domain_gf2}
use reverie_ppr.Transcript.Online.{OpenOnline}
use reverie_ppr.Transcript.Preprocess.{OpenPreprocessing}
use reverie_ppr.Interpreter.Combine.{CombineOperation}
use reverie_ppr.Proof.{
  ProofSingle, Openings, online_reps, preprocessing_reps, packed_reps, check_format,
}
use reverie_ppr.Proof.Order.{online_of, preprocessing_of}
use reverie_ppr.Proof.Prove.{Proof, Executed, execute_all, flatten, open_all}
use reverie_ppr.Proof.Assembled.{IsChallenge, All-right, open_all-IsChallenge}
use reverie_ppr.Proof.Verify.{chunks_exact, run_online, run_preprocessing, run_reps, same_bytes}
use reverie_ppr.Proof.Complete.{Entry}
use reverie_ppr.Proof.Complete.Chunks.{chunks-flatten}
use reverie_ppr.Proof.Complete.Runs.{
  IsOpened, IsRevealed, run_online-honest, run_preprocessing-honest,
}
use reverie_ppr.Proof.Complete.Batches.{
  execute_all-eq-ok, online_entries, preprocessing_entries, online_entries-All,
  preprocessing_entries-All, open_all-entries, hashes-entries,
}

pub same_bytes_refl : (xs : List ℕ) → same_bytes xs xs ≡ true
same_bytes_refl [] = refl
same_bytes_refl (x ∷ xs) = ap₂ ◌&&◌ (same x) (same_bytes_refl xs)
  where
    same : (n : ℕ) → (n == n) ≡ true
    same n = ground arith

module _ ⦃c : StreamCipher⦄ ⦃b : Blake3⦄ where
  -- The numbers of openings that the format asks for.
  check_format-lengths :
      (p : ProofSingle)
      → check_format p ≡ true
      → (length p.online ≡ 40) × (length p.preprocessing ≡ 216)
  unfolding check_format
  check_format-lengths p e = (
    equal (length p.online) 40 (and_left _ (length p.preprocessing == preprocessing_reps) e),
    equal (length p.preprocessing) 216 (and_right (length p.online == online_reps) _ e),
  )
    where
      equal : (m n : ℕ) → (m == n) ≡ true → m ≡ n
      equal m n e = ground (arith, e)

  module _ (circuit : List CombineOperation) (wit_gf2 : List Bool) (wit_z64 : List U64)
      (z64_count gf2_count : ℕ) where
    abbrev Opened : Entry OpenOnline b.Digest → Type 0
    Opened = IsOpened circuit wit_gf2 wit_z64 z64_count gf2_count

    abbrev Revealed : Entry OpenPreprocessing b.Digest → Type 0
    Revealed = IsRevealed circuit wit_gf2 wit_z64 z64_count gf2_count

    -- A proof that holds entries of honest runs leads to the entries' hashes.
    run_reps-entries :
        (comm : List ℕ) (online : List (Entry OpenOnline b.Digest))
        (preprocessing : List (Entry OpenPreprocessing b.Digest))
        → length online ≡ 40
        → length preprocessing ≡ 216
        → All Opened online
        → All Revealed preprocessing
        → run_reps circuit z64_count gf2_count (record {
          comm = comm;
          gf2 = record {
            online = map (λ e. e.gf2) online;
            preprocessing = map (λ e. e.gf2) preprocessing;
          };
          z64 = record {
            online = map (λ e. e.z64) online;
            preprocessing = map (λ e. e.z64) preprocessing;
          };
        })
          ≡ ok (map (λ e. e.hash) online, map (λ e. e.hash) preprocessing)
    unfolding run_reps chunks_exact
    run_reps-entries comm online preprocessing on pre opened revealed =
        let (gf2, z64, hashes, e₁, e₂, e₃, e₄) =
          chunks-flatten (run_online circuit z64_count gf2_count) Opened
            (run_online-honest circuit wit_gf2 wit_z64 z64_count gf2_count) 5 online on opened in
        let (gf2', z64', hashes', f₁, f₂, f₃, f₄) =
          chunks-flatten (run_preprocessing circuit z64_count gf2_count) Revealed
            (run_preprocessing-honest circuit wit_gf2 wit_z64 z64_count gf2_count) 27 preprocessing
            pre revealed in
        let size = λ (f : Entry OpenOnline b.Digest → OpenOnline). length-map f online ∙ on in
        let size' = λ (f : Entry OpenPreprocessing b.Digest → OpenPreprocessing).
          length-map f preprocessing ∙ pre in
        rw
          (
            size (λ e. e.gf2),
            size (λ e. e.z64),
            size' (λ e. e.gf2),
            size' (λ e. e.z64),
            e₁,
            e₂,
            f₁,
            f₂,
            e₃,
            f₃,
            e₄,
            f₄,
          )
          refl

    module _ (keys : Array (Array Key packed) packed_reps) (reps : Array Executed packed_reps)
        (all_ran : execute_all circuit wit_gf2 wit_z64 z64_count gf2_count packed_reps keys
          ≡ ok reps)
        (opened : Openings) (challenge : IsChallenge opened) where
      abbrev pub hashes : List b.Digest
      hashes = flatten (to_list packed_reps (λ i. (reps i).0))

      abbrev pub honest_proof : List ℕ → Proof
      honest_proof comm = record {
        comm = comm;
        gf2 = open_all domain_gf2 (λ i. (reps i).1) opened;
        z64 = open_all domain_z64 (λ i. (reps i).2) opened;
      }

      pub run_reps-honest :
          (comm : List ℕ)
          → run_reps circuit z64_count gf2_count (honest_proof comm)
            ≡ ok (online_of opened 0 hashes, preprocessing_of opened 0 hashes)
      run_reps-honest comm =
          let ran =
            execute_all-eq-ok circuit wit_gf2 wit_z64 z64_count gf2_count packed_reps keys
              all_ran in
          let (gf2, z64) =
            open_all-entries circuit wit_gf2 wit_z64 z64_count gf2_count keys reps ran opened in
          let (on, pre) =
            hashes-entries circuit wit_gf2 wit_z64 z64_count gf2_count keys reps ran opened
              (All-right opened challenge.entries) in
          let online =
            online_entries circuit wit_gf2 wit_z64 z64_count gf2_count keys reps ran opened in
          let others =
            preprocessing_entries circuit wit_gf2 wit_z64 z64_count gf2_count keys reps ran
              opened in
          let (forty, others_size) =
            check_format-lengths (open_all domain_gf2 (λ i. (reps i).1) opened)
              (open_all-IsChallenge domain_gf2 (λ i. (reps i).1) opened challenge) in
          ap₂
            (λ x y. run_reps circuit z64_count gf2_count (record { comm = comm; gf2 = x; z64 = y }))
            gf2 z64
          ∙ run_reps-entries comm online others
              (sym (length-map (λ (e : Entry OpenOnline b.Digest). e.gf2) online)
                ∙ sym (ap (λ p. length p.online) gf2)
                ∙ forty)
              (sym (length-map (λ (e : Entry OpenPreprocessing b.Digest). e.gf2) others)
                ∙ sym (ap (λ p. length p.preprocessing) gf2)
                ∙ others_size)
              (online_entries-All circuit wit_gf2 wit_z64 z64_count gf2_count keys reps ran opened)
              (preprocessing_entries-All circuit wit_gf2 wit_z64 z64_count gf2_count keys reps ran
                opened)
          ∙ ap₂ (λ x y. ok (x, y)) (sym on) (sym pre)
