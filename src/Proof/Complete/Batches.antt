-- ===== src/Proof/Complete/Batches.antt =====
-- proof/mod.rs, `Proof::new`: the openings of all batches, each with the hash of its repetition.
use reverie_ppr.Prelude.{
  map-append, ℕ, zero, suc, ◌+◌, ◌*◌, ◌<◌, ◌≡◌, refl, sym, ◌∙◌, ap, arith, Bool, true, not, List,
  ◌++◌, map, length, length-append, Fin, Array, val, fin, val-fin, to_list, ltb, All, ok, >>=-eq-ok,
  ok_injective, push_front, Outcome,
}
use reverie_ppr.Ring.Sum.{rest}
use reverie_ppr.Word.{U64}
use reverie_ppr.Crypto.{StreamCipher, Blake3, Key}
use reverie_ppr.Algebra.{players, packed}
use reverie_ppr.Algebra.Z64.Domain.{domain_z64}
use reverie_ppr.Algebra.Gf2.Laws.{domain_gf2}
use reverie_ppr.Transcript.Online.{OpenOnline}
use reverie_ppr.Transcript.Preprocess.{OpenPreprocessing}
use reverie_ppr.Transcript.Extract.{opening, preprocessing_opening}
use reverie_ppr.Interpreter.Combine.{CombineOperation}
use reverie_ppr.Proof.{Openings, packed_reps, opening_to_packed, contains_key}
use reverie_ppr.Proof.Order.{online_of, preprocessing_of, opening_to_packed-contains_key}
use reverie_ppr.Proof.Prove.{Executed, execute, execute_all, flatten, open_all}
use reverie_ppr.Proof.Complete.{Entry}
use reverie_ppr.Proof.Complete.Select.{
  chosen, chosen_all, chosen_all-All, collect-chosen, hashes-chosen,
}
use reverie_ppr.Proof.Complete.Runs.{IsOpened, IsRevealed}

module _ ⦃c : StreamCipher⦄ ⦃b : Blake3⦄ where
  pub length-flatten :
      (n : ℕ) (hashes : Array (Array b.Digest 8) n) → length (flatten (to_list n hashes)) ≡ 8 * n
  length-flatten zero hashes = refl
  length-flatten (suc n) hashes =
      length-append (to_list 8 (hashes Fin.zero)) (flatten (to_list n (rest hashes)))
      ∙ omega (arith, length-flatten n (rest hashes))

  flatten-chosen :
      {E F : Type 0} (opened : Openings) (f : E → b.Digest) (g : F → b.Digest) (n s : ℕ)
      (p : Fin n → Fin packed → Bool) (e : Array (Array E packed) n) (e' : Array (Array F packed) n)
      (hashes : Array (Array b.Digest 8) n)
      → ((i : Fin n) (j : Fin packed) → p i j ≡ contains_key opened (s + (8 * val i + val j)))
      → ((i : Fin n) (j : Fin packed) → f (e i j) ≡ hashes i j)
      → ((i : Fin n) (j : Fin packed) → g (e' i j) ≡ hashes i j)
      → (online_of opened s (flatten (to_list n hashes)) ≡ map f (chosen_all n p e))
        × (preprocessing_of opened s (flatten (to_list n hashes))
            ≡ map g (chosen_all n (λ i j. not (p i j)) e'))
  flatten-chosen opened f g zero s p e e' hashes h k k' = (refl, refl)
  flatten-chosen opened f g (suc n) s p e e' hashes h k k' =
      let first = chosen 8 (p Fin.zero) (e Fin.zero) in
      let first' = chosen 8 (λ j. not (p Fin.zero j)) (e' Fin.zero) in
      let (on, pre) =
        hashes-chosen opened f g 8 s (p Fin.zero) (e Fin.zero) (e' Fin.zero) (hashes Fin.zero)
          (flatten (to_list n (rest hashes)))
          (λ j. h Fin.zero j ∙ ap (contains_key opened) (omega arith)) (k Fin.zero) (k' Fin.zero) in
      let (on', pre') =
        flatten-chosen opened f g n (s + 8) (λ i. p (Fin.suc i)) (rest e) (rest e') (rest hashes)
          (λ i j. h (Fin.suc i) j ∙ ap (contains_key opened) (omega arith)) (λ i. k (Fin.suc i))
          (λ i. k' (Fin.suc i)) in
      (
        on
            ∙ ap (λ l. map f first ++ l) on'
            ∙ sym (map-append f first (chosen_all n (λ i. p (Fin.suc i)) (rest e))),
        pre
            ∙ ap (λ l. map g first' ++ l) pre'
            ∙ sym (map-append g first' (chosen_all n (λ i j. not (p (Fin.suc i) j)) (rest e'))),
      )

  module _ (circuit : List CombineOperation) (wit_gf2 : List Bool) (wit_z64 : List U64)
      (z64_count gf2_count : ℕ) where
    -- Every batch was run.
    pub execute_all-eq-ok :
        (n : ℕ) (keys : Array (Array Key packed) n) {reps : Array Executed n}
        → execute_all circuit wit_gf2 wit_z64 z64_count gf2_count n keys ≡ ok reps
        → (i : Fin n) → execute circuit wit_gf2 wit_z64 z64_count gf2_count (keys i) ≡ ok (reps i)
    unfolding execute_all
    execute_all-eq-ok (suc n) keys {reps} e i =
        let (first, e₁, e₂) =
          >>=-eq-ok (execute circuit wit_gf2 wit_z64 z64_count gf2_count (keys Fin.zero)) _ e in
        let (more, e₃, e₄) =
          >>=-eq-ok (execute_all circuit wit_gf2 wit_z64 z64_count gf2_count n (rest keys)) _ e₂ in
        each (λ i. execute circuit wit_gf2 wit_z64 z64_count gf2_count (keys i)) first more e₁
          (execute_all-eq-ok n (rest keys) e₃) i
        ∙ ap (λ r. ok (r i)) (ok_injective e₄)
      where
        each :
            {n : ℕ} (run : Fin (suc n) → Outcome Executed) (first : Executed)
            (more : Array Executed n)
            → run Fin.zero ≡ ok first
            → ((i : Fin n) → run (Fin.suc i) ≡ ok (more i))
            → (i : Fin (suc n)) → run i ≡ ok (push_front first more i)
        each run first more e h Fin.zero = e
        each run first more e h (Fin.suc i) = h i
    execute_all-eq-ok zero keys e i = elim i [ ]

    module _ (keys : Array (Array Key packed) packed_reps) (reps : Array Executed packed_reps)
        (ran : (i : Fin packed_reps)
          → execute circuit wit_gf2 wit_z64 z64_count gf2_count (keys i) ≡ ok (reps i))
        (opened : Openings) where
      abbrev is_opened : Fin packed_reps → Fin packed → Bool
      is_opened i j = ltb (opening_to_packed opened i j) players

      abbrev online_entry : Fin packed_reps → Fin packed → Entry OpenOnline b.Digest
      online_entry i j = record {
        gf2 = opening domain_gf2 (reps i).1 (opening_to_packed opened i) j;
        z64 = opening domain_z64 (reps i).2 (opening_to_packed opened i) j;
        hash = (reps i).0 j;
      }

      abbrev preprocessing_entry : Fin packed_reps → Fin packed → Entry OpenPreprocessing b.Digest
      preprocessing_entry i j = record {
        gf2 = preprocessing_opening domain_gf2 (reps i).1 j;
        z64 = preprocessing_opening domain_z64 (reps i).2 j;
        hash = (reps i).0 j;
      }

      abbrev pub online_entries : List (Entry OpenOnline b.Digest)
      online_entries = chosen_all packed_reps is_opened online_entry

      abbrev pub preprocessing_entries : List (Entry OpenPreprocessing b.Digest)
      preprocessing_entries =
          chosen_all packed_reps (λ i j. not (is_opened i j)) preprocessing_entry

      pub online_entries-All :
          All (IsOpened circuit wit_gf2 wit_z64 z64_count gf2_count) online_entries
      online_entries-All =
          chosen_all-All (IsOpened circuit wit_gf2 wit_z64 z64_count gf2_count) packed_reps
            is_opened online_entry
            λ i j h.
              let below = less (opening_to_packed opened i j) h in
              record {
                keys = keys i;
                executed = reps i;
                ran = ran i;
                rep = j;
                omit = fin players (opening_to_packed opened i j) below;
                omits = opening_to_packed opened i;
                omitted = sym (val-fin players (opening_to_packed opened i j) below);
                gf2 = refl;
                z64 = refl;
                hash = refl;
              }
        where
          less : (n : ℕ) → ltb n players ≡ true → n < players
          less n h = ground (arith, h)

      pub preprocessing_entries-All :
          All (IsRevealed circuit wit_gf2 wit_z64 z64_count gf2_count) preprocessing_entries
      preprocessing_entries-All =
          chosen_all-All (IsRevealed circuit wit_gf2 wit_z64 z64_count gf2_count) packed_reps
            (λ i j. not (is_opened i j)) preprocessing_entry
            λ i j h. record {
              keys = keys i;
              executed = reps i;
              ran = ran i;
              rep = j;
              gf2 = refl;
              z64 = refl;
              hash = refl;
            }

      pub open_all-entries :
          (open_all domain_gf2 (λ i. (reps i).1) opened ≡ record {
            online = map (λ e. e.gf2) online_entries;
            preprocessing = map (λ e. e.gf2) preprocessing_entries;
          })
          × (open_all domain_z64 (λ i. (reps i).2) opened ≡ record {
            online = map (λ e. e.z64) online_entries;
            preprocessing = map (λ e. e.z64) preprocessing_entries;
          })
      unfolding open_all
      open_all-entries = (
        collect-chosen domain_gf2 (λ (e : Entry OpenOnline b.Digest). e.gf2)
            (λ (e : Entry OpenPreprocessing b.Digest). e.gf2) packed_reps (λ i. (reps i).1)
            (opening_to_packed opened) online_entry preprocessing_entry (λ i. refl) (λ i. refl),
        collect-chosen domain_z64 (λ (e : Entry OpenOnline b.Digest). e.z64)
            (λ (e : Entry OpenPreprocessing b.Digest). e.z64) packed_reps (λ i. (reps i).2)
            (opening_to_packed opened) online_entry preprocessing_entry (λ i. refl) (λ i. refl),
      )

      -- The hashes of the entries are those that the challenge sorts out.
      pub hashes-entries :
          All (λ entry. entry.1 < players) opened
          → (online_of opened 0 (flatten (to_list packed_reps (λ i. (reps i).0)))
              ≡ map (λ e. e.hash) online_entries)
            × (preprocessing_of opened 0 (flatten (to_list packed_reps (λ i. (reps i).0)))
                ≡ map (λ e. e.hash) preprocessing_entries)
      hashes-entries valid =
          flatten-chosen opened (λ (e : Entry OpenOnline b.Digest). e.hash)
            (λ (e : Entry OpenPreprocessing b.Digest). e.hash) packed_reps 0 is_opened online_entry
            preprocessing_entry (λ i. (reps i).0)
            (λ i j.
              opening_to_packed-contains_key opened valid i j
              ∙ ap (contains_key opened) (omega arith))
            (λ i j. refl) (λ i j. refl)
