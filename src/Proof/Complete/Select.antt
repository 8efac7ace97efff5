-- ===== src/Proof/Complete/Select.antt =====
-- proof/mod.rs and transcript/prover.rs: `extract` over all batches, as a selection of repetitions.
use reverie_ppr.Prelude.{
  map-append, ℕ, zero, suc, ◌+◌, ◌≡◌, refl, sym, ◌∙◌, ap, ap₂, arith, Bool, true, not, Bool-cases,
  inl, inr, List, [], ◌∷◌, ◌++◌, map, Fin, Array, val, to_list, ltb, if◌then◌else◌, All, All-append,
}
use reverie_ppr.Ring.Sum.{rest}
use reverie_ppr.Crypto.{StreamCipher, Blake3}
use reverie_ppr.Algebra.{Domain, players, packed}
use reverie_ppr.Transcript.Prover.{ProverTranscript}
use reverie_ppr.Transcript.Online.{OpenOnline}
use reverie_ppr.Transcript.Preprocess.{OpenPreprocessing}
use reverie_ppr.Transcript.Extract.{extract_loop, extract, opening, preprocessing_opening}
use reverie_ppr.Proof.{Openings, contains_key}
use reverie_ppr.Proof.Order.{online_of, preprocessing_of}
use reverie_ppr.Proof.Prove.{collect}

module _ {E : Type 0} where
  -- The entries that pass, and the others.
  abbrev pub chosen : (n : ℕ) → (Fin n → Bool) → Array E n → List E
  chosen zero p e = []
  chosen (suc n) p e =
      let more = chosen n (λ i. p (Fin.suc i)) (rest e) in
      if p Fin.zero then e Fin.zero ∷ more else more

  abbrev pub chosen_all : (n : ℕ) → (Fin n → Fin packed → Bool) → Array (Array E packed) n → List E
  chosen_all zero p e = []
  chosen_all (suc n) p e =
      chosen packed (p Fin.zero) (e Fin.zero) ++ chosen_all n (λ i. p (Fin.suc i)) (rest e)

  chosen-All :
      (P : E → Type 0) (n : ℕ) (p : Fin n → Bool) (e : Array E n)
      → ((i : Fin n) → p i ≡ true → P (e i))
      → All P (chosen n p e)
  chosen-All P zero p e h = tt
  chosen-All P (suc n) p e h =
      let more = chosen-All P n (λ i. p (Fin.suc i)) (rest e) (λ i. h (Fin.suc i)) in
      elim (Bool-cases (p Fin.zero)) [
        | inl taken ↦ rw taken (h Fin.zero taken, more)
        | inr left ↦ rw left more
      ]

  pub chosen_all-All :
      (P : E → Type 0) (n : ℕ) (p : Fin n → Fin packed → Bool) (e : Array (Array E packed) n)
      → ((i : Fin n) (j : Fin packed) → p i j ≡ true → P (e i j))
      → All P (chosen_all n p e)
  chosen_all-All P zero p e h = tt
  chosen_all-All P (suc n) p e h =
      All-append P _ _ (chosen-All P packed (p Fin.zero) (e Fin.zero) (h Fin.zero))
        (chosen_all-All P n (λ i. p (Fin.suc i)) (rest e) (λ i. h (Fin.suc i)))

module _ ⦃c : StreamCipher⦄ ⦃b : Blake3⦄ (D : Domain) where
  extract_loop-chosen :
      {E F : Type 0} (f : E → OpenOnline) (g : F → OpenPreprocessing) (n : ℕ) (omits : Array ℕ n)
      (e : Array E n) (e' : Array F n)
      → extract_loop D n omits (λ i. f (e i)) (λ i. g (e' i)) ≡ (
        map f (chosen n (λ i. ltb (omits i) players) e),
        map g (chosen n (λ i. not (ltb (omits i) players)) e'),
      )
  unfolding extract_loop
  extract_loop-chosen f g zero omits e e' = refl
  extract_loop-chosen f g (suc n) omits e e' =
      let more = extract_loop-chosen f g n (rest omits) (rest e) (rest e') in
      elim (Bool-cases (ltb (omits Fin.zero) players)) [
        | inl taken ↦ rw (taken, more) refl
        | inr left ↦ rw (left, more) refl
      ]

  -- The openings of all batches are those of the chosen repetitions.
  pub collect-chosen :
      {E F : Type 0} (f : E → OpenOnline) (g : F → OpenPreprocessing) (n : ℕ)
      (transcripts : Array (ProverTranscript D) n) (omits : Array (Array ℕ packed) n)
      (e : Array (Array E packed) n) (e' : Array (Array F packed) n)
      → ((i : Fin n) → (λ j. f (e i j)) ≡ opening D (transcripts i) (omits i))
      → ((i : Fin n) → (λ j. g (e' i j)) ≡ preprocessing_opening D (transcripts i))
      → collect (to_list n (λ i. extract D (transcripts i) (omits i))) ≡ record {
        online = map f (chosen_all n (λ i j. ltb (omits i j) players) e);
        preprocessing = map g (chosen_all n (λ i j. not (ltb (omits i j) players)) e');
      }
  unfolding collect extract
  collect-chosen f g zero transcripts omits e e' h h' = refl
  collect-chosen f g (suc n) transcripts omits e e' h h' =
      let more =
        collect-chosen f g n (rest transcripts) (rest omits) (rest e) (rest e') (λ i. h (Fin.suc i))
          (λ i. h' (Fin.suc i)) in
      let first =
        ap₂ (extract_loop D packed (omits Fin.zero)) (sym (h Fin.zero)) (sym (h' Fin.zero))
        ∙ extract_loop-chosen f g packed (omits Fin.zero) (e Fin.zero) (e' Fin.zero) in
      ap₂ (λ x y. record { online = x.0 ++ y.online; preprocessing = x.1 ++ y.preprocessing }) first
        more
      ∙ λ k. record {
        online =
            (sym (
                map-append f (chosen packed (λ j. ltb (omits Fin.zero j) players) (e Fin.zero))
                  (chosen_all n (λ i j. ltb (rest omits i j) players) (rest e))))
              k;
        preprocessing =
            (sym (
                map-append g
                  (chosen packed (λ j. not (ltb (omits Fin.zero j) players)) (e' Fin.zero))
                  (chosen_all n (λ i j. not (ltb (rest omits i j) players)) (rest e'))))
              k;
      }

-- The hashes of the repetitions from `s` on that are opened online, and of the others.
module _ {A E F : Type 0} (opened : Openings) (f : E → A) (g : F → A) where
  pub hashes-chosen :
      (n s : ℕ) (p : Fin n → Bool) (e : Array E n) (e' : Array F n) (hashes : Array A n)
      (more : List A)
      → ((i : Fin n) → p i ≡ contains_key opened (s + val i))
      → ((i : Fin n) → f (e i) ≡ hashes i)
      → ((i : Fin n) → g (e' i) ≡ hashes i)
      → (online_of opened s (to_list n hashes ++ more)
          ≡ map f (chosen n p e) ++ online_of opened (s + n) more)
        × (preprocessing_of opened s (to_list n hashes ++ more)
            ≡ map g (chosen n (λ i. not (p i)) e') ++ preprocessing_of opened (s + n) more)
  hashes-chosen zero s p e e' hashes more h k k' = (
    ap (λ m. online_of opened m more) (omega arith),
    ap (λ m. preprocessing_of opened m more) (omega arith),
  )
  hashes-chosen (suc n) s p e e' hashes more h k k' =
      let (on, pre) =
        hashes-chosen n (s + 1) (λ i. p (Fin.suc i)) (rest e) (rest e') (rest hashes) more
          (λ i. h (Fin.suc i) ∙ ap (contains_key opened) (next i)) (λ i. k (Fin.suc i))
          (λ i. k' (Fin.suc i)) in
      let on' =
        on
        ∙ ap (λ m. map f (chosen n (λ i. p (Fin.suc i)) (rest e)) ++ online_of opened m more)
            later in
      let pre' =
        pre
        ∙ ap
            (λ m.
              map g (chosen n (λ i. not (p (Fin.suc i))) (rest e'))
              ++ preprocessing_of opened m more)
            later in
      let first : contains_key opened s ≡ p Fin.zero =
        sym (h Fin.zero ∙ ap (contains_key opened) (omega arith)) in
      elim (Bool-cases (p Fin.zero)) [
        | inl taken ↦ rw (first ∙ taken, taken) (ap₂ ◌∷◌ (sym (k Fin.zero)) on', pre')
        | inr left ↦ rw (first ∙ left, left) (on', ap₂ ◌∷◌ (sym (k' Fin.zero)) pre')
      ]
    where
      later : s + 1 + n ≡ s + suc n
      later = omega arith

      next : (i : Fin n) → s + val (Fin.suc i) ≡ s + 1 + val i
      next i = omega arith
