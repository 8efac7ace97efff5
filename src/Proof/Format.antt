-- ===== src/Proof/Format.antt =====
-- proof/mod.rs: a proof that `Proof::new` assembles has the format that `Proof::verify` checks.
use reverie_ppr.Prelude.{
  ℕ, zero, suc, ◌+◌, ◌*◌, ◌<◌, ◌≤◌, ◌≡◌, ◌==◌, refl, sym, ◌∙◌, ap, ap₂, arith, Bool, true, false,
  ◌&&◌, ◌||◌, not, Bool-cases, inl, inr, [], ◌∷◌, length, length-append, Fin, Array, val, to_list,
  ltb, if◌then◌else◌, All,
}
use reverie_ppr.Ring.Sum.{rest}
use reverie_ppr.Crypto.{StreamCipher, Blake3}
use reverie_ppr.Algebra.{Domain, players, packed}
use reverie_ppr.Transcript.Prover.{ProverTranscript}
use reverie_ppr.Transcript.Online.{OpenOnline}
use reverie_ppr.Transcript.Preprocess.{OpenPreprocessing}
use reverie_ppr.Transcript.Extract.{extract_loop, extract, opening, preprocessing_opening}
use reverie_ppr.Proof.{
  Openings, online_reps, total_reps, packed_reps, opening_to_packed, contains_key, check_format,
}
use reverie_ppr.Proof.Order.{opening_to_packed-contains_key}
use reverie_ppr.Proof.Prove.{collect, open_all}

-- How many of the `n` numbers from `s` on pass a test.
unfoldable pub count : ℕ → ℕ → (ℕ → Bool) → ℕ
count zero s f = 0
count (suc n) s f = (if f s then 1 else 0) + count n (suc s) f

count-append : (m n s : ℕ) (f : ℕ → Bool) → count (m + n) s f ≡ count m s f + count n (m + s) f
unfolding count
count-append zero n s f =
    ap (λ k. count k s f) (zero_plus n)
    ∙ ap (λ k. count n k f) (sym (zero_plus s))
    ∙ sym (zero_plus (count n (0 + s) f))
  where
    zero_plus : (n : ℕ) → 0 + n ≡ n
    zero_plus n = omega arith
count-append (suc m) n s f =
    ap (λ k. count k s f) (shift m n)
    ∙ ap (λ t. (if f s then 1 else 0) + t)
        (count-append m n (suc s) f ∙ ap (λ t. count m (suc s) f + count n t f) (plus_suc m s))
    ∙ omega arith
  where
    plus_suc : (m s : ℕ) → m + suc s ≡ suc m + s
    plus_suc m s = omega arith

    shift : (m n : ℕ) → suc m + n ≡ suc (m + n)
    shift m n = omega arith

count-none : (n s : ℕ) → count n s (λ _. false) ≡ 0
unfolding count
count-none zero s = refl
count-none (suc n) s = omega (arith, count-none n (suc s))

module _ (f g : ℕ → Bool) (k : ℕ) (h : (x : ℕ) → g x ≡ ((k == x) || f x)) where
  count-above : (n s : ℕ) → k < s → count n s g ≡ count n s f
  unfolding count
  count-above zero s below = refl
  count-above (suc n) s below =
      ap₂ (λ b t. (if b then 1 else 0) + t) (h s ∙ ap (λ b. b || f s) (apart k s below))
        (count-above n (suc s) (omega arith))
    where
      apart : (k s : ℕ) → k < s → (k == s) ≡ false
      apart k s below = ground (arith, below)

  -- One more number passes.
  count-one : (n s : ℕ) → f k ≡ false → s ≤ k → k < s + n → count n s g ≡ suc (count n s f)
  unfolding count
  count-one zero s new low high = absurd (omega arith)
  count-one (suc n) s new low high = elim (Bool-cases (k == s)) [
    | inl here ↦
        let e : k ≡ s = ground (arith, here) in
        ap₂ (λ b t. (if b then 1 else 0) + t) (h s ∙ ap (λ b. b || f s) here)
          (count-above n (suc s) (omega arith))
        ∙ omega arith
        ∙ ap (λ b. suc ((if b then 1 else 0) + count n (suc s) f)) (sym new ∙ ap f e)
    | inr later ↦
        let e : s < k = ground (arith, later, low) in
        ap₂ (λ b t. (if b then 1 else 0) + t) (h s ∙ ap (λ b. b || f s) later)
          (count-one n (suc s) new (omega arith) (omega arith))
        ∙ omega arith
  ]

-- No repetition is named twice.
abbrev pub distinct : Openings → Bool
distinct [] = true
distinct ((k, v) ∷ opened) = not (contains_key opened k) && distinct opened

pub contains_key-cons :
    (k v : ℕ) (opened : Openings) (x : ℕ)
    → contains_key ((k, v) ∷ opened) x ≡ ((k == x) || contains_key opened x)
contains_key-cons k v opened x = elim (Bool-cases (k == x)) [
  | inl same ↦ rw same refl
  | inr other ↦ rw other refl
]

pub count-contains_key :
    (opened : Openings)
    → distinct opened ≡ true
    → All (λ entry. entry.0 < total_reps) opened
    → count total_reps 0 (contains_key opened) ≡ length opened
count-contains_key [] d valid = count-none total_reps 0
count-contains_key ((k, v) ∷ opened) d valid =
    let new : contains_key opened k ≡ false = ground (arith, d) in
    let d' : distinct opened ≡ true = ground (arith, d) in
    count-one (contains_key opened) (contains_key ((k, v) ∷ opened)) k
      (contains_key-cons k v opened) total_reps 0 new (omega arith) (omega (arith, valid.0))
    ∙ ap suc (count-contains_key opened d' valid.1)

module _ ⦃c : StreamCipher⦄ ⦃b : Blake3⦄ (D : Domain) where
  -- The repetitions of a batch that are opened online are those that pass.
  length-extract_loop :
      (n s : ℕ) (f : ℕ → Bool) (omits : Array ℕ n) (online : Array OpenOnline n)
      (preprocessing : Array OpenPreprocessing n)
      → ((i : Fin n) → ltb (omits i) players ≡ f (s + val i))
      → (length (extract_loop D n omits online preprocessing).0 ≡ count n s f)
        × (length (extract_loop D n omits online preprocessing).1 + count n s f ≡ n)
  unfolding extract_loop count
  length-extract_loop zero s f omits online preprocessing h = (refl, refl)
  length-extract_loop (suc n) s f omits online preprocessing h =
      let (on, pre) =
        length-extract_loop n (suc s) f (rest omits) (rest online) (rest preprocessing)
          λ i. h (Fin.suc i) ∙ ap f (omega arith) in
      let first : ltb (omits Fin.zero) players ≡ f s = h Fin.zero ∙ ap f (omega arith) in
      elim (Bool-cases (f s)) [
        | inl opened ↦ rw (first ∙ opened, opened) (omega (arith, on), omega (arith, pre))
        | inr closed ↦ rw (first ∙ closed, closed) (omega (arith, on), omega (arith, pre))
      ]

  -- So it is over several batches.
  length-collect :
      (n s : ℕ) (f : ℕ → Bool) (transcripts : Array (ProverTranscript D) n)
      (omits : Array (Array ℕ packed) n)
      → ((i : Fin n) (j : Fin packed) → ltb (omits i j) players ≡ f (s + (8 * val i + val j)))
      → (length (collect (to_list n (λ i. extract D (transcripts i) (omits i)))).online
          ≡ count (8 * n) s f)
        × (length (collect (to_list n (λ i. extract D (transcripts i) (omits i)))).preprocessing
              + count (8 * n) s f
            ≡ 8 * n)
  unfolding collect extract count
  length-collect zero s f transcripts omits h = (refl, refl)
  length-collect (suc n) s f transcripts omits h =
      let (on, pre) =
        length-collect n (8 + s) f (rest transcripts) (rest omits)
          λ i j. h (Fin.suc i) j ∙ ap f (omega arith) in
      let t = transcripts Fin.zero in
      let (on', pre') =
        length-extract_loop 8 s f (omits Fin.zero) (opening D t (omits Fin.zero))
          (preprocessing_opening D t) λ j. h Fin.zero j ∙ ap f (omega arith) in
      let batch =
        extract_loop D 8 (omits Fin.zero) (opening D t (omits Fin.zero))
          (preprocessing_opening D t) in
      let others = collect (to_list n (λ i. extract D (rest transcripts i) (rest omits i))) in
      let total = ap (λ k. count k s f) (eight_more n) ∙ count-append 8 (8 * n) s f in
      (
        omega (arith, on, on', total, length-append batch.0 others.online),
        omega (arith, pre, pre', total, length-append batch.1 others.preprocessing),
      )
    where
      eight_more : (n : ℕ) → 8 * suc n ≡ 8 + 8 * n
      eight_more n = omega arith

  pub open_all-check_format :
      (transcripts : Array (ProverTranscript D) packed_reps) (opened : Openings)
      → distinct opened ≡ true
      → All (λ entry. entry.0 < total_reps) opened
      → All (λ entry. entry.1 < players) opened
      → length opened ≡ online_reps
      → check_format (open_all D transcripts opened) ≡ true
  unfolding open_all check_format
  open_all-check_format transcripts opened d below valid size =
      let (on, pre) =
        length-collect packed_reps 0 (contains_key opened) transcripts (opening_to_packed opened)
          λ i j.
            opening_to_packed-contains_key opened valid i j
            ∙ ap (contains_key opened) (omega arith) in
      let all = count-contains_key opened d below ∙ size in
      two_lengths _ _ (count total_reps 0 (contains_key opened)) on pre all
    where
      two_lengths : (a p k : ℕ) → a ≡ k → p + k ≡ 256 → k ≡ 40 → ((a == 40) && (p == 216)) ≡ true
      two_lengths a p k h h' h'' = rw (h, h'') (rest p (omega (arith, h', h'')))
        where
          rest : (p : ℕ) → p ≡ 216 → (p == 216) ≡ true
          rest p e = ground (arith, e)
