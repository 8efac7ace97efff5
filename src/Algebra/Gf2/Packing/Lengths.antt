-- ===== src/Algebra/Gf2/Packing/Lengths.antt =====
-- algebra/gf2: what `unpack` and `unpack_selected` do on streams of any lengths.
use reverie_ppr.Prelude.{
  ℕ, zero, suc, ◌+◌, ◌*◌, ◌<◌, ◌≤◌, ◌≡◌, ◌≢◌, ◌⊎◌, inl, inr, ◌==◌, ◌&&◌, refl, sym, ◌∙◌, ap, arith,
  Bool, true, false, Bool-cases, not, List, [], ◌∷◌, ◌++◌, append_assoc, append-nil, length-append,
  Fin, Array, val, val-lt, to_list, drop, length, leb, ltb, all, all→, →all, ok, panic,
  out_of_bounds, unequal_lengths, if◌then◌else◌,
}
use reverie_ppr.Ring.Sum.{rest}
use reverie_ppr.Algebra.Gf2.{ReconGf2, ShareGf2}
use reverie_ppr.Algebra.Gf2.Transpose.{byte_to_shares_avx2}
use reverie_ppr.Algebra.Gf2.Pack.{
  unpack_byte, unpack_loop, unpack, copy_shares, unpack_selected_loop, unpack_selected, head,
  is_empty,
}
use reverie_ppr.Algebra.Gf2.Packing.Streams.{length-drop}

-- An element that fails the test of `all`.
counterexample :
    {A : Type 0} (n : ℕ) (p : A → Bool) (a : Array A n)
    → all n p a ≡ false
    → (r : Fin n) × (p (a r) ≡ false)
counterexample zero p a h = cc
counterexample (suc n) p a h = elim (Bool-cases (p (a Fin.zero))) [
  | inr fails ↦ (Fin.zero, fails)
  | inl passes ↦
      let (r, e) = counterexample n p (rest a) (sym (ap (λ b. b && all n p (rest a)) passes) ∙ h) in
      (Fin.suc r, e)
]

length-to_list : {A : Type 0} (n : ℕ) (a : Array A n) → length (to_list n a) ≡ n
length-to_list zero a = refl
length-to_list (suc n) a = ap suc (length-to_list n (rest a))

is_empty-false : (xs : List ℕ) → 0 < length xs → not (is_empty xs) ≡ true
is_empty-false [] h = absurd (omega arith)
is_empty-false (x ∷ xs) h = refl

is_empty-length : (xs : List ℕ) → not (is_empty xs) ≡ true → 0 < length xs
is_empty-length [] h = cc
is_empty-length (x ∷ xs) h = omega arith

-- The elements of so many rounds: in each, eight from the bytes at the heads of the streams.
abbrev pub elements : ℕ → Array (List ℕ) 8 → List ReconGf2
elements zero src = []
elements (suc n) src =
    to_list 8 (unpack_byte (λ r. head (src r))) ++ elements n (λ r. drop 1 (src r))

length-elements : (n : ℕ) (src : Array (List ℕ) 8) → length (elements n src) ≡ 8 * n
length-elements zero src = refl
length-elements (suc n) src =
    let first = to_list 8 (unpack_byte (λ r. head (src r))) in
    let more = elements n (λ r. drop 1 (src r)) in
    omega (
      arith,
      length-append first more,
      length-to_list 8 (unpack_byte (λ r. head (src r))),
      length-elements n (λ r. drop 1 (src r)),
    )

unpack_loop-long :
    (n : ℕ) (dst : List ReconGf2) (src : Array (List ℕ) 8)
    → ((r : Fin 8) → n ≤ length (src r))
    → unpack_loop n dst src ≡ ok (dst ++ elements n src)
unfolding unpack_loop
unpack_loop-long zero dst src long = ap ok (sym (append-nil dst))
unpack_loop-long (suc n) dst src long =
    let elems = to_list 8 (unpack_byte (λ r. head (src r))) in
    let rest_long : (r : Fin 8) → n ≤ length (drop 1 (src r)) =
      λ r. omega (arith, length-drop 1 (src r), long r) in
    rw (→all 8 (λ s. not (is_empty s)) src (λ r. is_empty-false (src r) (omega (arith, long r)))) (
      unpack_loop-long n (dst ++ elems) (λ r. drop 1 (src r)) rest_long
      ∙ ap ok (append_assoc dst elems (elements n (λ r. drop 1 (src r)))))

unpack_loop-short :
    (n : ℕ) (dst : List ReconGf2) (src : Array (List ℕ) 8) (r : Fin 8)
    → length (src r) < n
    → unpack_loop n dst src ≡ panic out_of_bounds
unfolding unpack_loop
unpack_loop-short zero dst src r short = absurd (omega arith)
unpack_loop-short (suc n) dst src r short = elim (Bool-cases (all 8 (λ s. not (is_empty s)) src)) [
  | inl some ↦
      let positive = is_empty-length (src r) (all→ (λ s. not (is_empty s)) src some r) in
      rw some (
        unpack_loop-short n _ (λ r. drop 1 (src r)) r
          (omega (arith, length-drop 1 (src r), positive, short)))
  | inr none ↦ rw none
]

-- In the domain over bits, on any streams, where no stream is shorter than the first, `unpack`
-- appends for each byte of the first stream, in order, the eight elements of the bytes of all
-- streams at its place, and these are eight times as many as the first stream has bytes; and where
-- some stream is shorter than the first, it panics with an index out of bounds.
pub unpack-ok_or_panic :
    (dst : List ReconGf2) (src : Array (List ℕ) 8)
    → (unpack dst src ≡ (
        if all 8 (λ s. leb (length (src Fin.zero)) (length s)) src
        then ok (dst ++ elements (length (src Fin.zero)) src)
        else panic out_of_bounds))
      × (length (elements (length (src Fin.zero)) src) ≡ 8 * length (src Fin.zero))
unfolding unpack
unpack-ok_or_panic dst src =
    let n = length (src Fin.zero) in
    (
      elim (Bool-cases (all 8 (λ s. leb n (length s)) src)) [
        | inl long ↦ rw long (
            unpack_loop-long n dst src
              λ r. below n (length (src r)) (all→ (λ s. leb n (length s)) src long r))
        | inr short ↦
            let (r, e) = counterexample 8 (λ s. leb n (length s)) src short in
            rw short (unpack_loop-short n dst src r (above n (length (src r)) e))
      ],
      length-elements n src,
    )
  where
    below : (a b : ℕ) → leb a b ≡ true → a ≤ b
    below a b h = ground (arith, h)

    above : (a b : ℕ) → leb a b ≡ false → b < a
    above a b h = ground (arith, h)

length-unpack_selected_loop :
    (n : ℕ) (dst : List ShareGf2) (src : Array (List ℕ) 8) (idx : Array ℕ 8) (tmp : ℕ → ℕ)
    → (xs : List ShareGf2) × (unpack_selected_loop n dst src idx tmp ≡ dst ++ xs)
      × (length xs ≡ 8 * n)
unfolding unpack_selected_loop
length-unpack_selected_loop zero dst src idx tmp = ([], sym (append-nil dst), refl)
length-unpack_selected_loop (suc n) dst src idx tmp =
    let written = copy_shares 8 idx (λ j. head (src j)) tmp in
    let shares = to_list 8 (byte_to_shares_avx2 written) in
    let (xs, e, size) =
      length-unpack_selected_loop n (dst ++ shares) (λ j. drop 1 (src j)) idx written in
    (
      shares ++ xs,
      e ∙ append_assoc dst shares xs,
      omega (arith, size, length-append shares xs, length-to_list 8 (byte_to_shares_avx2 written)),
    )

-- In the domain over bits, where every selected number is a player, no write of `unpack_selected`
-- is outside the array, whatever the streams are: it appends eight shares for each byte of the
-- first stream, or some stream has another length than the first and the assertion on the lengths
-- panics.
pub unpack_selected-safe :
    (dst : List ShareGf2) (src : Array (List ℕ) 8) (selected : Array ℕ 8)
    → ((r : Fin 8) → selected r < 8)
    → ((xs : List ShareGf2) × (unpack_selected dst src selected ≡ ok (dst ++ xs))
        × (length xs ≡ 8 * length (src Fin.zero)))
      ⊎ ((r : Fin 8) × (length (src r) ≢ length (src Fin.zero))
          × (unpack_selected dst src selected ≡ panic unequal_lengths))
unfolding unpack_selected
unpack_selected-safe dst src selected players =
    let n = length (src Fin.zero) in
    let idx : Array ℕ 8 = λ j. selected j + val j * 8 in
    elim (Bool-cases (all 8 (λ s. n == length s) src)) [
      | inr unequal ↦
          let (r, e) = counterexample 8 (λ s. n == length s) src unequal in
          inr (r, (λ same. differ n (length (src r)) e same), rw unequal refl)
      | inl equal ↦ elim (Bool-cases (n == 0)) [
        | inl none ↦
            inl ([], rw (equal, none) (ap ok (sym (append-nil dst))), omega (arith, empty n none))
        | inr some ↦
            let (xs, e, size) = length-unpack_selected_loop n dst src idx (λ _. 0) in
            let inside = →all 8 (λ k. ltb k 64) idx (λ r. ground (arith, players r, val-lt r)) in
            inl (xs, rw (equal, some, inside) (ap ok e), size)
      ]
    ]
  where
    differ : (a b : ℕ) → (a == b) ≡ false → b ≡ a → ⊥
    differ a b e h = absurd (ground (arith, e, h))

    empty : (n : ℕ) → (n == 0) ≡ true → n ≡ 0
    empty n e = ground (arith, e)
