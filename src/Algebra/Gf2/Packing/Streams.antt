-- ===== src/Algebra/Gf2/Packing/Streams.antt =====
-- algebra/gf2: the bytes that the stream of one repetition is given, eight elements in each.
use reverie_ppr.Prelude.{
  ℕ, zero, suc, ◌-◌, ◌<◌, ◌≡◌, refl, ◌∙◌, ap, arith, Bool, true, false, List, [], ◌∷◌, ◌++◌,
  append_assoc, Fin, Array, same, same_refl, to_list, literal, drop, length, All, Bool-cases, inl,
  inr, Feeds,
}
use reverie_ppr.Ring.Sum.{rest}
use reverie_ppr.Word.{U64}
use reverie_ppr.Algebra.Gf2.Pack.{shifts_of, pack_all, pack_chunks, repetitions}

module _ (pack : ℕ → Array U64 8 → ℕ) where
  abbrev pub stream : ℕ → U64 → ℕ → List U64 → List ℕ
  stream zero default shift src = pack shift (literal 8 default src) ∷ []
  stream (suc n) default shift src =
      pack shift (literal 8 default src) ∷ stream n default shift (drop 8 src)

  pub length-stream :
      (n : ℕ) (default : U64) (shift : ℕ) (src : List U64)
      → length (stream n default shift src) ≡ suc n
  length-stream zero default shift src = refl
  length-stream (suc n) default shift src = ap suc (length-stream n default shift (drop 8 src))

  module _ (selected : Array Bool 8) (shift : Array ℕ 8) (src : Array U64 8) where
    -- The stream of a repetition is not changed by the entries of others.
    pack_all-absent :
        (i : Fin 8) (n : ℕ) (f : Fin n → Fin 8) (dst : Array (List ℕ) 8)
        → ((a : Fin n) → same i (f a) ≡ false)
        → pack_all pack dst src (shifts_of (to_list n f) selected shift) i ≡ dst i
    unfolding pack_all shifts_of
    pack_all-absent i ℕ.zero f dst other = refl
    pack_all-absent i (ℕ.suc n) f dst other = elim (Bool-cases (selected (f Fin.zero))) [
      | inl chosen ↦
          rw chosen (pack_all-absent i n (rest f) _ (λ a. other (Fin.suc a)) ∙ rw (other Fin.zero))
      | inr skipped ↦ rw skipped (pack_all-absent i n (rest f) dst (λ a. other (Fin.suc a)))
    ]

    -- Each repetition that is selected has one entry.
    pack_all-selected :
        (n : ℕ) (f : Fin n → Fin 8) (dst : Array (List ℕ) 8) (a : Fin n)
        → ((a b : Fin n) → same (f a) (f b) ≡ same a b)
        → selected (f a) ≡ true
        → pack_all pack dst src (shifts_of (to_list n f) selected shift) (f a)
          ≡ dst (f a) ++ pack (shift (f a)) src ∷ []
    unfolding pack_all shifts_of
    pack_all-selected (ℕ.suc n) f dst Fin.zero distinct h = rw h (
        pack_all-absent (f Fin.zero) n (rest f) _ (λ a. distinct Fin.zero (Fin.suc a))
        ∙ rw (same_refl (f Fin.zero)))
    pack_all-selected (ℕ.suc n) f dst (Fin.suc a) distinct h =
        elim (Bool-cases (selected (f Fin.zero))) [
          | inl chosen ↦ rw chosen (
              pack_all-selected n (rest f) _ a (λ x y. distinct (Fin.suc x) (Fin.suc y)) h
              ∙ rw (distinct (Fin.suc a) Fin.zero))
          | inr skipped ↦
              rw skipped
                (pack_all-selected n (rest f) dst a (λ x y. distinct (Fin.suc x) (Fin.suc y)) h)
        ]
    pack_all-selected ℕ.zero f dst a distinct h = elim a [ ]

  -- The stream of a selected repetition.
  pub pack_chunks-stream :
      (selected : Array Bool 8) (shift : Array ℕ 8) (i : Fin 8)
      → selected i ≡ true
      → (n : ℕ) (default : U64) (dst : Array (List ℕ) 8) (src : List U64)
      → pack_chunks pack n default dst src (shifts_of repetitions selected shift) i
        ≡ dst i ++ stream n default (shift i) src
  unfolding pack_chunks
  pack_chunks-stream selected shift i h ℕ.zero default dst src =
      pack_all-selected selected shift (literal 8 default src) 8 (λ r. r) dst i (λ a b. refl) h
  pack_chunks-stream selected shift i h (ℕ.suc n) default dst src =
      pack_chunks-stream selected shift i h n default _ (drop 8 src)
      ∙ ap (λ bytes. bytes ++ stream n default (shift i) (drop 8 src))
          (pack_all-selected selected shift (literal 8 default src) 8 (λ r. r) dst i (λ a b. refl)
            h)
      ∙ append_assoc (dst i) _ _

-- Eight results for the next eight elements, and then the others.
module _ {A B : Type 0} (R : A → B → Type 0) where
  pub Feeds-chunk :
      (n : ℕ) (default : A) (src : List A) (f : Array B n) (ys : List B)
      → ((k : Fin n) → R (literal n default src k) (f k))
      → Feeds R (drop n src) ys
      → Feeds R src (to_list n f ++ ys)
  Feeds-chunk ℕ.zero default src f ys h feeds = feeds
  Feeds-chunk (ℕ.suc n) default [] f ys h feeds = tt
  Feeds-chunk (ℕ.suc n) default (x ∷ src) f ys h feeds =
      (h Fin.zero, Feeds-chunk n default src (rest f) ys (λ k. h (Fin.suc k)) feeds)

module _ {A : Type 0} where
  pub drop-all : (n : ℕ) (xs : List A) → length xs < suc n → drop n xs ≡ []
  drop-all ℕ.zero [] h = refl
  drop-all ℕ.zero (x ∷ xs) h = absurd (omega arith)
  drop-all (ℕ.suc n) [] h = refl
  drop-all (ℕ.suc n) (x ∷ xs) h = drop-all n xs (omega arith)

  pub length-drop : (n : ℕ) (xs : List A) → length (drop n xs) ≡ length xs - n
  length-drop ℕ.zero xs = omega arith
  length-drop (ℕ.suc n) [] = omega arith
  length-drop (ℕ.suc n) (x ∷ xs) = omega (arith, length-drop n xs)

  pub All-drop : (P : A → Type 0) (n : ℕ) (xs : List A) → All P xs → All P (drop n xs)
  All-drop P ℕ.zero xs h = h
  All-drop P (ℕ.suc n) [] h = tt
  All-drop P (ℕ.suc n) (x ∷ xs) h = All-drop P n xs h.1
