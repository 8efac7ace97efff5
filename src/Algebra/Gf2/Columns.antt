-- ===== src/Algebra/Gf2/Columns.antt =====
-- algebra/gf2/domain.rs: each bit of a transposed share.
use reverie_ppr.Prelude.{
  ℕ, zero, suc, ◌+◌, ◌-◌, ◌<◌, ◌≡◌, refl, sym, ◌∙◌, ap, ap₂, arith, Bool, ◌||◌, Fin, val, val-lt,
  ltb, Bool-cases, inl, inr,
}
use reverie_ppr.Bits.{test_bit}
use reverie_ppr.Word.{U64, wrap}
use reverie_ppr.Word.Bits.{bit, u64_or, u64_shl, bit-u64_or, U64_bits_ext}
use reverie_ppr.Algebra.Gf2.Boolean.{or-false}
use reverie_ppr.Algebra.Gf2.Transpose.{
  Register, set_epi8, movemask_epi8, add_epi8, avx2_loop, sse2_loop, byte_to_shares_avx2,
  byte_to_shares_sse2,
}
use reverie_ppr.Algebra.Gf2.Registers.{
  doubled, top_bit-doubled, mask_bit, mask_bit_above, mask_bit_below, bottom_bit, bottom_bit_above,
}

-- The share that a round writes.
abbrev avx2_word : Register → Register → U64
avx2_word fst snd = u64_or (u64_shl (wrap (movemask_epi8 32 fst)) 32) (wrap (movemask_epi8 32 snd))

avx2_loop-doubled :
    (n : ℕ) (fst snd : Register) (j : Fin n)
    → avx2_loop n fst snd j ≡ avx2_word (doubled (val j) fst) (doubled (val j) snd)
unfolding avx2_loop doubled
avx2_loop-doubled zero fst snd j = elim j [ ]
avx2_loop-doubled (suc n) fst snd Fin.zero = refl
avx2_loop-doubled (suc n) fst snd (Fin.suc j) =
    avx2_loop-doubled n (add_epi8 fst fst) (add_epi8 snd snd) j

abbrev sse2_word : Register → Register → Register → Register → U64
sse2_word a b c d =
    u64_or
      (u64_or
        (u64_or (u64_shl (wrap (movemask_epi8 16 a)) 48) (u64_shl (wrap (movemask_epi8 16 b)) 32))
        (u64_shl (wrap (movemask_epi8 16 c)) 16))
      (wrap (movemask_epi8 16 d))

sse2_loop-doubled :
    (n : ℕ) (a b c d : Register) (j : Fin n)
    → sse2_loop n a b c d j
      ≡ sse2_word (doubled (val j) a) (doubled (val j) b) (doubled (val j) c) (doubled (val j) d)
unfolding sse2_loop doubled
sse2_loop-doubled zero a b c d j = elim j [ ]
sse2_loop-doubled (suc n) a b c d Fin.zero = refl
sse2_loop-doubled (suc n) a b c d (Fin.suc j) =
    sse2_loop-doubled n (add_epi8 a a) (add_epi8 b b) (add_epi8 c c) (add_epi8 d d) j

bit-sse2_word :
    (i : ℕ) (h : i < 64) (a b c d : Register) (x y z w : Bool)
    → bit i (u64_shl (wrap (movemask_epi8 16 a)) 48) ≡ x
    → bit i (u64_shl (wrap (movemask_epi8 16 b)) 32) ≡ y
    → bit i (u64_shl (wrap (movemask_epi8 16 c)) 16) ≡ z
    → bit i (wrap (movemask_epi8 16 d)) ≡ w
    → bit i (sse2_word a b c d) ≡ (((x || y) || z) || w)
bit-sse2_word i h a b c d x y z w p q r s =
    bit-u64_or i h (u64_or (u64_or a' b') c') d'
    ∙ ap₂ ◌||◌ (bit-u64_or i h (u64_or a' b') c' ∙ ap₂ ◌||◌ (bit-u64_or i h a' b' ∙ ap₂ ◌||◌ p q) r)
        s
  where
    a' : U64
    a' = u64_shl (wrap (movemask_epi8 16 a)) 48

    b' : U64
    b' = u64_shl (wrap (movemask_epi8 16 b)) 32

    c' : U64
    c' = u64_shl (wrap (movemask_epi8 16 c)) 16

    d' : U64
    d' = wrap (movemask_epi8 16 d)

bit-avx2_word :
    (i : ℕ) (h : i < 64) (a b : Register) (x y : Bool)
    → bit i (u64_shl (wrap (movemask_epi8 32 a)) 32) ≡ x
    → bit i (wrap (movemask_epi8 32 b)) ≡ y
    → bit i (avx2_word a b) ≡ (x || y)
bit-avx2_word i h a b x y p q =
    bit-u64_or i h (u64_shl (wrap (movemask_epi8 32 a)) 32) (wrap (movemask_epi8 32 b))
    ∙ ap₂ ◌||◌ p q

module _ (src : ℕ → ℕ) (j : Fin 8) (i : ℕ) (h : i < 64) where
  -- The register of the bytes from `lo` on, in round `j`.
  abbrev part : ℕ → ℕ → Register
  part n lo = doubled (val j) (set_epi8 n lo src)

  column :
      (v : Register) (lane : ℕ)
      → v lane ≡ src (63 - i)
      → test_bit 7 (doubled (val j) v lane) ≡ test_bit (7 - val j) (src (63 - i))
  column v lane e = top_bit-doubled (val j) v lane (val-lt j) ∙ ap (test_bit (7 - val j)) e

  loaded : (n lo lane : ℕ) → lo + (n - 1 - lane) ≡ 63 - i → set_epi8 n lo src lane ≡ src (63 - i)
  unfolding set_epi8
  loaded n lo lane e = ap src e

  -- Share `j` has bit `7 - j` of every byte, the first byte at the top.
  pub bit-byte_to_shares_avx2 :
      bit i (byte_to_shares_avx2 src j) ≡ test_bit (7 - val j) (src (63 - i))
  unfolding byte_to_shares_avx2
  bit-byte_to_shares_avx2 =
      ap (bit i) (avx2_loop-doubled 8 (set_epi8 32 0 src) (set_epi8 32 32 src) j)
      ∙ elim (Bool-cases (ltb i 32)) [
        | inl low ↦
            bit-avx2_word i h (part 32 0) (part 32 32) _ _
              (mask_bit_below 32 32 i (part 32 0) h (ground (arith, low)))
              (bottom_bit 32 i (part 32 32) h (ground (arith, low)))
            ∙ column (set_epi8 32 32 src) i (loaded 32 32 i (ground (arith, low)))
        | inr high ↦
            bit-avx2_word i h (part 32 0) (part 32 32) _ _
              (mask_bit 32 32 i (part 32 0) h (ground (arith, high)) (omega arith))
              (bottom_bit_above 32 i (part 32 32) h (ground (arith, high)))
            ∙ or-false _
            ∙ column (set_epi8 32 0 src) (i - 32) (loaded 32 0 (i - 32) (ground (arith, high)))
      ]

  pub bit-byte_to_shares_sse2 :
      bit i (byte_to_shares_sse2 src j) ≡ test_bit (7 - val j) (src (63 - i))
  unfolding byte_to_shares_sse2
  bit-byte_to_shares_sse2 =
      ap (bit i) (
        sse2_loop-doubled 8 (set_epi8 16 0 src) (set_epi8 16 16 src) (set_epi8 16 32 src)
          (set_epi8 16 48 src) j)
      ∙ elim (Bool-cases (ltb i 16)) [
        | inl low ↦
            bit-sse2_word i h (part 16 0) (part 16 16) (part 16 32) (part 16 48) _ _ _ _
              (mask_bit_below 16 48 i (part 16 0) h (ground (arith, low)))
              (mask_bit_below 16 32 i (part 16 16) h (ground (arith, low)))
              (mask_bit_below 16 16 i (part 16 32) h (ground (arith, low)))
              (bottom_bit 16 i (part 16 48) h (ground (arith, low)))
            ∙ column (set_epi8 16 48 src) i (loaded 16 48 i (ground (arith, low)))
        | inr above16 ↦ elim (Bool-cases (ltb i 32)) [
          | inl low ↦
              bit-sse2_word i h (part 16 0) (part 16 16) (part 16 32) (part 16 48) _ _ _ _
                (mask_bit_below 16 48 i (part 16 0) h (ground (arith, low)))
                (mask_bit_below 16 32 i (part 16 16) h (ground (arith, low)))
                (mask_bit 16 16 i (part 16 32) h (ground (arith, above16)) (ground (arith, low)))
                (bottom_bit_above 16 i (part 16 48) h (ground (arith, above16)))
              ∙ or-false _
              ∙ column (set_epi8 16 32 src) (i - 16)
                  (loaded 16 32 (i - 16) (ground (arith, above16, low)))
          | inr above32 ↦ elim (Bool-cases (ltb i 48)) [
            | inl low ↦
                bit-sse2_word i h (part 16 0) (part 16 16) (part 16 32) (part 16 48) _ _ _ _
                  (mask_bit_below 16 48 i (part 16 0) h (ground (arith, low)))
                  (mask_bit 16 32 i (part 16 16) h (ground (arith, above32)) (ground (arith, low)))
                  (mask_bit_above 16 16 i (part 16 32) h (ground (arith, above32)))
                  (bottom_bit_above 16 i (part 16 48) h (ground (arith, above16)))
                ∙ or-false _
                ∙ or-false _
                ∙ column (set_epi8 16 16 src) (i - 32)
                    (loaded 16 16 (i - 32) (ground (arith, above32, low)))
            | inr above48 ↦
                bit-sse2_word i h (part 16 0) (part 16 16) (part 16 32) (part 16 48) _ _ _ _
                  (mask_bit 16 48 i (part 16 0) h (ground (arith, above48)) (omega arith))
                  (mask_bit_above 16 32 i (part 16 16) h (ground (arith, above48)))
                  (mask_bit_above 16 16 i (part 16 32) h (ground (arith, above32)))
                  (bottom_bit_above 16 i (part 16 48) h (ground (arith, above16)))
                ∙ or-false _
                ∙ or-false _
                ∙ or-false _
                ∙ column (set_epi8 16 0 src) (i - 48)
                    (loaded 16 0 (i - 48) (ground (arith, above48)))
          ]
        ]
      ]

-- The transpositions of 64 bytes by the two instruction sets, with four registers of 16 bytes and
-- with two of 32, write the same eight shares.
pub byte_to_shares_sse2-avx2 :
    (src : ℕ → ℕ) (j : Fin 8) → byte_to_shares_sse2 src j ≡ byte_to_shares_avx2 src j
byte_to_shares_sse2-avx2 src j =
    U64_bits_ext _ _
      λ i h. bit-byte_to_shares_sse2 src j i h ∙ sym (bit-byte_to_shares_avx2 src j i h)
