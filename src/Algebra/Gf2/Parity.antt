-- ===== src/Algebra/Gf2/Parity.antt =====
-- algebra/gf2/domain.rs: `reconstruct` is the parity of each byte, spread over the byte.
use reverie_ppr.Prelude.{
  ℕ, ◌+◌, ◌-◌, ◌*◌, ◌/◌, ◌%◌, ◌≤◌, ◌<◌, ◌≡◌, refl, ◌∙◌, ap, ap₂, arith, Bool, true, false, ◌&&◌,
  ◌||◌, ◌==◌, Fin, val, ltb, Bool-cases, inl, inr,
}
use reverie_ppr.Ring.{Ring, ◌⊕◌, add-zero, add_left_comm}
use reverie_ppr.Ring.Sum.{total}
use reverie_ppr.Bits.{test_bit, xor}
use reverie_ppr.Word.{U64, wrap}
use reverie_ppr.Word.Bits.{
  bit, u64_xor, u64_or, u64_shr, u64_shl, bit-u64_xor, bit-u64_and, bit-u64_or, bit-u64_shr,
  bit-u64_shl, bit-u64_shl_low,
}
use reverie_ppr.Algebra.Gf2.{ShareGf2}
use reverie_ppr.Algebra.Gf2.Bytes.{base, agree→}
use reverie_ppr.Algebra.Gf2.Boolean.{bool_ring, or-false, and-false, and-true}
use reverie_ppr.Algebra.Gf2.Domain.{parity, fill, reconstruct}

-- Two orders of adding eight terms.
halves :
    {A : Type 0} ⦃r : Ring A⦄ (a b c d e f g h : A)
    → ((a ⊕ e) ⊕ (c ⊕ g)) ⊕ ((b ⊕ f) ⊕ (d ⊕ h))
      ≡ h ⊕ (g ⊕ (f ⊕ (e ⊕ (d ⊕ (c ⊕ (b ⊕ (a ⊕ r.zero)))))))
halves ⦃r⦄ a b c d e f g h = simp (add-zero a, r.add_assoc, r.add_comm, add_left_comm)

-- The mask 0x0101010101010101 has the lowest bit of each byte.
pub bit-mask : (i : ℕ) → i < 64 → bit i (wrap 0x0101010101010101) ≡ (i % 8 == 0)
unfolding wrap test_bit
bit-mask i h = agree→ 64 (λ i. bit i (wrap 0x0101010101010101)) (λ i. i % 8 == 0) refl i h

-- One folding step: bit `b` of a byte is added to bit `k + b`.
bit-folded :
    (n : ℕ) (t : U64) (k b : ℕ)
    → b + n < 64
    → bit (b + n) (u64_xor t (u64_shr t k)) ≡ xor (bit (b + n) t) (bit ((k + b) + n) t)
bit-folded n t k b h =
    bit-u64_xor (b + n) h t (u64_shr t k)
    ∙ ap (xor (bit (b + n) t)) (bit-u64_shr (b + n) h t k ∙ ap (λ m. bit m t) (omega arith))

module _ (n : ℕ) (h : n ≤ 56) (s : ShareGf2) where
  abbrev P : ℕ → Bool
  P k = bit (k + n) s

  abbrev t1 : U64
  t1 = u64_xor s (u64_shr s 4)

  abbrev t2 : U64
  t2 = u64_xor t1 (u64_shr t1 2)

  abbrev t3 : U64
  t3 = u64_xor t2 (u64_shr t2 1)

  bit-t1 : (b : ℕ) → b < 8 → bit (b + n) t1 ≡ xor (P b) (P (4 + b))
  bit-t1 b k = bit-folded n s 4 b (omega arith)

  bit-t2 :
      (b : ℕ)
      → b < 6
      → bit (b + n) t2 ≡ xor (xor (P b) (P (4 + b))) (xor (P (2 + b)) (P (4 + (2 + b))))
  bit-t2 b k =
      bit-folded n t1 2 b (omega arith)
      ∙ ap₂ xor (bit-t1 b (omega arith)) (bit-t1 (2 + b) (omega arith))

  bit-t3 :
      bit (0 + n) t3
      ≡ xor (xor (xor (P 0) (P 4)) (xor (P 2) (P 6))) (xor (xor (P 1) (P 5)) (xor (P 3) (P 7)))
  bit-t3 =
      bit-folded n t2 1 0 (omega arith) ∙ ap₂ xor (bit-t2 0 (omega arith)) (bit-t2 1 (omega arith))

pub bit-parity :
    (r : Fin 8) (s : ShareGf2)
    → bit (base r) (parity s) ≡ total 8 (λ p. bit ((7 - val p) + base r) s)
unfolding parity total
bit-parity r s =
    bit-u64_and (base r) (omega arith) folded (wrap 0x0101010101010101)
    ∙ ap₂ ◌&&◌ (ap (λ m. bit m folded) (none (base r)) ∙ bit-t3 (base r) (omega arith) s)
        (bit-mask (base r) (omega arith) ∙ multiple r)
    ∙ and-true _
    ∙ halves (p 0) (p 1) (p 2) (p 3) (p 4) (p 5) (p 6) (p 7)
  where
    folded : U64
    folded = t3 (base r) (omega arith) s

    p : ℕ → Bool
    p = P (base r) (omega arith) s

    none : (n : ℕ) → n ≡ 0 + n
    none n = omega arith

    multiple : (r : Fin 8) → (base r % 8 == 0) ≡ true
    multiple r = ground arith

bit-parity_between : (i : ℕ) (s : ShareGf2) → i < 64 → 1 ≤ i % 8 → bit i (parity s) ≡ false
unfolding parity
bit-parity_between i s h between =
    bit-u64_and i h folded (wrap 0x0101010101010101)
    ∙ ap (λ m. bit i folded && m) (bit-mask i h ∙ not_multiple i between)
    ∙ and-false _
  where
    folded : U64
    folded = t3 0 (omega arith) s

    not_multiple : (i : ℕ) → 1 ≤ i % 8 → (i % 8 == 0) ≡ false
    not_multiple i k = ground (arith, k)

-- The lowest `w` bits of each byte are the lowest bit of that byte of `t₀`, the others 0.
record IsFilled (w : ℕ) (t₀ t : U64) : Type 0 where
  low : (i : ℕ) → i < 64 → i % 8 < w → bit i t ≡ bit (i / 8 * 8) t₀
  high : (i : ℕ) → i < 64 → w ≤ i % 8 → bit i t ≡ false

-- What moves into the bits of a byte that are filled already comes from the byte below, and is 0.
moved_in :
    (w : ℕ) (t₀ t : U64)
    → 2 * w ≤ 8
    → IsFilled w t₀ t
    → (i : ℕ) → i < 64
    → i % 8 < w
    → bit i (u64_shl t w) ≡ false
moved_in w t₀ t room filled i h k = elim (Bool-cases (ltb i w)) [
  | inl below ↦ bit-u64_shl_low i h t w (ground (arith, below))
  | inr above ↦
      let e : w ≤ i = ground (arith, above) in
      bit-u64_shl i h t w e ∙ filled.high (i - w) (omega arith) (omega arith)
]

-- Or with itself, moved up, doubles how far the bits are filled.
fill_more :
    (w : ℕ) (t₀ t : U64)
    → 2 * w ≤ 8
    → IsFilled w t₀ t
    → IsFilled (2 * w) t₀ (u64_or t (u64_shl t w))
fill_more w t₀ t room filled = record {
  low = λ i h k. bit-u64_or i h t (u64_shl t w) ∙ elim (Bool-cases (ltb (i % 8) w)) [
    | inl below ↦
        let e : i % 8 < w = ground (arith, below) in
        ap₂ ◌||◌ (filled.low i h e) (moved_in w t₀ t room filled i h e) ∙ or-false _
    | inr above ↦
        let e : w ≤ i % 8 = ground (arith, above) in
        ap₂ ◌||◌ (filled.high i h e) (
          bit-u64_shl i h t w (omega arith)
          ∙ filled.low (i - w) (omega arith) (omega arith)
          ∙ ap (λ m. bit m t₀) (omega arith))
  ];
  high = λ i h k.
      bit-u64_or i h t (u64_shl t w)
      ∙ ap₂ ◌||◌ (filled.high i h (omega arith))
          (bit-u64_shl i h t w (omega arith) ∙ filled.high (i - w) (omega arith) (omega arith));
}

fill-IsFilled : (t : U64) → IsFilled 1 t t → IsFilled 8 t (fill t)
unfolding fill
fill-IsFilled t h =
    fill_more 4 t _ (omega arith) (fill_more 2 t _ (omega arith) (fill_more 1 t t (omega arith) h))

parity-IsFilled : (s : ShareGf2) → IsFilled 1 (parity s) (parity s)
parity-IsFilled s = record {
  low = λ i h k. ap (λ m. bit m (parity s)) (omega arith);
  high = λ i h k. bit-parity_between i s h k;
}

-- Every bit of each byte that `reconstruct` makes of a share in the domain over bits is the sum of
-- the bits of the eight players in that byte.
pub bit-reconstruct :
    (r : Fin 8) (k : ℕ) (s : ShareGf2)
    → k < 8
    → bit (k + base r) (reconstruct s) ≡ total 8 (λ p. bit ((7 - val p) + base r) s)
unfolding reconstruct
bit-reconstruct r k s h =
    (fill-IsFilled (parity s) (parity-IsFilled s)).low (k + base r) (omega arith) (omega arith)
    ∙ ap (λ m. bit m (parity s)) (omega arith)
    ∙ bit-parity r s
