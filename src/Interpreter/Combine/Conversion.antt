-- ===== src/Interpreter/Combine/Conversion.antt =====
-- interpreter/combine.rs: `recon_gf2_to_z64` gives the integer whose bits 64 wires hold.
use reverie_ppr.Prelude.{
  ℕ, zero, suc, ◌+◌, ◌-◌, ◌*◌, ◌/◌, ◌%◌, ◌^◌, ◌<◌, ◌≤◌, ◌≡◌, ◌==◌, refl, sym, ◌∙◌, ap, ap₂, arith,
  Bool, true, false, ◌&&◌, ◌||◌, Fin, Array, val, val-lt, fin, val-fin, if◌then◌else◌,
}
use reverie_ppr.Ring.Sum.{rest}
use reverie_ppr.Bits.{test_bit, test_bit-zero, bits_ext}
use reverie_ppr.Word.{wrap}
use reverie_ppr.Word.Bits.{
  bit, bit-wrap, bit-u64_or, bit-u64_shl, bit-u64_shl_low, bit-u64_and, u64_and, u64_shl,
  U64_bits_ext,
}
use reverie_ppr.Crypto.{StreamCipher, Blake3}
use reverie_ppr.Algebra.Z64.{ReconZ64}
use reverie_ppr.Algebra.Gf2.{ReconGf2, ShareGf2}
use reverie_ppr.Algebra.Gf2.Boolean.{or-false, and-true, and-false}
use reverie_ppr.Algebra.Gf2.Bytes.{
  base, to_be_bytes, from_bits, test_bit-from_bits, to_be_bytes-lt, test_bit-to_be_bytes,
}
use reverie_ppr.Algebra.Gf2.Parity.{bit-mask}
use reverie_ppr.Algebra.Gf2.Recon.{into_bytes}
use reverie_ppr.Algebra.Gf2.Laws.{recon_lane, domain_gf2}
use reverie_ppr.Interpreter.Single.{value}
use reverie_ppr.Interpreter.Combine.{WireGf2, shift_in, recon_loop, recon_gf2_to_z64, reverse_bits}

abbrev pub digit_of : Bool → ℕ
digit_of b = if b then 1 else 0

-- The number of some bits, the lowest first.
unfoldable pub number_of : (n : ℕ) → Array Bool n → ℕ
number_of zero f = 0
number_of (suc n) f = digit_of (f Fin.zero) + 2 * number_of n (rest f)

test_bit-number_of : (n : ℕ) (f : Array Bool n) (a : Fin n) → test_bit (val a) (number_of n f) ≡ f a
unfolding number_of test_bit
test_bit-number_of (suc n) f Fin.zero = lowest (f Fin.zero) (number_of n (rest f))
  where
    lowest : (x : Bool) (m : ℕ) → ((digit_of x + 2 * m) % 2 == 1) ≡ x
    lowest true m = ground arith
    lowest false m = ground arith
test_bit-number_of (suc n) f (Fin.suc a) =
    ap (test_bit (val a)) (halved (f Fin.zero) (number_of n (rest f)))
    ∙ test_bit-number_of n (rest f) a
  where
    halved : (x : Bool) (m : ℕ) → (digit_of x + 2 * m) / 2 ≡ m
    halved true m = omega arith
    halved false m = omega arith
test_bit-number_of zero f a = elim a [ ]

test_bit-digit_of : (b : Bool) (k : ℕ) → test_bit k (digit_of b) ≡ (b && (k == 0))
unfolding test_bit
test_bit-digit_of false k = test_bit-zero k
test_bit-digit_of true zero = refl
test_bit-digit_of true (suc k) = test_bit-zero k ∙ positive k
  where
    positive : (k : ℕ) → false ≡ (suc k == 0)
    positive k = ground arith

-- Of the bits of a byte under the mask, only the lowest is left.
masked :
    (x : ReconGf2) (r : Fin 8) (k : ℕ)
    → k < 8
    → (bit (k + base r) x && ((k + base r) % 8 == 0)) ≡ (recon_lane x r && (k == 0))
masked x r zero h = ap₂ ◌&&◌ (ap (λ m. bit m x) (omega arith)) (multiple (base r) (omega arith))
  where
    multiple : (n : ℕ) → n % 8 ≡ 0 → ((0 + n) % 8 == 0) ≡ true
    multiple n h = ground (arith, h)
masked x r (suc k) h =
    ap (λ b. bit (suc k + base r) x && b) (between (suc k + base r) (omega arith))
    ∙ and-false _
    ∙ sym (ap (λ b. recon_lane x r && b) (positive k) ∙ and-false _)
  where
    between : (n : ℕ) → 1 ≤ n % 8 → (n % 8 == 0) ≡ false
    between n h = ground (arith, h)

    positive : (k : ℕ) → (suc k == 0) ≡ false
    positive k = ground arith

digit_of-lt : (b : Bool) → digit_of b < 2 ^ 8
digit_of-lt true = omega arith
digit_of-lt false = omega arith

-- The byte of a repetition is 1 or 0.
pub into_bytes-lane : (x : ReconGf2) (r : Fin 8) → into_bytes x r ≡ digit_of (recon_lane x r)
unfolding into_bytes
into_bytes-lane x r =
    bits_ext 8 (to_be_bytes (u64_and x (wrap 0x0101010101010101)) r) (digit_of (recon_lane x r))
      (to_be_bytes-lt (u64_and x (wrap 0x0101010101010101)) r) (digit_of-lt (recon_lane x r))
      λ k h.
        test_bit-to_be_bytes (u64_and x (wrap 0x0101010101010101)) r k h
        ∙ bit-u64_and (k + base r) (omega arith) x (wrap 0x0101010101010101)
        ∙ ap (λ b. bit (k + base r) x && b) (bit-mask (k + base r) (omega arith))
        ∙ masked x r k h
        ∙ sym (test_bit-digit_of (recon_lane x r) k)

-- A bit is put below those of a word.
module _ (bits : Array ℕ 8) (z : ReconZ64) (r : Fin 8) (b : Bool) (e : bits r ≡ digit_of b) where
  bit-shift_in_zero : bit 0 (shift_in bits z r) ≡ b
  unfolding shift_in
  bit-shift_in_zero =
      bit-u64_or 0 (omega arith) (u64_shl (z r) 1) (wrap (bits r))
      ∙ ap₂ ◌||◌ (bit-u64_shl_low 0 (omega arith) (z r) 1 (omega arith)) (
          bit-wrap 0 (omega arith) (bits r)
          ∙ ap (test_bit 0) e
          ∙ test_bit-digit_of b 0
          ∙ and-true b)

  bit-shift_in_suc : (k : ℕ) → suc k < 64 → bit (suc k) (shift_in bits z r) ≡ bit k (z r)
  unfolding shift_in
  bit-shift_in_suc k h =
      bit-u64_or (suc k) h (u64_shl (z r) 1) (wrap (bits r))
      ∙ ap₂ ◌||◌ (bit-u64_shl (suc k) h (z r) 1 (omega arith) ∙ ap (λ m. bit m (z r)) (omega arith))
          (bit-wrap (suc k) h (bits r)
            ∙ ap (test_bit (suc k)) e
            ∙ test_bit-digit_of b (suc k)
            ∙ ap (λ t. b && t) (positive k)
            ∙ and-false b)
      ∙ or-false _
    where
      positive : (k : ℕ) → (suc k == 0) ≡ false
      positive k = ground arith

module _ ⦃c : StreamCipher⦄ ⦃b : Blake3⦄ where
  -- The bit that a wire holds in a repetition.
  abbrev pub lane : WireGf2 → Fin 8 → Bool
  lane w r = recon_lane (value domain_gf2 w) r

  module _ {T : Type 0} (recon : T → ShareGf2 → ReconGf2 × T)
      (reads : (t : T) (s : ShareGf2) → (recon t s).0 ≡ domain_gf2.reconstruct s) (r : Fin 8) where
    bits_of : T → WireGf2 → Array ℕ 8
    bits_of t w = into_bytes (domain_gf2.recon_add (recon t w.mask).0 w.corr)

    bits_of-lane : (t : T) (w : WireGf2) → bits_of t w r ≡ digit_of (lane w r)
    unfolding bits_of value
    bits_of-lane t w =
        into_bytes-lane (domain_gf2.recon_add (recon t w.mask).0 w.corr) r
        ∙ ap (λ x. digit_of (recon_lane (domain_gf2.recon_add x w.corr) r)) (reads t w.mask)

    bit-recon_loop_high :
        (n k : ℕ) (t : T) (z : ReconZ64) (wires : Array WireGf2 n)
        → n + k < 64
        → bit (n + k) ((recon_loop recon n t z wires).0 r) ≡ bit k (z r)
    unfolding recon_loop bits_of
    bit-recon_loop_high zero k t z wires h = ap (λ m. bit m (z r)) (omega arith)
    bit-recon_loop_high (suc n) k t z wires h =
        ap (λ m. bit m ((recon_loop recon (suc n) t z wires).0 r)) (omega arith)
        ∙ bit-recon_loop_high n (suc k) (recon t (wires Fin.zero).mask).1 (shift_in bits z)
            (rest wires) (omega arith)
        ∙ bit-shift_in_suc bits z r (lane (wires Fin.zero) r) (bits_of-lane t (wires Fin.zero)) k
            (omega arith)
      where
        bits : Array ℕ 8
        bits = bits_of t (wires Fin.zero)

    bit-recon_loop :
        (n : ℕ) (t : T) (z : ReconZ64) (wires : Array WireGf2 n) (a : Fin n)
        → n ≤ 64
        → bit (n - 1 - val a) ((recon_loop recon n t z wires).0 r) ≡ lane (wires a) r
    unfolding recon_loop bits_of
    bit-recon_loop (suc n) t z wires Fin.zero h =
        ap (λ m. bit m ((recon_loop recon (suc n) t z wires).0 r)) (omega arith)
        ∙ bit-recon_loop_high n 0 (recon t (wires Fin.zero).mask).1
            (shift_in (bits_of t (wires Fin.zero)) z) (rest wires) (omega arith)
        ∙ bit-shift_in_zero (bits_of t (wires Fin.zero)) z r (lane (wires Fin.zero) r)
            (bits_of-lane t (wires Fin.zero))
    bit-recon_loop (suc n) t z wires (Fin.suc a) h =
        ap (λ m. bit m ((recon_loop recon (suc n) t z wires).0 r)) (omega (arith, val-lt a))
        ∙ bit-recon_loop n (recon t (wires Fin.zero).mask).1
            (shift_in (bits_of t (wires Fin.zero)) z) (rest wires) a (omega arith)
    bit-recon_loop zero t z wires a h = elim a [ ]

    -- Where `recon` reconstructs a share, the conversion of 64 wires has in each repetition the
    -- number whose bits the wires hold there, the lowest first.
    pub recon_gf2_to_z64-number_of :
        (t : T) (wires : Array WireGf2 64)
        → (recon_gf2_to_z64 recon t wires).0 r ≡ wrap (number_of 64 (λ i. lane (wires i) r))
    unfolding recon_gf2_to_z64 reverse_bits
    recon_gf2_to_z64-number_of t wires = U64_bits_ext _ _ λ i h.
        bit-wrap i h (from_bits 64 (λ i. bit (63 - i) (z r)))
        ∙ test_bit-from_bits 64 (λ i. bit (63 - i) (z r)) i h
        ∙ ap (λ m. bit m (z r)) (omega (arith, val-fin 64 i h))
        ∙ bit-recon_loop 64 t (λ j. wrap 0) wires (fin 64 i h) (omega arith)
        ∙ sym (
            bit-wrap i h (number_of 64 (λ i. lane (wires i) r))
            ∙ ap (λ m. test_bit m (number_of 64 (λ i. lane (wires i) r))) (sym (val-fin 64 i h))
            ∙ test_bit-number_of 64 (λ i. lane (wires i) r) (fin 64 i h))
      where
        z : ReconZ64
        z = (recon_loop recon 64 t (λ j. wrap 0) wires).0
