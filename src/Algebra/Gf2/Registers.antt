-- ===== src/Algebra/Gf2/Registers.antt =====
-- algebra/gf2/domain.rs: the bits of a vector register in the rounds of a transposition.
use reverie_ppr.Prelude.{
  ℕ, zero, suc, ◌+◌, ◌-◌, ◌*◌, ◌/◌, ◌%◌, ◌^◌, ◌≤◌, ◌<◌, ◌≡◌, refl, ◌∙◌, ap, ap₂, arith, false, ◌==◌,
}
use reverie_ppr.Bits.{test_bit, test_bit-zero, test_bit-mod, test_bit-shr, test_bit-shl}
use reverie_ppr.Word.{wrap}
use reverie_ppr.Word.Bits.{bit, u64_shl, bit-wrap, bit-u64_shl, bit-u64_shl_low}
use reverie_ppr.Algebra.Gf2.Transpose.{Register, movemask_epi8, add_epi8}

-- The mask of a register has the top bit of each byte.
test_bit-movemask_epi8 :
    (n l : ℕ) (v : Register) → l < n → test_bit l (movemask_epi8 n v) ≡ test_bit 7 (v l)
unfolding movemask_epi8 test_bit
test_bit-movemask_epi8 zero l v h = absurd (omega arith)
test_bit-movemask_epi8 (suc n) zero v h =
    ap (λ t. t == 1) (lowest (v 0) (movemask_epi8 n (λ lane. v (suc lane))))
    ∙ test_bit-shr 7 0 (v 0)
  where
    lowest : (x rest : ℕ) → (x / 128 % 2 + 2 * rest) % 2 ≡ x / 2 ^ 7 % 2
    lowest x rest = omega arith
test_bit-movemask_epi8 (suc n) (suc l) v h =
    ap (test_bit l) (higher (v 0) (movemask_epi8 n (λ lane. v (suc lane))))
    ∙ test_bit-movemask_epi8 n l (λ lane. v (suc lane)) (omega arith)
  where
    higher : (x rest : ℕ) → (x / 128 % 2 + 2 * rest) / 2 ≡ rest
    higher x rest = omega arith

test_bit-movemask_epi8_high :
    (n l : ℕ) (v : Register) → n ≤ l → test_bit l (movemask_epi8 n v) ≡ false
unfolding movemask_epi8 test_bit
test_bit-movemask_epi8_high zero l v h = test_bit-zero l
test_bit-movemask_epi8_high (suc n) zero v h = absurd (omega arith)
test_bit-movemask_epi8_high (suc n) (suc l) v h =
    ap (test_bit l) (higher (v 0) (movemask_epi8 n (λ lane. v (suc lane))))
    ∙ test_bit-movemask_epi8_high n l (λ lane. v (suc lane)) (omega arith)
  where
    higher : (x rest : ℕ) → (x / 128 % 2 + 2 * rest) / 2 ≡ rest
    higher x rest = omega arith

-- Adding a register to itself moves the bits of each byte up.
test_bit-add_epi8 :
    (v : Register) (lane k : ℕ) → k < 7 → test_bit (suc k) (add_epi8 v v lane) ≡ test_bit k (v lane)
unfolding add_epi8
test_bit-add_epi8 v lane k h =
    test_bit-mod 8 (suc k) (v lane + v lane) (omega arith)
    ∙ ap₂ test_bit (one_up k) (doubled (v lane))
    ∙ test_bit-shl 1 k (v lane)
  where
    one_up : (k : ℕ) → suc k ≡ 1 + k
    one_up k = omega arith

    doubled : (x : ℕ) → x + x ≡ x * 2 ^ 1
    doubled x = omega arith

-- A register after some rounds of a loop.
unfoldable pub doubled : ℕ → Register → Register
doubled zero v = v
doubled (suc j) v = doubled j (add_epi8 v v)

pub top_bit-doubled :
    (j : ℕ) (v : Register) (lane : ℕ)
    → j < 8
    → test_bit 7 (doubled j v lane) ≡ test_bit (7 - j) (v lane)
unfolding doubled
top_bit-doubled zero v lane h = refl
top_bit-doubled (suc j) v lane h =
    top_bit-doubled j (add_epi8 v v) lane (omega arith)
    ∙ ap (λ t. test_bit t (add_epi8 v v lane)) (one_less j h)
    ∙ test_bit-add_epi8 v lane (7 - suc j) (omega arith)
  where
    one_less : (j : ℕ) → suc j < 8 → 7 - j ≡ suc (7 - suc j)
    one_less j h = omega arith

-- A mask of `w` bits that is moved up by `k`.
module _ (w k i : ℕ) (v : Register) (h : i < 64) where
  pub mask_bit :
      k ≤ i → i < k + w → bit i (u64_shl (wrap (movemask_epi8 w v)) k) ≡ test_bit 7 (v (i - k))
  mask_bit low high =
      bit-u64_shl i h _ k low
      ∙ bit-wrap (i - k) (omega arith) (movemask_epi8 w v)
      ∙ test_bit-movemask_epi8 w (i - k) v (omega arith)

  pub mask_bit_above : k + w ≤ i → bit i (u64_shl (wrap (movemask_epi8 w v)) k) ≡ false
  mask_bit_above above =
      bit-u64_shl i h _ k (omega arith)
      ∙ bit-wrap (i - k) (omega arith) (movemask_epi8 w v)
      ∙ test_bit-movemask_epi8_high w (i - k) v (omega arith)

  pub mask_bit_below : i < k → bit i (u64_shl (wrap (movemask_epi8 w v)) k) ≡ false
  mask_bit_below below = bit-u64_shl_low i h _ k below

pub bottom_bit :
    (w i : ℕ) (v : Register) → i < 64 → i < w → bit i (wrap (movemask_epi8 w v)) ≡ test_bit 7 (v i)
bottom_bit w i v h low = bit-wrap i h _ ∙ test_bit-movemask_epi8 w i v low

pub bottom_bit_above :
    (w i : ℕ) (v : Register) → i < 64 → w ≤ i → bit i (wrap (movemask_epi8 w v)) ≡ false
bottom_bit_above w i v h above = bit-wrap i h _ ∙ test_bit-movemask_epi8_high w i v above
