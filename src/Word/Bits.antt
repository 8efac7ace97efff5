-- ===== src/Word/Bits.antt =====
-- The bitwise operators of `u64`, and what they do to each bit.
use Prim.Native.Nat.{bit_and, bit_or, bit_xor}
use reverie_ppr.Prelude.{
  ℕ, ◌+◌, ◌-◌, ◌*◌, ◌/◌, ◌^◌, ◌≤◌, ◌<◌, ◌≡◌, ◌∙◌, ap, arith, Bool, false, ◌&&◌, ◌||◌,
}
use reverie_ppr.Bits.{
  test_bit, xor, test_bit-bit_xor, test_bit-bit_and, test_bit-bit_or, test_bit-shr, test_bit-shl,
  test_bit-shl_low, test_bit-mod, bits_ext,
}
use reverie_ppr.Word.{U64, U64_ext, number, wrap}

abbrev pub bit : ℕ → U64 → Bool
bit i x = test_bit i (number x)

unfoldable pub u64_xor : U64 → U64 → U64
unfolding wrap
u64_xor x y = wrap (bit_xor (number x) (number y))

unfoldable pub u64_and : U64 → U64 → U64
unfolding wrap
u64_and x y = wrap (bit_and (number x) (number y))

unfoldable pub u64_or : U64 → U64 → U64
unfolding wrap
u64_or x y = wrap (bit_or (number x) (number y))

-- `x >> k` and `x << k` for `k` below 64.
unfoldable pub u64_shr : U64 → ℕ → U64
unfolding wrap
u64_shr x k = wrap (number x / 2 ^ k)

unfoldable pub u64_shl : U64 → ℕ → U64
unfolding wrap
u64_shl x k = wrap (number x * 2 ^ k)

-- A word is its bits.
pub U64_bits_ext : (x y : U64) → ((i : ℕ) → i < 64 → bit i x ≡ bit i y) → x ≡ y
U64_bits_ext x y h = U64_ext x y (bits_ext 64 (number x) (number y) x.1 y.1 h)

module _ (i : ℕ) (h : i < 64) where
  pub bit-wrap : (n : ℕ) → bit i (wrap n) ≡ test_bit i n
  unfolding wrap
  bit-wrap n = test_bit-mod 64 i n h

  pub bit-u64_xor : (x y : U64) → bit i (u64_xor x y) ≡ xor (bit i x) (bit i y)
  unfolding u64_xor
  bit-u64_xor x y = bit-wrap _ ∙ test_bit-bit_xor i (number x) (number y)

  pub bit-u64_and : (x y : U64) → bit i (u64_and x y) ≡ (bit i x && bit i y)
  unfolding u64_and
  bit-u64_and x y = bit-wrap _ ∙ test_bit-bit_and i (number x) (number y)

  pub bit-u64_or : (x y : U64) → bit i (u64_or x y) ≡ (bit i x || bit i y)
  unfolding u64_or
  bit-u64_or x y = bit-wrap _ ∙ test_bit-bit_or i (number x) (number y)

  pub bit-u64_shr : (x : U64) (k : ℕ) → bit i (u64_shr x k) ≡ bit (k + i) x
  unfolding u64_shr
  bit-u64_shr x k = bit-wrap _ ∙ test_bit-shr k i (number x)

  pub bit-u64_shl_low : (x : U64) (k : ℕ) → i < k → bit i (u64_shl x k) ≡ false
  unfolding u64_shl
  bit-u64_shl_low x k low = bit-wrap _ ∙ test_bit-shl_low k i (number x) low

  pub bit-u64_shl : (x : U64) (k : ℕ) → k ≤ i → bit i (u64_shl x k) ≡ bit (i - k) x
  unfolding u64_shl
  bit-u64_shl x k high =
      bit-wrap _
      ∙ ap (λ t. test_bit t (number x * 2 ^ k)) (omega (arith, high))
      ∙ test_bit-shl k (i - k) (number x)
