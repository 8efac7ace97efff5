-- ===== src/Algebra/Gf2/Packing/Digits.antt =====
-- algebra/gf2: the bits of the byte that `pack` makes of eight elements.
use Prim.Native.Nat.{bit_or}
use reverie_ppr.Prelude.{
  ℕ, zero, suc, ◌+◌, ◌-◌, ◌*◌, ◌%◌, ◌^◌, ◌≤◌, ◌<◌, ◌≡◌, refl, ◌∙◌, ap, ap₂, arith, false, ◌||◌,
  ◌&&◌, ◌==◌, Fin, Array, val, val-lt,
}
use reverie_ppr.Ring.Sum.{rest}
use reverie_ppr.Bits.{
  test_bit, test_bit-bit_or, test_bit-mod, test_bit-shl, test_bit-shl_low, test_bit-zero,
}
use reverie_ppr.Word.{U64, number, wrap}
use reverie_ppr.Word.Bits.{bit, u64_shr, u64_and, bit-u64_and, bit-u64_shr}
use reverie_ppr.Algebra.Gf2.Boolean.{or-false, and-true, and-false}
use reverie_ppr.Algebra.Gf2.Bytes.{agree→}
use reverie_ppr.Algebra.Gf2.Pack.{digit, pack_lines, pack_recons, pack_shares}

pub bit-one : (i : ℕ) → i < 64 → bit i (wrap 1) ≡ (i == 0)
unfolding wrap test_bit
bit-one i h = agree→ 64 (λ i. bit i (wrap 1)) (λ i. i == 0) refl i h

bit-two : (i : ℕ) → i < 64 → bit i (wrap 2) ≡ (i == 1)
unfolding wrap test_bit
bit-two i h = agree→ 64 (λ i. bit i (wrap 2)) (λ i. i == 1) refl i h

test_bit-digit :
    (shift i : ℕ) (x : U64) → i < 64 → test_bit i (digit shift x) ≡ (bit (shift + i) x && (i == 0))
unfolding digit
test_bit-digit shift i x h =
    bit-u64_and i h (u64_shr x shift) (wrap 1) ∙ ap₂ ◌&&◌ (bit-u64_shr i h x shift) (bit-one i h)

test_bit-digit_zero : (shift : ℕ) (x : U64) → test_bit 0 (digit shift x) ≡ bit shift x
test_bit-digit_zero shift x =
    test_bit-digit shift 0 x (omega arith) ∙ and-true _ ∙ ap (λ m. bit m x) (omega arith)

test_bit-digit_suc : (shift i : ℕ) (x : U64) → suc i < 64 → test_bit (suc i) (digit shift x) ≡ false
test_bit-digit_suc shift i x h =
    test_bit-digit shift (suc i) x h
    ∙ ap (λ b. bit (shift + suc i) x && b) (positive i)
    ∙ and-false _
  where
    positive : (i : ℕ) → (suc i == 0) ≡ false
    positive i = ground arith

-- One line: the bits move up, and the next is put below them.
module _ (w shift res : ℕ) (x : U64) (h : 8 ≤ w) where
  next : ℕ
  next = bit_or (res * 2 % 2 ^ w) (digit shift x)

  test_bit-next_zero : test_bit 0 next ≡ bit shift x
  unfolding next
  test_bit-next_zero =
      test_bit-bit_or 0 (res * 2 % 2 ^ w) (digit shift x)
      ∙ ap₂ ◌||◌ (test_bit-mod w 0 (res * 2) (omega arith) ∙ test_bit-shl_low 1 0 res (omega arith))
          (test_bit-digit_zero shift x)

  test_bit-next_suc : (k : ℕ) → suc k < 8 → test_bit (suc k) next ≡ test_bit k res
  unfolding next
  test_bit-next_suc k below =
      test_bit-bit_or (suc k) (res * 2 % 2 ^ w) (digit shift x)
      ∙ ap₂ ◌||◌
          (test_bit-mod w (suc k) (res * 2) (omega arith)
            ∙ ap (λ m. test_bit m (res * 2)) (omega arith)
            ∙ test_bit-shl 1 k res)
          (test_bit-digit_suc shift k x (omega arith))
      ∙ or-false _

module _ (w shift : ℕ) (h : 8 ≤ w) where
  test_bit-pack_lines_high :
      (n k : ℕ) (src : Array U64 n) (res : ℕ)
      → n + k < 8
      → test_bit (n + k) (pack_lines w n shift src res) ≡ test_bit k res
  unfolding pack_lines next
  test_bit-pack_lines_high zero k src res below = ap (λ m. test_bit m res) (omega arith)
  test_bit-pack_lines_high (suc n) k src res below =
      ap (λ m. test_bit m (pack_lines w n shift (rest src) (next w shift res (src Fin.zero) h)))
        (omega arith)
      ∙ test_bit-pack_lines_high n (suc k) (rest src) (next w shift res (src Fin.zero) h)
          (omega arith)
      ∙ test_bit-next_suc w shift res (src Fin.zero) h k (omega arith)

  test_bit-pack_lines :
      (n : ℕ) (src : Array U64 n) (res : ℕ) (a : Fin n)
      → n ≤ 8
      → test_bit (n - 1 - val a) (pack_lines w n shift src res) ≡ bit shift (src a)
  unfolding pack_lines next
  test_bit-pack_lines (suc n) src res Fin.zero small =
      ap (λ m. test_bit m (pack_lines w n shift (rest src) (next w shift res (src Fin.zero) h)))
        (omega arith)
      ∙ test_bit-pack_lines_high n 0 (rest src) (next w shift res (src Fin.zero) h) (omega arith)
      ∙ test_bit-next_zero w shift res (src Fin.zero) h
  test_bit-pack_lines (suc n) src res (Fin.suc a) small =
      ap (λ m. test_bit m (pack_lines w n shift (rest src) (next w shift res (src Fin.zero) h)))
        (omega (arith, val-lt a))
      ∙ test_bit-pack_lines n (rest src) (next w shift res (src Fin.zero) h) a (omega arith)
  test_bit-pack_lines zero src res a small = elim a [ ]

-- The first element is the top bit.
pub test_bit-pack_shares :
    (shift : ℕ) (src : Array U64 8) (k : Fin 8)
    → test_bit (7 - val k) (pack_shares shift src) ≡ bit shift (src k)
unfolding pack_shares
test_bit-pack_shares shift src k =
    test_bit-mod 8 (7 - val k) (pack_lines 64 7 shift (rest src) first) (omega arith) ∙ at k
  where
    first : ℕ
    first = bit_or 0 (digit shift (src Fin.zero))

    at :
        (k : Fin 8)
        → test_bit (7 - val k) (pack_lines 64 7 shift (rest src) first) ≡ bit shift (src k)
    at Fin.zero =
        test_bit-pack_lines_high 64 shift (omega arith) 7 0 (rest src) first (omega arith)
        ∙ test_bit-bit_or 0 0 (digit shift (src Fin.zero))
        ∙ ap₂ ◌||◌ (test_bit-zero 0) (test_bit-digit_zero shift (src Fin.zero))
    at (Fin.suc a) =
        ap (λ m. test_bit m (pack_lines 64 7 shift (rest src) first)) (omega (arith, val-lt a))
        ∙ test_bit-pack_lines 64 shift (omega arith) 7 (rest src) first a (omega arith)

-- So it is of reconstructions, the first of which has two equal bits there.
pub test_bit-pack_recons :
    (shift : ℕ) (src : Array U64 8) (k : Fin 8)
    → bit (shift + 1) (src Fin.zero) ≡ bit shift (src Fin.zero)
    → test_bit (7 - val k) (pack_recons shift src) ≡ bit shift (src k)
unfolding pack_recons
test_bit-pack_recons shift src k same = at k
  where
    top : U64
    top = u64_and (u64_shr (src Fin.zero) shift) (wrap 2)

    second : U64
    second = src (Fin.suc Fin.zero)

    first : ℕ
    first = bit_or (number top) (digit shift second)

    bit-top : (i : ℕ) → i < 64 → bit i top ≡ (bit (shift + i) (src Fin.zero) && (i == 1))
    bit-top i h =
        bit-u64_and i h (u64_shr (src Fin.zero) shift) (wrap 2)
        ∙ ap₂ ◌&&◌ (bit-u64_shr i h (src Fin.zero) shift) (bit-two i h)

    at : (k : Fin 8) → test_bit (7 - val k) (pack_recons shift src) ≡ bit shift (src k)
    at Fin.zero =
        test_bit-pack_lines_high 8 shift (omega arith) 6 1 (rest (rest src)) first (omega arith)
        ∙ test_bit-bit_or 1 (number top) (digit shift second)
        ∙ ap₂ ◌||◌ (bit-top 1 (omega arith) ∙ and-true _ ∙ same)
            (test_bit-digit_suc shift 0 second (omega arith))
        ∙ or-false _
    at (Fin.suc Fin.zero) =
        test_bit-pack_lines_high 8 shift (omega arith) 6 0 (rest (rest src)) first (omega arith)
        ∙ test_bit-bit_or 0 (number top) (digit shift second)
        ∙ ap₂ ◌||◌ (bit-top 0 (omega arith) ∙ and-false _) (test_bit-digit_zero shift second)
    at (Fin.suc (Fin.suc a)) =
        ap (λ m. test_bit m (pack_lines 8 6 shift (rest (rest src)) first))
          (omega (arith, val-lt a))
        ∙ test_bit-pack_lines 8 shift (omega arith) 6 (rest (rest src)) first a (omega arith)
