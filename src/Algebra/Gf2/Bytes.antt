-- ===== src/Algebra/Gf2/Bytes.antt =====
-- The bytes of a `u64`, most significant first, and their bits.
use reverie_ppr.Prelude.{
  ℕ, zero, suc, ◌+◌, ◌-◌, ◌*◌, ◌/◌, ◌%◌, ◌^◌, ◌≤◌, ◌<◌, ◌≡◌, ◌∙◌, refl, sym, ap, Bool, true, false,
  ◌&&◌, ◌==◌, Fin, Array, val, arith, if◌then◌else◌,
}
use native.Mathlib.Nat.{pow-suc, mod-lt}
use reverie_ppr.Algebra.Gf2.Boolean.{and_left, and_right}
use reverie_ppr.Bits.{test_bit, test_bit-mod, test_bit-shr, bits_ext}
use reverie_ppr.Word.{U64, number}
use reverie_ppr.Word.Bits.{bit}

-- The lowest bit of byte `r`, counted from the most significant.
abbrev pub base : Fin 8 → ℕ
base r = 8 * (7 - val r)

-- `u64::to_be_bytes`
unfoldable pub to_be_bytes : U64 → Array ℕ 8
to_be_bytes x r = number x / 2 ^ base r % 256

-- `u64::to_le_bytes`
unfoldable pub to_le_bytes : U64 → Array ℕ 8
to_le_bytes x r = number x / 2 ^ (8 * val r) % 256

pub test_bit-to_be_bytes :
    (x : U64) (r : Fin 8) (k : ℕ) → k < 8 → test_bit k (to_be_bytes x r) ≡ bit (k + base r) x
unfolding to_be_bytes
test_bit-to_be_bytes x r k h =
    test_bit-mod 8 k _ h ∙ test_bit-shr (base r) k (number x) ∙ ap (λ i. bit i x) (omega arith)

pub to_be_bytes-lt : (x : U64) (r : Fin 8) → to_be_bytes x r < 2 ^ 8
unfolding to_be_bytes
to_be_bytes-lt x r = mod-lt (number x / 2 ^ base r) (omega arith)

-- The first `n` values of two functions agree.
abbrev pub iff : Bool → Bool → Bool
iff true y = y
iff false true = false
iff false false = true

abbrev pub agree : ℕ → (ℕ → Bool) → (ℕ → Bool) → Bool
agree zero f g = true
agree (suc n) f g = iff (f 0) (g 0) && agree n (λ i. f (suc i)) (λ i. g (suc i))

pub agree→ : (n : ℕ) (f g : ℕ → Bool) → agree n f g ≡ true → (i : ℕ) → i < n → f i ≡ g i
agree→ zero f g e i h = absurd (omega arith)
agree→ (suc n) f g e zero h = equal (f 0) (g 0) (and_left (iff (f 0) (g 0)) _ e)
  where
    equal : (x y : Bool) → iff x y ≡ true → x ≡ y
    equal true true e = refl
    equal true false e = cc
    equal false true e = cc
    equal false false e = refl
agree→ (suc n) f g e (suc i) h =
    agree→ n (λ i. f (suc i)) (λ i. g (suc i)) (and_right (iff (f 0) (g 0)) _ e) i (omega arith)

-- The number of `n` given bits, the lowest first.
unfoldable pub from_bits : ℕ → (ℕ → Bool) → ℕ
from_bits zero f = 0
from_bits (suc n) f = (if f 0 then 1 else 0) + 2 * from_bits n (λ i. f (suc i))

pub from_bits-lt : (n : ℕ) (f : ℕ → Bool) → from_bits n f < 2 ^ n
unfolding from_bits
from_bits-lt zero f = omega arith
from_bits-lt (suc n) f = omega (arith, pow-suc 2 n, digit (f 0), from_bits-lt n (λ i. f (suc i)))
  where
    digit : (x : Bool) → (if x then 1 else 0) ≤ 1
    digit true = omega arith
    digit false = omega arith

pub test_bit-from_bits : (n : ℕ) (f : ℕ → Bool) (i : ℕ) → i < n → test_bit i (from_bits n f) ≡ f i
unfolding from_bits test_bit
test_bit-from_bits zero f i h = absurd (omega arith)
test_bit-from_bits (suc n) f zero h = lowest (f 0) (from_bits n (λ i. f (suc i)))
  where
    lowest : (x : Bool) (m : ℕ) → (((if x then 1 else 0) + 2 * m) % 2 == 1) ≡ x
    lowest true m = ground arith
    lowest false m = ground arith
test_bit-from_bits (suc n) f (suc i) h =
    ap (test_bit i) (halved (f 0) (from_bits n (λ i. f (suc i))))
    ∙ test_bit-from_bits n (λ i. f (suc i)) i (omega arith)
  where
    halved : (x : Bool) (m : ℕ) → ((if x then 1 else 0) + 2 * m) / 2 ≡ m
    halved true m = omega arith
    halved false m = omega arith

-- A byte of given bits is found in a word.
pub to_be_bytes-from_bits :
    (x : U64) (r : Fin 8) (f : ℕ → Bool)
    → ((k : ℕ) → k < 8 → bit (k + base r) x ≡ f k)
    → to_be_bytes x r ≡ from_bits 8 f
to_be_bytes-from_bits x r f h =
    bits_ext 8 _ _ (to_be_bytes-lt x r) (from_bits-lt 8 f)
      λ k below. test_bit-to_be_bytes x r k below ∙ h k below ∙ sym (test_bit-from_bits 8 f k below)
