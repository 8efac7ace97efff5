-- ===== src/Bits.antt =====
-- Binary digits of numbers, and the operators `^`, `&`, `|`, `<<` and `>>` on them.
use Prim.Native.Nat.{
  min, max, differ, digits, bit_and, bit_or, bit_xor, bit_and-bitwise, bit_or-bitwise,
  bit_xor-bitwise,
}
use mathlib.Core.Bool.{false≢true}
use native.Mathlib.Nat.{
  pow-suc, pow-succ', one-le-pow, div-div-eq-div-mul, add-mul-mod_self_left, mod-eq_of_lt, mod-lt,
  div-add-mod,
}
use reverie_ppr.Prelude.{
  ap₂, ℕ, zero, suc, ◌+◌, ◌*◌, ◌/◌, ◌%◌, ◌^◌, ◌≤◌, ◌<◌, ◌≡◌, refl, sym, ◌∙◌, ap, arith, Bool, true,
  false, ◌&&◌, ◌||◌, ◌==◌,
}

-- Digit `i` of a number, from the lowest on.
unfoldable pub test_bit : ℕ → ℕ → Bool
test_bit zero n = n % 2 == 1
test_bit (suc i) n = test_bit i (n / 2)

abbrev pub xor : Bool → Bool → Bool
xor false y = y
xor true false = true
xor true true = false

pub test_bit-zero : (i : ℕ) → test_bit i 0 ≡ false
unfolding test_bit
test_bit-zero zero = refl
test_bit-zero (suc i) = test_bit-zero i

-- An operation on numbers that acts digit by digit, as `g` does on the digits.
module _ (z : ℕ → ℕ) (f : ℕ → ℕ → ℕ) (g : Bool → Bool → Bool) where
  record ActsByDigit : Type 0 where
    rest : (i b : ℕ) → test_bit i (z b) ≡ g false (test_bit i b)
    small : (a b : ℕ) → f (a % 2) (b % 2) ≤ 1
    digit : (a b : ℕ) → (f (a % 2) (b % 2) == 1) ≡ g (a % 2 == 1) (b % 2 == 1)

  test_bit-digits :
      ActsByDigit
      → (i n a b : ℕ) → a ≤ n
      → test_bit i (digits z f n a b) ≡ g (test_bit i a) (test_bit i b)
  unfolding test_bit
  test_bit-digits acts i zero zero b h =
      acts.rest i b ∙ ap (λ t. g t (test_bit i b)) (sym (test_bit-zero i))
  test_bit-digits acts i zero (suc a) b h = absurd (omega arith)
  test_bit-digits acts i (suc n) zero b h =
      acts.rest i b ∙ ap (λ t. g t (test_bit i b)) (sym (test_bit-zero i))
  test_bit-digits acts zero (suc n) (suc a) b h =
      ap (λ t. t == 1) (lowest (digits z f n (suc a / 2) (b / 2)) _ (acts.small (suc a) b))
      ∙ acts.digit (suc a) b
    where
      lowest : (d x : ℕ) → x ≤ 1 → (d * 2 + x) % 2 ≡ x
      lowest d x h = omega arith
  test_bit-digits acts (suc i) (suc n) (suc a) b h =
      ap (test_bit i) (higher (digits z f n (suc a / 2) (b / 2)) _ (acts.small (suc a) b))
      ∙ test_bit-digits acts i n (suc a / 2) (b / 2) (omega arith)
    where
      higher : (d x : ℕ) → x ≤ 1 → (d * 2 + x) / 2 ≡ d
      higher d x h = omega arith

-- What holds for 0 and 1 holds for a lowest digit.
both_digits : (P : ℕ → Type 0) → P 0 → P 1 → (a : ℕ) → P (a % 2)
both_digits P p q a = pick (a % 2) (omega arith)
  where
    pick : (d : ℕ) → d < 2 → P d
    pick zero h = p
    pick (suc zero) h = q
    pick (suc (suc d)) h = absurd (omega arith)

abbrev ActsOnDigits : (f : ℕ → ℕ → ℕ) → (g : Bool → Bool → Bool) → ℕ → ℕ → Type 0
ActsOnDigits f g x y = (f x y ≤ 1) × ((f x y == 1) ≡ g (x == 1) (y == 1))

by_table :
    (f : ℕ → ℕ → ℕ) (g : Bool → Bool → Bool)
    → ActsOnDigits f g 0 0
    → ActsOnDigits f g 0 1
    → ActsOnDigits f g 1 0
    → ActsOnDigits f g 1 1
    → (a b : ℕ) → ActsOnDigits f g (a % 2) (b % 2)
by_table f g p q r s a b =
    both_digits (λ x. ActsOnDigits f g x (b % 2)) (both_digits (ActsOnDigits f g 0) p q b)
      (both_digits (ActsOnDigits f g 1) r s b) a

pub test_bit-bit_xor : (i a b : ℕ) → test_bit i (bit_xor a b) ≡ xor (test_bit i a) (test_bit i b)
test_bit-bit_xor i a b =
    ap (test_bit i) (bit_xor-bitwise a b)
    ∙ test_bit-digits _ differ xor
        (record { rest = λ i b. refl; small = λ a b. (table a b).0; digit = λ a b. (table a b).1 })
        i a a b (omega arith)
  where
    table : (a b : ℕ) → ActsOnDigits differ xor (a % 2) (b % 2)
    table =
        by_table differ xor (omega arith, refl) (omega arith, refl) (omega arith, refl)
          (omega arith, refl)

pub test_bit-bit_and : (i a b : ℕ) → test_bit i (bit_and a b) ≡ (test_bit i a && test_bit i b)
test_bit-bit_and i a b =
    ap (test_bit i) (bit_and-bitwise a b)
    ∙ test_bit-digits _ min ◌&&◌
        (record {
          rest = λ i b. test_bit-zero i;
          small = λ a b. (table a b).0;
          digit = λ a b. (table a b).1;
        })
        i a a b (omega arith)
  where
    table : (a b : ℕ) → ActsOnDigits min ◌&&◌ (a % 2) (b % 2)
    table =
        by_table min ◌&&◌ (omega arith, refl) (omega arith, refl) (omega arith, refl)
          (omega arith, refl)

pub test_bit-bit_or : (i a b : ℕ) → test_bit i (bit_or a b) ≡ (test_bit i a || test_bit i b)
test_bit-bit_or i a b =
    ap (test_bit i) (bit_or-bitwise a b)
    ∙ test_bit-digits _ max ◌||◌
        (record { rest = λ i b. refl; small = λ a b. (table a b).0; digit = λ a b. (table a b).1 })
        i a a b (omega arith)
  where
    table : (a b : ℕ) → ActsOnDigits max ◌||◌ (a % 2) (b % 2)
    table =
        by_table max ◌||◌ (omega arith, refl) (omega arith, refl) (omega arith, refl)
          (omega arith, refl)

test_bit_congr : (i j a b : ℕ) → i ≡ j → a ≡ b → test_bit i a ≡ test_bit j b
test_bit_congr i j a b p q = ap₂ test_bit p q

half-double : (d : ℕ) → d * 2 / 2 ≡ d
half-double d = omega arith

double-even : (d : ℕ) → (d * 2 % 2 == 1) ≡ false
double-even d = ap (λ t. t == 1) even
  where
    even : d * 2 % 2 ≡ 0
    even = omega arith

mul-pow-suc : (a k : ℕ) → a * 2 ^ suc k ≡ a * 2 ^ k * 2
mul-pow-suc a k = omega (arith, ap (λ (t : ℕ). a * t) (pow-suc 2 k))

-- `>>` drops lower digits.
pub test_bit-shr : (k i a : ℕ) → test_bit i (a / 2 ^ k) ≡ test_bit (k + i) a
unfolding test_bit
test_bit-shr zero i a = test_bit_congr i (0 + i) (a / 2 ^ 0) a (omega arith) (omega arith)
test_bit-shr (suc k) i a =
    ap (test_bit i) (ap (λ t. a / t) (pow-succ' 2 k) ∙ sym (div-div-eq-div-mul a 2 (2 ^ k)))
    ∙ test_bit-shr k i (a / 2)
    ∙ ap (λ t. test_bit t a) (one_more k i)
  where
    one_more : (k i : ℕ) → suc (k + i) ≡ suc k + i
    one_more k i = omega arith

-- `<<` moves digits up, and the lowest are zeros.
pub test_bit-shl : (k i a : ℕ) → test_bit (k + i) (a * 2 ^ k) ≡ test_bit i a
unfolding test_bit
test_bit-shl zero i a = test_bit_congr (0 + i) i (a * 2 ^ 0) a (omega arith) (omega arith)
test_bit-shl (suc k) i a =
    ap₂ test_bit (one_less k i) (mul-pow-suc a k)
    ∙ ap (test_bit (k + i)) (half-double (a * 2 ^ k))
    ∙ test_bit-shl k i a
  where
    one_less : (k i : ℕ) → suc k + i ≡ suc (k + i)
    one_less k i = omega arith

pub test_bit-shl_low : (k i a : ℕ) → i < k → test_bit i (a * 2 ^ k) ≡ false
unfolding test_bit
test_bit-shl_low zero i a h = absurd (omega arith)
test_bit-shl_low (suc k) zero a h = ap (test_bit 0) (mul-pow-suc a k) ∙ double-even (a * 2 ^ k)
test_bit-shl_low (suc k) (suc i) a h =
    ap (test_bit (suc i)) (mul-pow-suc a k)
    ∙ ap (test_bit i) (half-double (a * 2 ^ k))
    ∙ test_bit-shl_low k i a (omega arith)

-- The remainder by twice a number, by halves.
mod-double : (a m : ℕ) → 0 < m → a % (m * 2) ≡ a / 2 % m * 2 + a % 2
mod-double a m h =
    ap (λ t. t % (m * 2)) parts
    ∙ add-mul-mod_self_left (a / 2 % m * 2 + a % 2) (m * 2) (a / 2 / m)
    ∙ mod-eq_of_lt (omega (arith, mod-lt (a / 2) h))
  where
    parts : a ≡ (a / 2 % m * 2 + a % 2) + m * 2 * (a / 2 / m)
    parts = omega (arith, div-add-mod (a / 2) m)

pub halved : (w a : ℕ) → a % 2 ^ suc w ≡ a / 2 % 2 ^ w * 2 + a % 2
halved w a = ap (λ t. a % t) (pow-suc 2 w) ∙ mod-double a (2 ^ w) (one-le-pow w 2 (omega arith))

lowest_digit : (x y : ℕ) → x < 2 → y < 2 → (x == 1) ≡ (y == 1) → x ≡ y
lowest_digit zero zero h k e = refl
lowest_digit zero (suc zero) h k e = absurd (false≢true e)
lowest_digit (suc zero) zero h k e = absurd (false≢true (sym e))
lowest_digit (suc zero) (suc zero) h k e = refl
lowest_digit (suc (suc x)) y h k e = absurd (omega arith)
lowest_digit x (suc (suc y)) h k e = absurd (omega arith)

-- Reduction keeps the digits below.
pub test_bit-mod : (w i a : ℕ) → i < w → test_bit i (a % 2 ^ w) ≡ test_bit i a
unfolding test_bit
test_bit-mod zero i a h = absurd (omega arith)
test_bit-mod (suc w) zero a h = ap (λ t. t == 1) (ap (λ t. t % 2) (halved w a) ∙ omega arith)
test_bit-mod (suc w) (suc i) a h =
    ap (test_bit i) (ap (λ t. t / 2) (halved w a) ∙ omega arith)
    ∙ test_bit-mod w i (a / 2) (omega arith)

-- A number of `w` digits is its digits.
pub bits_ext :
    (w a b : ℕ) → a < 2 ^ w → b < 2 ^ w → ((i : ℕ) → i < w → test_bit i a ≡ test_bit i b) → a ≡ b
unfolding test_bit
bits_ext zero a b ha hb h = omega arith
bits_ext (suc w) a b ha hb h = omega (
  arith,
  bits_ext w (a / 2) (b / 2) (omega (arith, pow-suc 2 w)) (omega (arith, pow-suc 2 w))
      λ i k. h (suc i) (omega arith),
  lowest_digit (a % 2) (b % 2) (omega arith) (omega arith) (h 0 (omega arith)),
)
