-- ===== src/Word.antt =====
-- `u64` as a number below 2 ^ 64 with the wrapping operations of Rust.
pub mod Bits
use mathlib.Core.HLevel.{Σ_prop_path}
use native.Mathlib.Bridge.{le_prop}
use native.Mathlib.Nat.{mul-add-mod_self_left, div-add-mod, mul_comm}
use reverie_ppr.Prelude.{ℕ, ◌+◌, ◌-◌, ◌*◌, ◌/◌, ◌%◌, ◌^◌, ◌<◌, ◌≡◌, sym, ap, ◌∙◌, arith}
use reverie_ppr.Ring.{Ring}

abbrev pub modulus : ℕ
modulus = 2 ^ 64

abbrev pub U64 : Type 0
U64 = (n : ℕ) × (n < modulus)

abbrev pub number : U64 → ℕ
number a = a.0

pub mod-lt_modulus : (n : ℕ) → n % modulus < modulus
mod-lt_modulus n = omega arith

-- Reduction of a number to 64 bits.
unfoldable pub wrap : ℕ → U64
wrap n = (n % modulus, mod-lt_modulus n)

pub U64_ext : (a b : U64) → number a ≡ number b → a ≡ b
U64_ext a b p = Σ_prop_path (λ n. le_prop) p

unfoldable pub wrapping_add : U64 → U64 → U64
unfolding wrap
wrapping_add a b = wrap (number a + number b)

unfoldable pub wrapping_sub : U64 → U64 → U64
unfolding wrap
wrapping_sub a b = wrap (number a + modulus - number b)

unfoldable pub wrapping_mul : U64 → U64 → U64
unfolding wrap
wrapping_mul a b = wrap (number a * number b)

pub mul-mod : (a b m : ℕ) → a * (b % m) % m ≡ a * b % m
mul-mod a b m =
    sym (mul-add-mod_self_left m (a * (b / m)) (a * (b % m)))
    ∙ ap (λ (t : ℕ). t % m) (omega (arith, ap (λ (t : ℕ). a * t) (div-add-mod b m)))

pub wrapping_add_assoc :
    (a b c : U64) → wrapping_add (wrapping_add a b) c ≡ wrapping_add a (wrapping_add b c)
unfolding wrapping_add
wrapping_add_assoc a b c = U64_ext _ _ (omega arith)

pub wrapping_add_comm : (a b : U64) → wrapping_add a b ≡ wrapping_add b a
unfolding wrapping_add
wrapping_add_comm a b = U64_ext _ _ (omega arith)

pub zero-wrapping_add : (a : U64) → wrapping_add (wrap 0) a ≡ a
unfolding wrapping_add wrap
zero-wrapping_add a = U64_ext _ _ (omega (arith, a.1))

pub wrapping_sub-add : (a b : U64) → wrapping_add (wrapping_sub a b) b ≡ a
unfolding wrapping_add wrapping_sub
wrapping_sub-add a b = U64_ext _ _ (omega (arith, a.1, b.1))

pub wrapping_add-sub : (a b : U64) → wrapping_sub (wrapping_add a b) b ≡ a
unfolding wrapping_add wrapping_sub
wrapping_add-sub a b = U64_ext _ _ (omega (arith, a.1, b.1))

pub wrapping_mul_comm : (a b : U64) → wrapping_mul a b ≡ wrapping_mul b a
unfolding wrapping_mul
wrapping_mul_comm a b = U64_ext _ _ (ap (λ (t : ℕ). t % modulus) (mul_comm (number a) (number b)))

pub wrapping_mul-add :
    (a b c : U64)
    → wrapping_mul a (wrapping_add b c) ≡ wrapping_add (wrapping_mul a b) (wrapping_mul a c)
unfolding wrapping_mul wrapping_add
wrapping_mul-add a b c =
    U64_ext _ _ (mul-mod (number a) (number b + number c) modulus ∙ omega arith)

instance abbrev pub u64_ring : Ring U64
u64_ring = record {
  zero = wrap 0;
  add = wrapping_add;
  sub = wrapping_sub;
  mul = wrapping_mul;
  add_assoc = wrapping_add_assoc;
  add_comm = wrapping_add_comm;
  zero-add = zero-wrapping_add;
  sub-add = wrapping_sub-add;
  add-sub = wrapping_add-sub;
  mul_comm = wrapping_mul_comm;
  mul-add = wrapping_mul-add;
}
