-- ===== src/Prelude/Panics.antt =====
-- What a Rust call does: it returns a value, or it panics.
use mathlib.Core.Path.{◌≡◌, refl}
use mathlib.Core.Bool.{Bool, true, false}
use mathlib.Core.Option.{Option, none, some}
use reverie_ppr.Prelude.Lists.{if◌then◌else◌}

-- The panics that the code can raise: `expect("witness is too short")`, the `assert!` of
-- `zero_check`, an index past the end of a `Vec`, `unwrap` of an iterator that is at its end, and
-- `assert_eq!` of two lengths; in src/main.rs, `unwrap` of what is absent, `unreachable!`, and clap's check of a type. A
-- write through `get_unchecked_mut` past the end of an array does not panic: its behaviour is
-- undefined, and the model stops there.
pub data Panic : Type 0 where
  witness_too_short witness_invalid out_of_bounds nothing_left unequal_lengths undefined
        unwrap_failed unreachable_code type_mismatch :
      Panic

pub data Outcome {ℓ} (A : Type ℓ) : Type ℓ where
  ok : A → Outcome A
  panic : Panic → Outcome A

infixl 5 ◌>>=◌
abbrev pub ◌>>=◌ {ℓ κ} : {A : Type ℓ} {B : Type κ} → Outcome A → (A → Outcome B) → Outcome B
ok a >>= f = f a
panic e >>= f = panic e

abbrev pub map_ok {ℓ κ} : {A : Type ℓ} {B : Type κ} → (A → B) → Outcome A → Outcome B
map_ok f (ok a) = ok (f a)
map_ok f (panic e) = panic e

abbrev pub from_option {ℓ} : {A : Type ℓ} → Panic → Option A → Outcome A
from_option e none = panic e
from_option e (some a) = ok a

pub >>=-eq-ok {ℓ κ} :
    {A : Type ℓ} {B : Type κ} (call : Outcome A) (rest : A → Outcome B) {result : B}
    → (call >>= rest) ≡ ok result
    → (value : A) × (call ≡ ok value) × (rest value ≡ ok result)
>>=-eq-ok (panic _) rest returns = cc
>>=-eq-ok (ok value) rest returns = (value, refl, returns)

pub ok_injective {ℓ} : {A : Type ℓ} {a b : A} → ok a ≡ ok b → a ≡ b
ok_injective h = cc

pub from_option-eq-ok {ℓ} :
    {A : Type ℓ} (e : Panic) (o : Option A) {a : A} → from_option e o ≡ ok a → o ≡ some a
from_option-eq-ok e none h = cc
from_option-eq-ok e (some a) h = cc

pub map_ok-eq-ok {ℓ κ} :
    {A : Type ℓ} {B : Type κ} (f : A → B) (m : Outcome A) {y : B}
    → map_ok f m ≡ ok y
    → (x : A) × (m ≡ ok x) × (f x ≡ y)
map_ok-eq-ok f (ok x) e = (x, refl, ok_injective e)
map_ok-eq-ok f (panic k) e = cc

-- A view of the state commutes with a bind when it does with what follows.
pub map_ok-bind {ℓ κ μ ν} :
    {A : Type ℓ} {A' : Type κ} {B : Type μ} {B' : Type ν} (m : Outcome A) (f : A → A') (h : B → B')
    (g : A' → Outcome B') (k : A → Outcome B)
    → ((a : A) → m ≡ ok a → g (f a) ≡ map_ok h (k a))
    → (map_ok f m >>= g) ≡ map_ok h (m >>= k)
map_ok-bind (ok a) f h g k p = p a refl
map_ok-bind (panic e) f h g k p = refl

-- What follows a passed `assert!`.
pub assert-eq-ok {ℓ κ} :
    {A : Type ℓ} {B : Type κ} (test : Bool) (e : Panic) (a : A) (f : A → Outcome B) {b : B}
    → ((if test then ok a else panic e) >>= f) ≡ ok b
    → f a ≡ ok b
assert-eq-ok true e a f h = h
assert-eq-ok false e a f h = cc
