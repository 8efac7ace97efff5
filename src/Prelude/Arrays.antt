-- ===== src/Prelude/Arrays.antt =====
-- Rust arrays `[T; n]`: a function of an index below the static size.
use Prim.Native.Nat.{ℕ, ◌<◌}
use mathlib.Core.Path.{◌≡◌, refl, ap}
use mathlib.Core.Bool.{Bool, true, false, ◌&&◌}
use mathlib.Core.List.{List, [], ◌∷◌}
use native.Mathlib.Omega.{arith}

pub data Fin : ℕ → Type 0 where
  zero : {n : ℕ} → Fin (ℕ.suc n)
  suc : {n : ℕ} → Fin n → Fin (ℕ.suc n)

abbrev pub Array {ℓ} : Type ℓ → ℕ → Type ℓ
Array A n = Fin n → A

-- The index as a `usize`.
abbrev pub val : {size : ℕ} → Array ℕ size
val zero = 0
val (suc index) = ℕ.suc (val index)

-- The index test of a loop over a static array.
abbrev pub same : {n : ℕ} → Fin n → Fin n → Bool
same zero zero = true
same zero (suc j) = false
same (suc i) zero = false
same (suc i) (suc j) = same i j

pub same_refl : {n : ℕ} (i : Fin n) → same i i ≡ true
same_refl zero = refl
same_refl (suc i) = same_refl i

pub eq_of_same : {n : ℕ} (i j : Fin n) → same i j ≡ true → i ≡ j
eq_of_same zero zero h = refl
eq_of_same zero (suc j) h = cc
eq_of_same (suc i) zero h = cc
eq_of_same (suc i) (suc j) h = ap suc (eq_of_same i j h)

pub val-lt : {n : ℕ} (i : Fin n) → val i < n
val-lt zero = omega arith
val-lt (suc i) = omega (arith, val-lt i)

module _ {ℓ} {A : Type ℓ} where
  -- The elements of an array, in order.
  abbrev pub to_list : (n : ℕ) → Array A n → List A
  to_list ℕ.zero a = []
  to_list (ℕ.suc n) a = a zero ∷ to_list n (λ i. a (suc i))

  -- `a.iter().all(p)`
  abbrev pub all : (n : ℕ) → (A → Bool) → Array A n → Bool
  all ℕ.zero p a = true
  all (ℕ.suc n) p a = p (a zero) && all n p (λ i. a (suc i))

  -- An array literal whose tail may repeat one value.
  abbrev pub literal : (n : ℕ) → A → List A → Array A n
  literal (ℕ.suc n) d [] zero = d
  literal (ℕ.suc n) d (x ∷ xs) zero = x
  literal (ℕ.suc n) d [] (suc i) = d
  literal (ℕ.suc n) d (x ∷ xs) (suc i) = literal n d xs i
  literal ℕ.zero d xs i = elim i [ ]

  pub all→ :
      {n : ℕ} (p : A → Bool) (a : Array A n) → all n p a ≡ true → (i : Fin n) → p (a i) ≡ true
  all→ p a h zero = ground arith
  all→ p a h (suc i) = all→ p (λ k. a (suc k)) (ground arith) i

  pub →all :
      (n : ℕ) (p : A → Bool) (a : Array A n) → ((i : Fin n) → p (a i) ≡ true) → all n p a ≡ true
  →all ℕ.zero p a h = refl
  →all (ℕ.suc n) p a h = ground (arith, h zero, →all n p (λ i. a (suc i)) (λ i. h (suc i)))

pub lt_of_suc-lt-suc : {k n : ℕ} → ℕ.suc k < ℕ.suc n → k < n
lt_of_suc-lt-suc h = omega arith

-- The index of a number that was tested against the size.
abbrev pub fin : (n k : ℕ) → k < n → Fin n
fin ℕ.zero k h = absurd (omega arith)
fin (ℕ.suc n) ℕ.zero h = zero
fin (ℕ.suc n) (ℕ.suc k) h = suc (fin n k (lt_of_suc-lt-suc h))

pub fin_congr : (n k k' : ℕ) (h : k < n) (h' : k' < n) → k ≡ k' → fin n k h ≡ fin n k' h'
fin_congr ℕ.zero k k' h h' e = absurd (omega arith)
fin_congr (ℕ.suc n) ℕ.zero ℕ.zero h h' e = refl
fin_congr (ℕ.suc n) ℕ.zero (ℕ.suc k') h h' e = absurd (omega arith)
fin_congr (ℕ.suc n) (ℕ.suc k) ℕ.zero h h' e = absurd (omega arith)
fin_congr (ℕ.suc n) (ℕ.suc k) (ℕ.suc k') h h' e =
    ap suc (fin_congr n k k' (lt_of_suc-lt-suc h) (lt_of_suc-lt-suc h') (omega arith))

pub fin-val : {n : ℕ} (i : Fin n) (h : val i < n) → fin n (val i) h ≡ i
fin-val zero h = refl
fin-val (suc i) h = ap suc (fin-val i (lt_of_suc-lt-suc h))

pub val-fin : (n k : ℕ) (h : k < n) → val (fin n k h) ≡ k
val-fin ℕ.zero k h = absurd (omega arith)
val-fin (ℕ.suc n) ℕ.zero h = refl
val-fin (ℕ.suc n) (ℕ.suc k) h = ap ℕ.suc (val-fin n k (lt_of_suc-lt-suc h))

-- An array of one more element, at the front.
abbrev pub push_front {ℓ} : {A : Type ℓ} {n : ℕ} → A → Array A n → Array A (ℕ.suc n)
push_front x xs zero = x
push_front x xs (suc i) = xs i
