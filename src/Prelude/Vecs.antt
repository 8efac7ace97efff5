-- ===== src/Prelude/Vecs.antt =====
-- Reads and writes of a `Vec` by index, which panic past its end.
use Prim.Native.Nat.{ℕ, zero, suc}
use mathlib.Core.Path.{◌≡◌, refl, ap, ◌∙◌, subst}
use mathlib.Core.List.{List, [], ◌∷◌, map, ◌++◌}
use mathlib.Core.Option.{Option, none, some}
use mathlib.Core.Option
use reverie_ppr.Prelude.Lists.{get_elem?, cons?, set?, replicate}
use reverie_ppr.Prelude.Panics.{
  Outcome, ok, out_of_bounds, from_option, map_ok, ok_injective, from_option-eq-ok,
}

-- `xs[k]`
unfoldable pub read {ℓ} : {A : Type ℓ} → List A → ℕ → Outcome A
read xs k = from_option out_of_bounds (get_elem? xs k)

-- `xs[k] = a`
unfoldable pub write {ℓ} : {A : Type ℓ} → List A → ℕ → A → Outcome (List A)
write xs k a = from_option out_of_bounds (set? xs k a)

abbrev pub All {ℓ κ} : {A : Type ℓ} → (A → Type κ) → List A → Type κ
All P [] = Unit
All P (x ∷ xs) = P x × All P xs

module _ {ℓ κ} {A : Type ℓ} (P : A → Type κ) where
  pub All-read : (xs : List A) (k : ℕ) {a : A} → All P xs → read xs k ≡ ok a → P a
  unfolding read
  All-read [] k h e = cc
  All-read (x ∷ xs) zero h e = subst P (ok_injective e) h.0
  All-read (x ∷ xs) (suc k) h e = All-read xs k h.1 e

  abbrev AllOption : Option (List A) → Type κ
  AllOption none = Unit
  AllOption (some xs) = All P xs

  AllOption-cons? : (x : A) (o : Option (List A)) → P x → AllOption o → AllOption (cons? x o)
  AllOption-cons? x none p h = tt
  AllOption-cons? x (some ys) p h = (p, h)

  AllOption-set? : (xs : List A) (k : ℕ) (a : A) → P a → All P xs → AllOption (set? xs k a)
  AllOption-set? [] k a p h = tt
  AllOption-set? (x ∷ xs) zero a p h = (p, h.1)
  AllOption-set? (x ∷ xs) (suc k) a p h =
      AllOption-cons? x (set? xs k a) h.0 (AllOption-set? xs k a p h.1)

  pub All-write :
      (xs : List A) (k : ℕ) (a : A) {ys : List A} → P a → All P xs → write xs k a ≡ ok ys → All P ys
  unfolding write
  All-write xs k a p h e =
      subst AllOption (from_option-eq-ok _ (set? xs k a) e) (AllOption-set? xs k a p h)

  pub All-snoc : (xs : List A) (a : A) → All P xs → P a → All P (xs ++ a ∷ [])
  All-snoc [] a h p = (p, tt)
  All-snoc (x ∷ xs) a h p = (h.0, All-snoc xs a h.1 p)

  pub All-append : (xs ys : List A) → All P xs → All P ys → All P (xs ++ ys)
  All-append [] ys h k = k
  All-append (x ∷ xs) ys h k = (h.0, All-append xs ys h.1 k)

  pub All-replicate : (n : ℕ) {a : A} → P a → All P (replicate n a)
  All-replicate zero p = tt
  All-replicate (suc n) p = (p, All-replicate n p)

module _ {ℓ κ} {A : Type ℓ} {B : Type κ} (f : A → B) where
  pub read-map : (xs : List A) (k : ℕ) → read (map f xs) k ≡ map_ok f (read xs k)
  unfolding read
  read-map [] k = refl
  read-map (x ∷ xs) zero = refl
  read-map (x ∷ xs) (suc k) = read-map xs k

  cons?-map :
      (x : A) (o : Option (List A))
      → cons? (f x) (Option.map (map f) o) ≡ Option.map (map f) (cons? x o)
  cons?-map x none = refl
  cons?-map x (some ys) = refl

  set?-map :
      (xs : List A) (k : ℕ) (a : A) → set? (map f xs) k (f a) ≡ Option.map (map f) (set? xs k a)
  set?-map [] k a = refl
  set?-map (x ∷ xs) zero a = refl
  set?-map (x ∷ xs) (suc k) a = ap (cons? (f x)) (set?-map xs k a) ∙ cons?-map x (set? xs k a)

  from_option-map :
      {C : Type ℓ} {D : Type κ} (g : C → D) (o : Option C)
      → from_option out_of_bounds (Option.map g o) ≡ map_ok g (from_option out_of_bounds o)
  from_option-map g none = refl
  from_option-map g (some a) = refl

  pub write-map :
      (xs : List A) (k : ℕ) (a : A) → write (map f xs) k (f a) ≡ map_ok (map f) (write xs k a)
  unfolding write
  write-map xs k a =
      ap (from_option out_of_bounds) (set?-map xs k a) ∙ from_option-map (map f) (set? xs k a)
