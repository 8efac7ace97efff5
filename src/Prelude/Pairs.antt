-- ===== src/Prelude/Pairs.antt =====
-- Two lists related element by element, read and written at the same index.
use Prim.Native.Nat.{ℕ, zero, suc}
use mathlib.Core.Path.{◌≡◌, refl, ap, subst}
use mathlib.Core.List.{List, [], ◌∷◌, ◌++◌}
use mathlib.Core.Option.{Option, none, some}
use reverie_ppr.Prelude.Lists.{cons?, set?, replicate, length}
use reverie_ppr.Prelude.Panics.{ok, out_of_bounds, from_option, ok_injective, from_option-eq-ok}
use reverie_ppr.Prelude.Vecs.{read, write, All}

abbrev pub AllPairs {ℓ} : {A B : Type ℓ} → (A → B → Type 0) → List A → List B → Type 0
AllPairs R [] [] = Unit {0}
AllPairs R [] (y ∷ ys) = ⊥
AllPairs R (x ∷ xs) [] = ⊥
AllPairs R (x ∷ xs) (y ∷ ys) = R x y × AllPairs R xs ys

cons?-eq-some {ℓ} :
    {A : Type ℓ} (x : A) (o : Option (List A)) {ys : List A}
    → cons? x o ≡ some ys
    → (zs : List A) × (o ≡ some zs) × (x ∷ zs ≡ ys)
cons?-eq-some x none e = cc
cons?-eq-some x (some zs) e = (zs, refl, cc)

module _ {ℓ} {A B : Type ℓ} (R : A → B → Type 0) where
  pub AllPairs-read :
      (xs : List A) (ys : List B) (k : ℕ) {x : A}
      → AllPairs R xs ys
      → read xs k ≡ ok x
      → (y : B) × (read ys k ≡ ok y) × R x y
  unfolding read
  AllPairs-read [] [] k h e = cc
  AllPairs-read [] (y ∷ ys) k h e = absurd h
  AllPairs-read (x ∷ xs) [] k h e = absurd h
  AllPairs-read (x ∷ xs) (y ∷ ys) zero h e = (y, refl, subst (λ z. R z y) (ok_injective e) h.0)
  AllPairs-read (x ∷ xs) (y ∷ ys) (suc k) h e = AllPairs-read xs ys k h.1 e

  AllPairs-set? :
      (xs : List A) (ys : List B) (k : ℕ) (x : A) (y : B) {zs : List A}
      → R x y
      → AllPairs R xs ys
      → set? xs k x ≡ some zs
      → (us : List B) × (set? ys k y ≡ some us) × AllPairs R zs us
  AllPairs-set? [] [] k x y r h e = cc
  AllPairs-set? [] (v ∷ ys) k x y r h e = absurd h
  AllPairs-set? (u ∷ xs) [] k x y r h e = absurd h
  AllPairs-set? (u ∷ xs) (v ∷ ys) zero x y {zs} r h e =
      (y ∷ ys, refl, subst (λ l. AllPairs R l (y ∷ ys)) {x = x ∷ xs} (cc) (r, h.1))
  AllPairs-set? (u ∷ xs) (v ∷ ys) (suc k) x y r h e =
      let (zs', e₁, e₂) = cons?-eq-some u (set? xs k x) e in
      let (us, e₃, rest) = AllPairs-set? xs ys k x y r h.1 e₁ in
      (v ∷ us, ap (cons? v) e₃, subst (λ l. AllPairs R l (v ∷ us)) e₂ (h.0, rest))

  pub AllPairs-write :
      (xs : List A) (ys : List B) (k : ℕ) (x : A) (y : B) {zs : List A}
      → R x y
      → AllPairs R xs ys
      → write xs k x ≡ ok zs
      → (us : List B) × (write ys k y ≡ ok us) × AllPairs R zs us
  unfolding write
  AllPairs-write xs ys k x y r h e =
      let (us, e₁, rest) =
        AllPairs-set? xs ys k x y r h (from_option-eq-ok out_of_bounds (set? xs k x) e) in
      (us, ap (from_option out_of_bounds) e₁, rest)

  pub AllPairs-replicate :
      (n : ℕ) (x : A) (y : B) → R x y → AllPairs R (replicate n x) (replicate n y)
  AllPairs-replicate zero x y r = tt
  AllPairs-replicate (suc n) x y r = (r, AllPairs-replicate n x y r)

  pub AllPairs-append :
      (xs xs' : List A) (ys ys' : List B)
      → AllPairs R xs ys
      → AllPairs R xs' ys'
      → AllPairs R (xs ++ xs') (ys ++ ys')
  AllPairs-append [] xs' [] ys' h k = k
  AllPairs-append [] xs' (y ∷ ys) ys' h k = absurd h
  AllPairs-append (x ∷ xs) xs' [] ys' h k = absurd h
  AllPairs-append (x ∷ xs) xs' (y ∷ ys) ys' h k = (h.0, AllPairs-append xs xs' ys ys' h.1 k)

  pub AllPairs-length : (xs : List A) (ys : List B) → AllPairs R xs ys → length xs ≡ length ys
  AllPairs-length [] [] h = refl
  AllPairs-length [] (y ∷ ys) h = absurd h
  AllPairs-length (x ∷ xs) [] h = absurd h
  AllPairs-length (x ∷ xs) (y ∷ ys) h = ap suc (AllPairs-length xs ys h.1)

-- The elements of the first list are matched by the front of the second.
abbrev pub Feeds {ℓ} : {A B : Type ℓ} → (A → B → Type 0) → List A → List B → Type 0
Feeds R [] ys = Unit {0}
Feeds R (x ∷ xs) [] = ⊥
Feeds R (x ∷ xs) (y ∷ ys) = R x y × Feeds R xs ys

pub Feeds-map {ℓ} :
    {A B : Type ℓ} (R Q : A → B → Type 0) (P : A → Type 0) (xs : List A) (ys : List B)
    → ((x : A) (y : B) → P x → R x y → Q x y)
    → All P xs
    → Feeds R xs ys
    → Feeds Q xs ys
Feeds-map R Q P [] ys f p h = tt
Feeds-map R Q P (x ∷ xs) [] f p h = h
Feeds-map R Q P (x ∷ xs) (y ∷ ys) f p h = (f x y p.0 h.0, Feeds-map R Q P xs ys f p.1 h.1)

pub Feeds-cons {ℓ} :
    {A B : Type ℓ} (R : A → B → Type 0) (x : A) (xs : List A) (ys : List B)
    → Feeds R (x ∷ xs) ys
    → (y : B) × (rest : List B) × (ys ≡ y ∷ rest) × R x y × Feeds R xs rest
Feeds-cons R x xs [] h = absurd h
Feeds-cons R x xs (y ∷ ys) h = (y, ys, refl, h.0, h.1)
