-- ===== src/Ring/Sum.antt =====
-- The loop `for j in 0..n { acc = acc + f(j) }` of the reconstruction, and what it computes.
use reverie_ppr.Prelude.{ℕ, ◌≡◌, refl, sym, ap, ap₂, ◌∙◌, Fin, Array}
use reverie_ppr.Ring.{Ring, ◌⊕◌, ◌⊖◌, ◌⊗◌, add-zero, add_interchange, sub_unique, add-mul, zero-mul}

abbrev pub rest {ℓ} : {A : Type ℓ} {n : ℕ} → Array A (ℕ.suc n) → Array A n
rest a i = a (Fin.suc i)

module _ {A : Type 0} ⦃r : Ring A⦄ where
  unfoldable pub add_all : (n : ℕ) → A → Array A n → A
  add_all ℕ.zero acc shares = acc
  add_all (ℕ.suc n) acc shares = add_all n (acc ⊕ shares Fin.zero) (rest shares)

  -- The sum of the shares of all players.
  unfoldable pub total : (n : ℕ) → Array A n → A
  total ℕ.zero shares = r.zero
  total (ℕ.suc n) shares = shares Fin.zero ⊕ total n (rest shares)

  add_all-total :
      (n : ℕ) (acc : A) (shares : Array A n) → add_all n acc shares ≡ acc ⊕ total n shares
  unfolding add_all total
  add_all-total ℕ.zero acc shares = sym (add-zero acc)
  add_all-total (ℕ.suc n) acc shares =
      rw (← r.add_assoc acc (shares Fin.zero) (total n (rest shares)))
        (add_all-total n (acc ⊕ shares Fin.zero) (rest shares))

  pub add_all-zero : (n : ℕ) (shares : Array A n) → add_all n r.zero shares ≡ total n shares
  add_all-zero n shares = add_all-total n r.zero shares ∙ r.zero-add _

  pub total-zero : (n : ℕ) → total n (λ _. r.zero) ≡ r.zero
  unfolding total
  total-zero ℕ.zero = refl
  total-zero (ℕ.suc n) = rw (total-zero n) (r.zero-add r.zero)

  pub total-add : (n : ℕ) (a b : Array A n) → total n (λ p. a p ⊕ b p) ≡ total n a ⊕ total n b
  unfolding total
  total-add ℕ.zero a b = sym (r.zero-add r.zero)
  total-add (ℕ.suc n) a b = rw (total-add n (rest a) (rest b)) (add_interchange _ _ _ _)

  pub total-sub : (n : ℕ) (a b : Array A n) → total n (λ p. a p ⊖ b p) ≡ total n a ⊖ total n b
  total-sub n a b = sym (sub_unique _ _ _ together)
    where
      together : total n (λ p. a p ⊖ b p) ⊕ total n b ≡ total n a
      together = sym (total-add n _ b) ∙ ap (total n) (λ i p. r.sub-add (a p) (b p) i)

  pub total-mul : (n : ℕ) (a : Array A n) (c : A) → total n (λ p. a p ⊗ c) ≡ total n a ⊗ c
  unfolding total
  total-mul ℕ.zero a c = sym (zero-mul c)
  total-mul (ℕ.suc n) a c = rw (total-mul n (rest a) c) (sym (add-mul _ _ c))

  -- One player's share is changed.
  pub total-first :
      (n : ℕ) (a d : Array A (ℕ.suc n)) (x : A)
      → d Fin.zero ≡ a Fin.zero ⊕ x
      → rest d ≡ rest a
      → total (ℕ.suc n) d ≡ total (ℕ.suc n) a ⊕ x
  unfolding total
  total-first n a d x first others =
      ap₂ r.add first (ap (total n) others)
      ∙ r.add_assoc _ x _
      ∙ ap (r.add (a Fin.zero)) (r.add_comm x _)
      ∙ sym (r.add_assoc _ _ x)
