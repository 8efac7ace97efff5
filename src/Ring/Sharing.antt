-- ===== src/Ring/Sharing.antt =====
-- Identities of masked values: `m` stands for a reconstructed mask and `c` for a correction.
use reverie_ppr.Prelude.{◌≡◌, sym, ap, ◌∙◌, ◌≡⟨◌⟩◌, ◌∎}
use reverie_ppr.Ring.{Ring, ◌⊕◌, ◌⊖◌, ◌⊗◌, add_interchange, sub_unique, add-mul}

module _ {A : Type 0} ⦃r : Ring A⦄ where
  pub sub_interchange : (m n c d : A) → (m ⊖ n) ⊕ (c ⊖ d) ≡ (m ⊕ c) ⊖ (n ⊕ d)
  sub_interchange m n c d = sym (
      sub_unique _ (n ⊕ d) (m ⊕ c) (
        add_interchange _ _ _ _
        ∙ ap (λ t. t ⊕ ((c ⊖ d) ⊕ d)) (r.sub-add m n)
        ∙ ap (◌⊕◌ m) (r.sub-add c d)))

  -- A fresh mask and the correction of an input share the input.
  pub add-sub_cancel : (m x : A) → m ⊕ (x ⊖ m) ≡ x
  add-sub_cancel m x = r.add_comm m (x ⊖ m) ∙ r.sub-add x m

  module _ (m n ab new c d : A) where
    abbrev cross : A
    cross = n ⊗ c ⊕ m ⊗ d

    unmasked : (((cross ⊕ ab) ⊖ new) ⊕ (m ⊗ n ⊖ ab)) ⊕ c ⊗ d ≡ ((cross ⊕ m ⊗ n) ⊕ c ⊗ d) ⊖ new
    unmasked = sym (
        sub_unique _ new _ (
          ((((cross ⊕ ab) ⊖ new) ⊕ (m ⊗ n ⊖ ab)) ⊕ c ⊗ d) ⊕ new
          ≡⟨ r.add_comm _ new ⟩ new ⊕ ((((cross ⊕ ab) ⊖ new) ⊕ (m ⊗ n ⊖ ab)) ⊕ c ⊗ d)
          ≡⟨ sym (r.add_assoc new _ _) ⟩ (new ⊕ (((cross ⊕ ab) ⊖ new) ⊕ (m ⊗ n ⊖ ab))) ⊕ c ⊗ d
          ≡⟨ ap (λ t. t ⊕ c ⊗ d) (sym (r.add_assoc new _ _)) ⟩
            ((new ⊕ ((cross ⊕ ab) ⊖ new)) ⊕ (m ⊗ n ⊖ ab)) ⊕ c ⊗ d
          ≡⟨ ap (λ t. (t ⊕ (m ⊗ n ⊖ ab)) ⊕ c ⊗ d) (add-sub_cancel new (cross ⊕ ab)) ⟩
            ((cross ⊕ ab) ⊕ (m ⊗ n ⊖ ab)) ⊕ c ⊗ d
          ≡⟨ ap (λ t. t ⊕ c ⊗ d) (r.add_assoc cross ab _) ⟩ (cross ⊕ (ab ⊕ (m ⊗ n ⊖ ab))) ⊕ c ⊗ d
          ≡⟨ ap (λ t. (cross ⊕ t) ⊕ c ⊗ d) (add-sub_cancel ab (m ⊗ n)) ⟩ (cross ⊕ m ⊗ n) ⊕ c ⊗ d ∎))

    expanded : (m ⊕ c) ⊗ (n ⊕ d) ≡ (cross ⊕ m ⊗ n) ⊕ c ⊗ d
    expanded =
        (m ⊕ c) ⊗ (n ⊕ d)
        ≡⟨ add-mul m c (n ⊕ d) ⟩ m ⊗ (n ⊕ d) ⊕ c ⊗ (n ⊕ d)
        ≡⟨ (rw (r.mul-add m n d, r.mul-add c n d, r.mul_comm c n)) ⟩
          (m ⊗ n ⊕ m ⊗ d) ⊕ (n ⊗ c ⊕ c ⊗ d)
        ≡⟨ sym (r.add_assoc _ _ _) ⟩ ((m ⊗ n ⊕ m ⊗ d) ⊕ n ⊗ c) ⊕ c ⊗ d
        ≡⟨ ap (λ t. t ⊕ c ⊗ d)
            (r.add_assoc _ _ _ ∙ r.add_comm _ _ ∙ ap (λ t. t ⊕ m ⊗ n) (r.add_comm _ _)) ⟩
          (cross ⊕ m ⊗ n) ⊕ c ⊗ d ∎

    -- The product gate: with the broadcast sum, the correction `m * n - ab` and the product of
    -- the corrections, the new mask shares the product of the two wires.
    pub masked_product :
        new ⊕ ((((n ⊗ c ⊕ m ⊗ d ⊕ ab) ⊖ new) ⊕ (m ⊗ n ⊖ ab)) ⊕ c ⊗ d) ≡ (m ⊕ c) ⊗ (n ⊕ d)
    masked_product = ap (◌⊕◌ new) unmasked ∙ add-sub_cancel new _ ∙ sym expanded
