-- ===== src/Ring.antt =====
-- The algebra that one lane of a packed element obeys.
pub mod Sum
pub mod Sharing
use reverie_ppr.Prelude.{◌≡◌, sym, ap, ◌∙◌}

pub record Ring (A : Type 0) : Type 0 where
  pub zero : A
  pub add : A → A → A
  pub sub : A → A → A
  pub mul : A → A → A
  pub sub-add : (x y : A) → add (sub x y) y ≡ x
  pub add-sub : (x y : A) → sub (add x y) y ≡ x
  pub zero-add : (x : A) → add zero x ≡ x
  pub add_comm : (x y : A) → add x y ≡ add y x
  pub add_assoc : (x y z : A) → add (add x y) z ≡ add x (add y z)
  pub mul_comm : (x y : A) → mul x y ≡ mul y x
  pub mul-add : (x y z : A) → mul x (add y z) ≡ add (mul x y) (mul x z)

module _ {A : Type 0} ⦃s : Ring A⦄ where
  infixl 65 ◌⊕◌ ◌⊖◌
  infixl 70 ◌⊗◌
  abbrev pub ◌⊕◌ : A → A → A
  a ⊕ b = s.add a b

  abbrev pub ◌⊖◌ : A → A → A
  a ⊖ b = s.sub a b

  abbrev pub ◌⊗◌ : A → A → A
  a ⊗ b = s.mul a b

  pub add-zero : (a : A) → a ⊕ s.zero ≡ a
  add-zero a = s.add_comm a s.zero ∙ s.zero-add a

  pub add_left_comm : (a b c : A) → a ⊕ (b ⊕ c) ≡ b ⊕ (a ⊕ c)
  add_left_comm a b c =
      sym (s.add_assoc a b c) ∙ ap (λ t. t ⊕ c) (s.add_comm a b) ∙ s.add_assoc b a c

  pub add_interchange : (a b c d : A) → (a ⊕ b) ⊕ (c ⊕ d) ≡ (a ⊕ c) ⊕ (b ⊕ d)
  add_interchange a b c d = simp s.add_assoc (ap (◌⊕◌ a) (add_left_comm b c d))

  pub add-mul : (a b c : A) → (a ⊕ b) ⊗ c ≡ a ⊗ c ⊕ b ⊗ c
  add-mul a b c = simp (s.mul_comm a c, s.mul_comm b c, s.mul_comm (a ⊕ b) c) (s.mul-add c a b)

  -- Addition of one element can be undone on both sides of an equation.
  pub add_right_cancel : (a b c : A) → a ⊕ c ≡ b ⊕ c → a ≡ b
  add_right_cancel a b c h = sym (s.add-sub a c) ∙ ap (λ t. t ⊖ c) h ∙ s.add-sub b c

  pub sub_unique : (a b c : A) → a ⊕ b ≡ c → c ⊖ b ≡ a
  sub_unique a b c h = rw (← h) (s.add-sub a b)

  pub sub_self : (a : A) → a ⊖ a ≡ s.zero
  sub_self a = sub_unique s.zero a a (s.zero-add a)

  pub mul-zero : (a : A) → a ⊗ s.zero ≡ s.zero
  mul-zero a =
      add_right_cancel (a ⊗ s.zero) s.zero (a ⊗ s.zero)
        (sym (s.mul-add a s.zero s.zero) ∙ ap (◌⊗◌ a) (s.zero-add s.zero) ∙ sym (s.zero-add _))

  pub zero-mul : (a : A) → s.zero ⊗ a ≡ s.zero
  zero-mul a = s.mul_comm s.zero a ∙ mul-zero a

  -- (x + y) - z = x + (y - z)
  pub add-sub_assoc : (x y z : A) → (x ⊕ y) ⊖ z ≡ x ⊕ (y ⊖ z)
  add-sub_assoc x y z =
      sub_unique (x ⊕ (y ⊖ z)) z (x ⊕ y) (s.add_assoc x (y ⊖ z) z ∙ ap (◌⊕◌ x) (s.sub-add y z))
