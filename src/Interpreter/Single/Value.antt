-- ===== src/Interpreter/Single/Value.antt =====
-- The gates act on the values that wires share: each operation on wires is the operation on
-- their values.
use reverie_ppr.Prelude.{◌≡◌, sym, ap, ap₂, ◌∙◌, Fin}
use reverie_ppr.Ring.{add_interchange, add-sub_assoc, add-mul}
use reverie_ppr.Ring.Sum.{total, total-add, total-sub, total-mul, total-zero}
use reverie_ppr.Ring.Sharing.{sub_interchange}
use reverie_ppr.Crypto.{StreamCipher, Blake3}
use reverie_ppr.Algebra.{Domain, Lanes, players, packed}
use reverie_ppr.Transcript.{Wire}
use reverie_ppr.Interpreter.Single.{value, op_add, op_sub, op_add_const, op_sub_const, op_mul_const}

module _ ⦃c : StreamCipher⦄ ⦃b : Blake3⦄ (D : Domain) (L : Lanes D) where
  open L use {Lane, recon_lane, share_lane, IsValid}

  -- The value that a sharing hides, in one lane.
  abbrev pub secret : D.Share → Fin packed → Lane
  secret s i = total ⦃r = L.ring⦄ players (share_lane s i)

  pub secret_add :
      (s t : D.Share) (i : Fin packed)
      → secret (D.share_add s t) i ≡ L.ring.add (secret s i) (secret t i)
  secret_add s t i =
      ap (total ⦃r = L.ring⦄ players) (λ k p. L.share_add-lane s t i p k)
      ∙ total-add ⦃r = L.ring⦄ players _ _

  pub secret_sub :
      (s t : D.Share) (i : Fin packed)
      → secret (D.share_sub s t) i ≡ L.ring.sub (secret s i) (secret t i)
  secret_sub s t i =
      ap (total ⦃r = L.ring⦄ players) (λ k p. L.share_sub-lane s t i p k)
      ∙ total-sub ⦃r = L.ring⦄ players _ _

  pub secret_mul :
      (s : D.Share) (x : D.Recon)
      → IsValid x
      → (i : Fin packed) → secret (D.share_mul s x) i ≡ L.ring.mul (secret s i) (recon_lane x i)
  secret_mul s x v i =
      ap (total ⦃r = L.ring⦄ players) (λ k p. L.share_mul-lane s x v i p k)
      ∙ total-mul ⦃r = L.ring⦄ players _ _

  pub secret_zero : (i : Fin packed) → secret D.share_zero i ≡ L.ring.zero
  secret_zero i =
      ap (total ⦃r = L.ring⦄ players) (λ k p. L.share_zero-lane i p k)
      ∙ total-zero ⦃r = L.ring⦄ players

  -- A wire that the code may hold: its correction is a value that reconstruction produces.
  abbrev pub WireIsValid : Wire D → Type 0
  WireIsValid w = IsValid w.corr

  pub value-lane :
      (w : Wire D) (i : Fin packed)
      → recon_lane (value D w) i ≡ L.ring.add (secret w.mask i) (recon_lane w.corr i)
  unfolding value
  value-lane w i =
      L.recon_add-lane _ _ i
      ∙ ap (λ t. L.ring.add t (recon_lane w.corr i)) (L.reconstruct-lane w.mask i)

  pub value-IsValid : (w : Wire D) → WireIsValid w → IsValid (value D w)
  unfolding value
  value-IsValid w v = L.recon_add-IsValid _ _ (L.reconstruct-IsValid w.mask) v

  module _ (w v : Wire D) (valid_w : WireIsValid w) (valid_v : WireIsValid v) where
    pub op_add-IsValid : WireIsValid (op_add D w v)
    unfolding op_add
    op_add-IsValid = L.recon_add-IsValid _ _ valid_w valid_v

    pub op_sub-IsValid : WireIsValid (op_sub D w v)
    unfolding op_sub
    op_sub-IsValid = L.recon_sub-IsValid _ _ valid_w valid_v

    pub value-op_add : value D (op_add D w v) ≡ D.recon_add (value D w) (value D v)
    value-op_add =
        L.recon_ext _ _ (value-IsValid _ op_add-IsValid)
          (L.recon_add-IsValid _ _ (value-IsValid w valid_w) (value-IsValid v valid_v)) λ i. lanes i
      where
        lanes :
            (i : Fin packed)
            → recon_lane (value D (op_add D w v)) i
              ≡ recon_lane (D.recon_add (value D w) (value D v)) i
        lanes i =
            unfold op_add in
            (value-lane (op_add D w v) i
              ∙ ap₂ L.ring.add (secret_add w.mask v.mask i) (L.recon_add-lane w.corr v.corr i)
              ∙ add_interchange ⦃s = L.ring⦄ _ _ _ _
              ∙ sym (L.recon_add-lane _ _ i ∙ ap₂ L.ring.add (value-lane w i) (value-lane v i)))

    pub value-op_sub : value D (op_sub D w v) ≡ D.recon_sub (value D w) (value D v)
    value-op_sub =
        L.recon_ext _ _ (value-IsValid _ op_sub-IsValid)
          (L.recon_sub-IsValid _ _ (value-IsValid w valid_w) (value-IsValid v valid_v)) λ i. lanes i
      where
        lanes :
            (i : Fin packed)
            → recon_lane (value D (op_sub D w v)) i
              ≡ recon_lane (D.recon_sub (value D w) (value D v)) i
        lanes i =
            unfold op_sub in
            (value-lane (op_sub D w v) i
              ∙ ap₂ L.ring.add (secret_sub w.mask v.mask i) (L.recon_sub-lane w.corr v.corr i)
              ∙ sub_interchange ⦃r = L.ring⦄ _ _ _ _
              ∙ sym (L.recon_sub-lane _ _ i ∙ ap₂ L.ring.sub (value-lane w i) (value-lane v i)))

  module _ (w : Wire D) (k : D.Recon) (valid_w : WireIsValid w) (valid_k : IsValid k) where
    pub op_add_const-IsValid : WireIsValid (op_add_const D w k)
    unfolding op_add_const
    op_add_const-IsValid = L.recon_add-IsValid _ _ valid_w valid_k

    pub op_sub_const-IsValid : WireIsValid (op_sub_const D w k)
    unfolding op_sub_const
    op_sub_const-IsValid = L.recon_sub-IsValid _ _ valid_w valid_k

    pub op_mul_const-IsValid : WireIsValid (op_mul_const D w k)
    unfolding op_mul_const
    op_mul_const-IsValid = L.recon_mul-IsValid _ _ valid_w valid_k

    pub value-op_add_const : value D (op_add_const D w k) ≡ D.recon_add (value D w) k
    unfolding op_add_const
    value-op_add_const =
        L.recon_ext _ _ (value-IsValid _ op_add_const-IsValid)
          (L.recon_add-IsValid _ _ (value-IsValid w valid_w) valid_k)
          λ i.
            value-lane (op_add_const D w k) i
            ∙ ap (L.ring.add (secret w.mask i)) (L.recon_add-lane w.corr k i)
            ∙ sym (
                L.recon_add-lane _ _ i
                ∙ ap (λ t. L.ring.add t (recon_lane k i)) (value-lane w i)
                ∙ L.ring.add_assoc _ _ _)

    pub value-op_sub_const : value D (op_sub_const D w k) ≡ D.recon_sub (value D w) k
    unfolding op_sub_const
    value-op_sub_const =
        L.recon_ext _ _ (value-IsValid _ op_sub_const-IsValid)
          (L.recon_sub-IsValid _ _ (value-IsValid w valid_w) valid_k)
          λ i.
            value-lane (op_sub_const D w k) i
            ∙ ap (L.ring.add (secret w.mask i)) (L.recon_sub-lane w.corr k i)
            ∙ sym (
                L.recon_sub-lane _ _ i
                ∙ ap (λ t. L.ring.sub t (recon_lane k i)) (value-lane w i)
                ∙ add-sub_assoc ⦃s = L.ring⦄ _ _ _)

    pub value-op_mul_const : value D (op_mul_const D w k) ≡ D.recon_mul (value D w) k
    unfolding op_mul_const
    value-op_mul_const =
        L.recon_ext _ _ (value-IsValid _ op_mul_const-IsValid)
          (L.recon_mul-IsValid _ _ (value-IsValid w valid_w) valid_k)
          λ i.
            value-lane (op_mul_const D w k) i
            ∙ ap₂ L.ring.add (secret_mul w.mask k valid_k i) (L.recon_mul-lane w.corr k i)
            ∙ sym (
                L.recon_mul-lane _ _ i
                ∙ ap (λ t. L.ring.mul t (recon_lane k i)) (value-lane w i)
                ∙ add-mul ⦃s = L.ring⦄ _ _ _)
