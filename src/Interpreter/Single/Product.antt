-- ===== src/Interpreter/Single/Product.antt =====
-- The product gate on the prover's side: the wire that `op_mul` makes hides the product.
use reverie_ppr.Prelude.{◌≡◌, sym, ap, ap₂, ◌∙◌, Fin}
use reverie_ppr.Ring.Sharing.{masked_product}
use reverie_ppr.Crypto.{StreamCipher, Blake3}
use reverie_ppr.Algebra.{Domain, Lanes, packed}
use reverie_ppr.Transcript.{Wire}
use reverie_ppr.Transcript.Prover
use reverie_ppr.Transcript.Prover.{ProverTranscript, prover}
use reverie_ppr.Interpreter.Single.{value, op_mul, mul_share}
use reverie_ppr.Interpreter.Single.Value.{
  secret, secret_add, secret_sub, secret_mul, WireIsValid, value-lane, value-IsValid,
}

module _ ⦃c : StreamCipher⦄ ⦃b : Blake3⦄ (D : Domain) (L : Lanes D) where
  open L use {recon_lane, IsValid}

  -- The wire that the prover's `op_mul` makes of its masks.
  product_corr : Wire D → Wire D → D.Share → D.Share → D.Recon
  product_corr w v mask_ab mask_new =
      D.recon_add
        (D.recon_add (D.reconstruct (mul_share D w v mask_ab mask_new)) (
          D.recon_sub (D.recon_mul (D.reconstruct w.mask) (D.reconstruct v.mask))
            (D.reconstruct mask_ab)))
        (D.recon_mul w.corr v.corr)

  module _ (w v : Wire D) (valid_w : WireIsValid D L w) (valid_v : WireIsValid D L v)
      (mask_ab mask_new : D.Share) where
    product_corr-IsValid : IsValid (product_corr w v mask_ab mask_new)
    unfolding product_corr
    product_corr-IsValid =
        L.recon_add-IsValid _ _
          (L.recon_add-IsValid _ _ (L.reconstruct-IsValid _) (
            L.recon_sub-IsValid _ _
              (L.recon_mul-IsValid _ _ (L.reconstruct-IsValid _) (L.reconstruct-IsValid _))
              (L.reconstruct-IsValid _)))
          (L.recon_mul-IsValid _ _ valid_w valid_v)

    mul_share-lane :
        (i : Fin packed)
        → secret D L (mul_share D w v mask_ab mask_new) i
          ≡ L.ring.sub
              (L.ring.add
                (L.ring.add
                  (L.ring.mul (secret D L v.mask i) (recon_lane w.corr i))
                  (L.ring.mul (secret D L w.mask i) (recon_lane v.corr i)))
                (secret D L mask_ab i))
              (secret D L mask_new i)
    unfolding mul_share
    mul_share-lane i =
        secret_sub D L _ _ i
        ∙ ap (λ t. L.ring.sub t (secret D L mask_new i))
            (secret_add D L _ _ i
              ∙ ap (λ t. L.ring.add t (secret D L mask_ab i))
                  (secret_add D L _ _ i
                    ∙ ap₂ L.ring.add (secret_mul D L v.mask w.corr valid_w i)
                        (secret_mul D L w.mask v.corr valid_v i)))

    -- The product wire hides the product.
    product_value :
        value D (record { mask = mask_new; corr = product_corr w v mask_ab mask_new })
        ≡ D.recon_mul (value D w) (value D v)
    product_value =
        L.recon_ext _ _ (value-IsValid D L _ product_corr-IsValid)
          (L.recon_mul-IsValid _ _ (value-IsValid D L w valid_w) (value-IsValid D L v valid_v))
          lanes
      where
        corr-lane :
            (i : Fin packed)
            → recon_lane (product_corr w v mask_ab mask_new) i
              ≡ L.ring.add
                  (L.ring.add (secret D L (mul_share D w v mask_ab mask_new) i) (
                    L.ring.sub
                      (L.ring.mul (secret D L w.mask i) (secret D L v.mask i))
                      (secret D L mask_ab i)))
                  (L.ring.mul (recon_lane w.corr i) (recon_lane v.corr i))
        corr-lane i =
            unfold product_corr in
            (L.recon_add-lane _ _ i
              ∙ ap₂ L.ring.add
                  (L.recon_add-lane _ _ i
                    ∙ ap₂ L.ring.add (L.reconstruct-lane _ i) (
                        L.recon_sub-lane _ _ i
                        ∙ ap₂ L.ring.sub
                            (L.recon_mul-lane _ _ i
                              ∙ ap₂ L.ring.mul (L.reconstruct-lane _ i) (L.reconstruct-lane _ i))
                            (L.reconstruct-lane _ i)))
                  (L.recon_mul-lane _ _ i))

        lanes :
            (i : Fin packed)
            → recon_lane
                (value D (record { mask = mask_new; corr = product_corr w v mask_ab mask_new }))
                i
              ≡ recon_lane (D.recon_mul (value D w) (value D v)) i
        lanes i =
            value-lane D L _ i
            ∙ ap (L.ring.add (secret D L mask_new i)) (
                corr-lane i
                ∙ ap
                    (λ t.
                      L.ring.add
                        (L.ring.add t (
                          L.ring.sub (L.ring.mul (secret D L w.mask i) (secret D L v.mask i))
                            (secret D L mask_ab i)))
                        (L.ring.mul (recon_lane w.corr i) (recon_lane v.corr i)))
                    (mul_share-lane i))
            ∙ masked_product ⦃r = L.ring⦄ _ _ _ _ _ _
            ∙ sym
                (L.recon_mul-lane _ _ i ∙ ap₂ L.ring.mul (value-lane D L w i) (value-lane D L v i))

  -- On the prover's transcript and two wires with valid corrections, `op_mul` makes a wire whose
  -- value is the product of the values of its sources, whatever the masks are: the debug assertion
  -- in it holds.
  pub value-op_mul :
      (t : ProverTranscript D) (w v : Wire D)
      → WireIsValid D L w
      → WireIsValid D L v
      → value D (op_mul D (prover D) t w v).0 ≡ D.recon_mul (value D w) (value D v)
  unfolding op_mul Prover.new_mask Prover.correction Prover.reconstruct product_corr
  value-op_mul t w v valid_w valid_v = product_value w v valid_w valid_v _ _

  pub op_mul-IsValid :
      (t : ProverTranscript D) (w v : Wire D)
      → WireIsValid D L w
      → WireIsValid D L v
      → WireIsValid D L (op_mul D (prover D) t w v).0
  unfolding op_mul Prover.new_mask Prover.correction Prover.reconstruct product_corr
  op_mul-IsValid t w v valid_w valid_v = product_corr-IsValid w v valid_w valid_v _ _
