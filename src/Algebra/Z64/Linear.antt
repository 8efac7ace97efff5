-- ===== src/Algebra/Z64/Linear.antt =====
-- algebra/z64/domain.rs and share.rs: the operations on shares against those on what they share.
use reverie_ppr.Prelude.{◌≡◌, refl, sym, ◌∙◌, ap, ap₂, fun_ext, Fin}
use reverie_ppr.Ring.{sub_unique}
use reverie_ppr.Ring.Sum.{total, add_all-zero, total-add, total-sub, total-mul, total-first}
use reverie_ppr.Word.{u64_ring, wrapping_add, wrapping_sub, wrapping_mul}
use reverie_ppr.Algebra.Z64.{ReconZ64, ShareZ64}
use reverie_ppr.Algebra.Z64.Recon
use reverie_ppr.Algebra.Z64.Share
use reverie_ppr.Algebra.Z64.Domain.{reconstruct, share_mul, share_add_recon, share_sub_recon}

reconstruct-total : (s : ShareZ64) (i : Fin 8) → reconstruct s i ≡ total 8 (s i)
unfolding reconstruct
reconstruct-total s i = add_all-zero 8 (s i)

module _ (s : ShareZ64) (i : Fin 8) where
  add_lane :
      (t : ShareZ64) → reconstruct (Share.add s t) i ≡ Recon.add (reconstruct s) (reconstruct t) i
  unfolding Share.add Recon.add
  add_lane t =
      reconstruct-total _ i
      ∙ total-add 8 (s i) (t i)
      ∙ sym (ap₂ wrapping_add (reconstruct-total s i) (reconstruct-total t i))

  sub_lane :
      (t : ShareZ64) → reconstruct (Share.sub s t) i ≡ Recon.sub (reconstruct s) (reconstruct t) i
  unfolding Share.sub Recon.sub
  sub_lane t =
      reconstruct-total _ i
      ∙ total-sub 8 (s i) (t i)
      ∙ sym (ap₂ wrapping_sub (reconstruct-total s i) (reconstruct-total t i))

  module _ (x : ReconZ64) where
    mul_lane : reconstruct (share_mul s x) i ≡ Recon.mul (reconstruct s) x i
    unfolding share_mul Recon.mul
    mul_lane =
        reconstruct-total _ i
        ∙ total-mul 8 (s i) (x i)
        ∙ sym (ap (λ t. wrapping_mul t (x i)) (reconstruct-total s i))

    add_recon_lane : reconstruct (share_add_recon s x) i ≡ Recon.add (reconstruct s) x i
    unfolding share_add_recon Recon.add
    add_recon_lane =
        reconstruct-total _ i
        ∙ total-first 7 (s i) (share_add_recon s x i) (x i) refl refl
        ∙ sym (ap (λ t. wrapping_add t (x i)) (reconstruct-total s i))

    sub_recon_lane : reconstruct (share_sub_recon s x) i ≡ Recon.sub (reconstruct s) x i
    unfolding share_sub_recon Recon.sub
    sub_recon_lane =
        reconstruct-total _ i
        ∙ sym (
            sub_unique _ (x i) _ (
              sym (
                total-first 7 (share_sub_recon s x i) (s i) (x i)
                  (sym (u64_ring.sub-add (s i Fin.zero) (x i))) refl)))
        ∙ sym (ap (λ t. wrapping_sub t (x i)) (reconstruct-total s i))

-- In the domain over 64-bit words, what the players do on their shares is what is meant on the
-- shared values: the sum and the difference of two sharings, the product of a sharing with a
-- public value, and the addition and the subtraction of a public value by the first player
-- reconstruct to the wrapping sum, difference and product, in every repetition.
pub reconstruct_lem :
    (s t : ShareZ64) (x : ReconZ64)
    → (reconstruct (Share.add s t) ≡ Recon.add (reconstruct s) (reconstruct t))
      × (reconstruct (Share.sub s t) ≡ Recon.sub (reconstruct s) (reconstruct t))
      × (reconstruct (share_mul s x) ≡ Recon.mul (reconstruct s) x)
      × (reconstruct (share_add_recon s x) ≡ Recon.add (reconstruct s) x)
      × (reconstruct (share_sub_recon s x) ≡ Recon.sub (reconstruct s) x)
reconstruct_lem s t x = (
  fun_ext (λ i. add_lane s i t),
  fun_ext (λ i. sub_lane s i t),
  fun_ext (λ i. mul_lane s i x),
  fun_ext (λ i. add_recon_lane s i x),
  fun_ext (λ i. sub_recon_lane s i x),
)
