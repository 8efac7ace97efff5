-- ===== src/Algebra/Z64/Laws.antt =====
-- The domain over 2 ^ 64 is eight lanes of additive sharing in the ring of words.
use reverie_ppr.Prelude.{
  ℕ, ◌≡◌, refl, sym, ◌∙◌, ap, fun_ext, arith, List, [], ◌++◌, Fin, Array, true, ◌==◌, all→, →all,
}
use reverie_ppr.Word.{U64, U64_ext, number, wrap, u64_ring}
use reverie_ppr.Ring.Sum.{add_all-zero}
use reverie_ppr.Crypto.{StreamCipher, Blake3}
use reverie_ppr.Crypto.Hash.{BufferedHasher, absorbed, absorbed-update}
use reverie_ppr.Algebra.{Lanes}
use reverie_ppr.Algebra.Z64.{ReconZ64}
use reverie_ppr.Algebra.Z64.Bytes.{to_le_bytes}
use reverie_ppr.Algebra.Z64.Recon
use reverie_ppr.Algebra.Z64.Share
use reverie_ppr.Algebra.Z64.Domain.{
  domain_z64, share_mul, reconstruct, batches_to_shares, batch_zero,
}

pub is_zero→ : (x : ReconZ64) → Recon.is_zero x ≡ true → (i : Fin 8) → x i ≡ wrap 0
unfolding Recon.is_zero wrap
is_zero→ x h i =
    let e : (number (x i) == 0) ≡ true = all→ (λ w. number w == 0) x h i in
    U64_ext _ _ (ground arith)

pub →is_zero : (x : ReconZ64) → ((i : Fin 8) → x i ≡ wrap 0) → Recon.is_zero x ≡ true
unfolding Recon.is_zero wrap
→is_zero x h = →all 8 (λ w. number w == 0) x λ i. rw (h i)

-- The bytes of the players' words, one after the other.
abbrev pub join : (n : ℕ) → Array (List ℕ) n → List ℕ
join ℕ.zero words = []
join (ℕ.suc n) words = words Fin.zero ++ join n (λ j. words (Fin.suc j))

pub absorbed-update_all :
    ⦃b : Blake3⦄
    → (n : ℕ) (words : Array (List ℕ) n) (h : BufferedHasher)
    → absorbed (Share.update_all n words h) ≡ b.update (absorbed h) (join n words)
unfolding Share.update_all
absorbed-update_all ⦃b⦄ ℕ.zero words h = sym (b.update_nil _)
absorbed-update_all ⦃b⦄ (ℕ.suc n) words h =
    absorbed-update_all n (λ j. words (Fin.suc j)) _
    ∙ ap (λ t. b.update t (join n (λ j. words (Fin.suc j)))) (absorbed-update h (words Fin.zero))
    ∙ b.update_append _ _ _

module _ ⦃c : StreamCipher⦄ ⦃b : Blake3⦄ where
  unfoldable pub lanes_z64 : Lanes domain_z64
  unfolding Recon.recon_zero Recon.add Recon.sub Recon.mul Recon.from Recon.hash Share.share_zero
      Share.add Share.sub Share.hash share_mul reconstruct batches_to_shares batch_zero
  lanes_z64 = record {
    Lane = U64;
    ring = u64_ring;
    recon_lane = λ x. x;
    share_lane = λ s. s;
    batch_lane = λ x. x;
    const_lane = λ k. k;
    IsValid = λ _. Unit {0};
    recon_zero-lane = λ i. refl;
    recon_add-lane = λ x y i. refl;
    recon_sub-lane = λ x y i. refl;
    recon_mul-lane = λ x y i. refl;
    recon_ext = λ x y _ _ h. fun_ext h;
    is_zero_iff = λ x _. (is_zero→ x, →is_zero x);
    into-lane = λ k i. refl;
    share_zero-lane = λ i p. refl;
    share_add-lane = λ s t i p. refl;
    share_sub-lane = λ s t i p. refl;
    share_mul-lane = λ s x _ i p. refl;
    reconstruct-lane = λ s i. add_all-zero 8 (s i);
    batches_to_shares-lane = λ from k i p. refl;
    batch_default-lane = λ k. refl;
    recon_zero-IsValid = tt;
    recon_add-IsValid = λ x y _ _. tt;
    recon_sub-IsValid = λ x y _ _. tt;
    recon_mul-IsValid = λ x y _ _. tt;
    reconstruct-IsValid = λ s. tt;
    into-IsValid = λ k. tt;
    recon_bytes = to_le_bytes;
    share_bytes = λ a. join 8 (λ j. to_le_bytes (a j));
    recon_hash-lane = λ x h i _. absorbed-update (h i) (to_le_bytes (x i));
    share_hash-lane = λ s h i. absorbed-update_all 8 (λ j. to_le_bytes (s i j)) (h i);
  }
