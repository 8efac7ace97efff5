-- ===== src/Generator/Redo.antt =====
-- generator: two generators that hold the same keys at two repetitions.
use native.Mathlib.Decide.{dec_lt}
use reverie_ppr.Prelude.{
  ◌+◌, ◌<◌, ◌≡◌, refl, sym, ◌∙◌, ap, ap₂, fun_ext, Fin, Array, fin, fin_congr,
}
use reverie_ppr.Crypto.{StreamCipher, Blake3, Key}
use reverie_ppr.Algebra.{Domain, Lanes, players, packed, batch_size}
use reverie_ppr.Generator.{
  ShareGen, batch_gen, batch_gen_new, new_from_batch_gen, share_gen_new, refill, next,
}
use reverie_ppr.Generator.Omit.{next_within, next_refilled}

module _ ⦃c : StreamCipher⦄ ⦃b : Blake3⦄ (D : Domain) (L : Lanes D) (i j : Fin packed) where
  abbrev pub SameShare : D.Share → D.Share → Type 0
  SameShare s s' = L.share_lane s' j ≡ L.share_lane s i

  pub record Redoes (g g' : ShareGen D) : Type 0 where
    pub same_idx : g'.next_idx ≡ g.next_idx
    pub shares : (k : Fin batch_size) → SameShare (g.shares k) (g'.shares k)
    pub batches : g'.batches j ≡ g.batches i
    pub gens : g'.gens j ≡ g.gens i

  pub share_gen_new-Redoes :
      (keys keys' : Array (Array Key players) packed)
      → keys' j ≡ keys i
      → Redoes (share_gen_new D keys (λ r. players)) (share_gen_new D keys' (λ r. players))
  unfolding share_gen_new batch_gen_new new_from_batch_gen
  share_gen_new-Redoes keys keys' e = record {
    same_idx = refl;
    shares = λ k. fun_ext λ p. L.share_zero-lane j p ∙ sym (L.share_zero-lane i p);
    batches = refl;
    gens = ap (λ ks. batch_gen_new D ks players) e;
  }

  module _ (g g' : ShareGen D) (m : Redoes g g') where
    same_batch : batch_gen D (g'.gens j) (g'.batches j) ≡ batch_gen D (g.gens i) (g.batches i)
    same_batch = ap₂ (batch_gen D) m.gens m.batches

    refill-Redoes : Redoes (refill D g) (refill D g')
    unfolding refill
    refill-Redoes = record {
      same_idx = refl;
      shares = λ k. fun_ext λ p.
          L.batches_to_shares-lane _ k j p
          ∙ ap (λ r. L.batch_lane (r.1 p) k) same_batch
          ∙ sym (L.batches_to_shares-lane (λ x. (batch_gen D (g.gens x) (g.batches x)).1) k i p);
      batches = ap (λ r. r.1) same_batch;
      gens = ap (λ r. r.0) same_batch;
    }

    -- `next` on both sides gives the same repetition.
    pub next-Redoes : SameShare (next D g).0 (next D g').0 × Redoes (next D g).1 (next D g').1
    next-Redoes = elim (dec_lt g.next_idx batch_size) [
      | yes h ↦ within h (rw (m.same_idx) h)
      | no h ↦ refilled h (rw (m.same_idx) h)
    ]
      where
        within :
            (h : g.next_idx < batch_size)
            → (h' : g'.next_idx < batch_size)
            → SameShare (next D g).0 (next D g').0 × Redoes (next D g).1 (next D g').1
        within h h' =
            rw
              (
                next_within D g h,
                next_within D g' h',
                fin_congr batch_size g'.next_idx g.next_idx h' h m.same_idx,
              )
              (
                m.shares (fin batch_size g.next_idx h),
                record {
                  same_idx = ap (λ t. t + 1) m.same_idx;
                  shares = m.shares;
                  batches = m.batches;
                  gens = m.gens;
                },
              )

        refilled :
            ¬ (g.next_idx < batch_size)
            → ¬ (g'.next_idx < batch_size)
            → SameShare (next D g).0 (next D g').0 × Redoes (next D g).1 (next D g').1
        refilled h h' =
            rw (next_refilled D g h, next_refilled D g' h')
              (
                refill-Redoes.shares Fin.zero,
                record {
                  same_idx = refl;
                  shares = refill-Redoes.shares;
                  batches = refill-Redoes.batches;
                  gens = refill-Redoes.gens;
                },
              )
