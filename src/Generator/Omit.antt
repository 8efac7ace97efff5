-- ===== src/Generator/Omit.antt =====
-- generator: a verifier's generator, which omits one player, against the prover's. Repetition
-- `j` of the verifier stands for repetition `i` of the prover.
use mathlib.Core.Logic.{dif_pos, dif_neg}
use native.Mathlib.Bridge.{le_prop}
use native.Mathlib.Decide.{dec_lt}
use reverie_ppr.Prelude.{
  ◌+◌, ◌<◌, ◌≡◌, refl, sym, ap, ◌∙◌, fun_ext, Fin, Array, val, fin, fin_congr, same, same_refl,
  eq_of_same, val-eqb, true, false, Bool-cases, inl, inr, ◌==◌, if◌then◌else◌,
}
use reverie_ppr.Crypto.{StreamCipher, Blake3}
use reverie_ppr.Algebra.{Domain, Lanes, players, packed, batch_size}
use reverie_ppr.Generator.{ShareGen, batch_gen, refill, next}

module _ ⦃c : StreamCipher⦄ ⦃b : Blake3⦄ (D : Domain) where
  pub next_within :
      (g : ShareGen D) (h : g.next_idx < batch_size)
      → next D g ≡ (g.shares (fin batch_size g.next_idx h), record g { next_idx = g.next_idx + 1 })
  unfolding next
  next_within g h = dif_pos (dec_lt g.next_idx batch_size) le_prop h _ _

  pub next_refilled :
      (g : ShareGen D)
      → ¬ (g.next_idx < batch_size)
      → next D g ≡ ((refill D g).shares Fin.zero, record (refill D g) { next_idx = 1 })
  unfolding next
  next_refilled g h = dif_neg (dec_lt g.next_idx batch_size) h _ _

module _ ⦃c : StreamCipher⦄ ⦃b : Blake3⦄ (D : Domain) (L : Lanes D) (i j : Fin packed)
    (o : Fin players) where
  -- A repetition's shares without those of the omitted player.
  abbrev pub hide : Array L.Lane players → Array L.Lane players
  hide a p = if same p o then L.ring.zero else a p

  pub record Matches (g g' : ShareGen D) : Type 0 where
    pub same_idx : g'.next_idx ≡ g.next_idx
    pub shares :
        (k : Fin batch_size) → L.share_lane (g'.shares k) j ≡ hide (L.share_lane (g.shares k) i)
    pub blank : (k : Fin batch_size) → L.batch_lane (g'.batches j o) k ≡ L.ring.zero
    pub whole : (p : Fin players) → (val p == (g.gens i).omit) ≡ false
    pub omits : (g'.gens j).omit ≡ val o
    pub streams : (p : Fin players) → same p o ≡ false → (g'.gens j).prgs p ≡ (g.gens i).prgs p

  hide_omitted :
      (a : Array L.Lane players) (p : Fin players) → same p o ≡ true → hide a p ≡ L.ring.zero
  hide_omitted a p e = rw e

  hide_opened : (a : Array L.Lane players) (p : Fin players) → same p o ≡ false → hide a p ≡ a p
  hide_opened a p e = rw e

  module _ (g g' : ShareGen D) (m : Matches g g') where
    omitted_test : (p : Fin players) → (val p == (g'.gens j).omit) ≡ same p o
    omitted_test p = rw (m.omits) (val-eqb p o)

    batch_blank :
        (p : Fin players)
        → same p o ≡ true
        → (batch_gen D (g'.gens j) (g'.batches j)).1 p ≡ g'.batches j o
    unfolding batch_gen
    batch_blank p e = rw (omitted_test p, e, eq_of_same p o e)

    batch_opened :
        (p : Fin players)
        → same p o ≡ false
        → (batch_gen D (g'.gens j) (g'.batches j)).1 p ≡ (batch_gen D (g.gens i) (g.batches i)).1 p
    unfolding batch_gen
    batch_opened p e = rw (omitted_test p, e, m.whole p, m.streams p e)

    stream_opened :
        (p : Fin players)
        → same p o ≡ false
        → (batch_gen D (g'.gens j) (g'.batches j)).0.prgs p
          ≡ (batch_gen D (g.gens i) (g.batches i)).0.prgs p
    unfolding batch_gen
    stream_opened p e = rw (omitted_test p, e, m.whole p, m.streams p e)

    refilled_share :
        (k : Fin batch_size) (p : Fin players)
        → L.share_lane ((refill D g').shares k) j p
          ≡ hide (L.share_lane ((refill D g).shares k) i) p
    unfolding refill
    refilled_share k p = elim (Bool-cases (same p o)) [
      | inl e ↦
          L.batches_to_shares-lane _ k j p
          ∙ ap (λ t. L.batch_lane t k) (batch_blank p e)
          ∙ m.blank k
          ∙ sym (hide_omitted (L.share_lane ((refill D g).shares k) i) p e)
      | inr e ↦
          L.batches_to_shares-lane _ k j p
          ∙ ap (λ t. L.batch_lane t k) (batch_opened p e)
          ∙ sym (L.batches_to_shares-lane (λ x. (batch_gen D (g.gens x) (g.batches x)).1) k i p)
          ∙ sym (hide_opened (L.share_lane ((refill D g).shares k) i) p e)
    ]

    refill-Matches : Matches (refill D g) (refill D g')
    unfolding refill batch_gen
    refill-Matches = record {
      same_idx = refl;
      shares = λ k. fun_ext (refilled_share k);
      blank = λ k. ap (λ t. L.batch_lane t k) (batch_blank o (same_refl o)) ∙ m.blank k;
      whole = m.whole;
      omits = m.omits;
      streams = stream_opened;
    }

    -- `next` on both sides: the verifier's share lacks the omitted player's part alone.
    pub next-Matches :
        (L.share_lane (next D g').0 j ≡ hide (L.share_lane (next D g).0 i))
        × Matches (next D g).1 (next D g').1
    next-Matches = elim (dec_lt g.next_idx batch_size) [
      | yes h ↦ within h (rw (m.same_idx) h)
      | no h ↦ refilled h (rw (m.same_idx) h)
    ]
      where
        within :
            (h : g.next_idx < batch_size)
            → (h' : g'.next_idx < batch_size)
            → (L.share_lane (next D g').0 j ≡ hide (L.share_lane (next D g).0 i))
              × Matches (next D g).1 (next D g').1
        within h h' =
            rw
              (
                next_within D g h,
                next_within D g' h',
                fin_congr batch_size g'.next_idx g.next_idx h' h m.same_idx,
              )
              (
                m.shares (fin batch_size g.next_idx h),
                record {
                  same_idx = ap (λ t. t + 1) m.same_idx;
                  shares = m.shares;
                  blank = m.blank;
                  whole = m.whole;
                  omits = m.omits;
                  streams = m.streams;
                },
              )

        refilled :
            ¬ (g.next_idx < batch_size)
            → ¬ (g'.next_idx < batch_size)
            → (L.share_lane (next D g').0 j ≡ hide (L.share_lane (next D g).0 i))
              × Matches (next D g).1 (next D g').1
        refilled h h' =
            rw (next_refilled D g h, next_refilled D g' h')
              (
                refill-Matches.shares Fin.zero,
                record {
                  same_idx = refl;
                  shares = refill-Matches.shares;
                  blank = refill-Matches.blank;
                  whole = refill-Matches.whole;
                  omits = refill-Matches.omits;
                  streams = refill-Matches.streams;
                },
              )
