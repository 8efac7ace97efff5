-- ===== src/Generator/Keys.antt =====
-- generator: every share of a generator made without one player's key, as in the test
-- `share_generator_test` of generator/share.rs.
use native.Mathlib.Omega.{arith}
use reverie_ppr.Prelude.{
  ℕ, zero, suc, ◌≡◌, refl, ◌∙◌, ap, fun_ext, Fin, Array, val, val-lt, same, false, ◌==◌, Bool-cases,
  inl, inr,
}
use reverie_ppr.Crypto.{StreamCipher, Blake3, Key}
use reverie_ppr.Crypto.Prg.{prg_new}
use reverie_ppr.Algebra.{Domain, Lanes, players, packed}
use reverie_ppr.Generator.{ShareGen, batch_gen_new, new_from_batch_gen, share_gen_new, next}
use reverie_ppr.Generator.Omit.{hide, Matches, next-Matches}

module _ ⦃c : StreamCipher⦄ ⦃b : Blake3⦄ (D : Domain) where
  -- A generator after some calls of `next`.
  unfoldable pub advance : ℕ → ShareGen D → ShareGen D
  advance zero g = g
  advance (suc n) g = advance n (next D g).1

  module _ (L : Lanes D) (i j : Fin packed) (o : Fin players) where
    index_below : (p : Fin players) → (val p == players) ≡ false
    index_below p = ground (arith, val-lt p)

    hide_blank :
        (s : D.Share)
        → ((p : Fin players) → L.share_lane s i p ≡ L.ring.zero)
        → (p : Fin players) → L.ring.zero ≡ hide D L i j o (L.share_lane s i) p
    hide_blank s h p = elim (Bool-cases (same p o)) [ inl e ↦ rw e | inr e ↦ rw (e, h p) ]

    pub share_gen_new-Matches :
        (keys keys' : Array (Array Key players) packed) (omit' : Array ℕ packed)
        → omit' j ≡ val o
        → ((p : Fin players) → same p o ≡ false → keys' j p ≡ keys i p)
        → Matches D L i j o (share_gen_new D keys (λ r. players)) (share_gen_new D keys' omit')
    unfolding share_gen_new batch_gen_new new_from_batch_gen
    share_gen_new-Matches keys keys' omit' omits opened = record {
      same_idx = refl;
      shares =
          λ k. fun_ext λ p. L.share_zero-lane j p ∙ hide_blank D.share_zero (L.share_zero-lane i) p;
      blank = L.batch_default-lane;
      whole = index_below;
      omits = omits;
      streams = λ p e. ap prg_new (opened p e);
    }

    advance-Matches :
        (n : ℕ) (g g' : ShareGen D)
        → Matches D L i j o g g'
        → Matches D L i j o (advance n g) (advance n g')
    unfolding advance
    advance-Matches zero g g' m = m
    advance-Matches (suc n) g g' m = advance-Matches n _ _ (next-Matches D L i j o g g' m).1

    -- Let the second generator hold at its repetition `j` the keys that the first holds at `i`,
    -- but for player `o`, whose index it is given to omit. Then however many shares were taken
    -- from both, refills included, in the next share the second generator's repetition `j` is the
    -- first one's repetition `i` with the part of player `o` zero and the parts of all other
    -- players the same.
    pub next-omit :
        (keys keys' : Array (Array Key players) packed) (omit' : Array ℕ packed)
        → omit' j ≡ val o
        → ((p : Fin players) → same p o ≡ false → keys' j p ≡ keys i p)
        → (n : ℕ)
        → L.share_lane (next D (advance n (share_gen_new D keys' omit'))).0 j
          ≡ hide D L i j o
              (L.share_lane (next D (advance n (share_gen_new D keys (λ r. players)))).0 i)
    next-omit keys keys' omit' omits opened n =
        (next-Matches D L i j o _ _
          (advance-Matches n _ _ (share_gen_new-Matches keys keys' omit' omits opened))).0
