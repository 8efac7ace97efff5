-- ===== src/Generator/Batches.antt =====
-- generator: which bytes of a player's stream a share is made of.
use native.Mathlib.Omega.{arith}
use reverie_ppr.Prelude.{
  ℕ, zero, suc, ◌+◌, ◌*◌, ◌<◌, ◌≡◌, refl, sym, ◌∙◌, ap, subst, Fin, Array, val, val-lt, fin,
  fin_congr, fin-val, val-fin, ◌≤◌, false, ◌==◌,
}
use reverie_ppr.Crypto.{StreamCipher, Blake3, Key}
use reverie_ppr.Crypto.Prg.{Prg, prg_new}
use reverie_ppr.Algebra.{Domain, Lanes, players, packed, batch_size}
use reverie_ppr.Generator.{
  ShareGen, batch_gen, batch_gen_new, new_from_batch_gen, share_gen_new, refill, next,
}
use reverie_ppr.Generator.Omit.{next_within, next_refilled}
use reverie_ppr.Generator.Keys.{advance}

module _ ⦃c : StreamCipher⦄ ⦃b : Blake3⦄ (D : Domain) where
  -- A generator of bytes after some batches, and the batch that it makes then.
  unfoldable pub after_batches : ℕ → Prg → Prg
  after_batches zero prg = prg
  after_batches (suc q) prg = (D.random (after_batches q prg)).1

  abbrev pub batch_number : ℕ → Prg → D.Batch
  batch_number q prg = (D.random (after_batches q prg)).0

  advance_add : (n m : ℕ) (g : ShareGen D) → advance D (n + m) g ≡ advance D m (advance D n g)
  unfolding advance
  advance_add zero m g = let e : 0 + m ≡ m = omega arith in ap (λ k. advance D k g) e
  advance_add (suc n) m g =
      let e : suc n + m ≡ suc (n + m) = omega arith in
      ap (λ k. advance D k g) e ∙ advance_add n m (next D g).1

  module _ (L : Lanes D) (i : Fin packed) (p : Fin players) (prg : Prg) where
    -- Batch `q` is the next that the player's part of repetition `i` is made of.
    record Ready (q : ℕ) (g : ShareGen D) : Type 0 where
      pub ended : g.next_idx ≡ batch_size
      pub opened : (val p == (g.gens i).omit) ≡ false
      pub stream : (g.gens i).prgs p ≡ after_batches q prg

    -- The shares are made of batch `q`, and the next one is number `k` of them.
    record Serves (q k : ℕ) (g : ShareGen D) : Type 0 where
      pub place : g.next_idx ≡ k
      pub opened : (val p == (g.gens i).omit) ≡ false
      pub stream : (g.gens i).prgs p ≡ after_batches (suc q) prg
      pub shares :
          (m : Fin batch_size) → L.share_lane (g.shares m) i p ≡ L.batch_lane (batch_number q prg) m

    Ready-Serves : (q : ℕ) (g : ShareGen D) → Ready q g → Serves q 0 (refill D g)
    unfolding refill batch_gen after_batches
    Ready-Serves q g r = record {
      place = refl;
      opened = r.opened;
      stream = rw (r.opened, r.stream) refl;
      shares = λ m. L.batches_to_shares-lane _ m i p ∙ rw (r.opened, r.stream) refl;
    }

    next-Serves :
        (q : ℕ) (k : Fin batch_size) (g : ShareGen D)
        → Serves q (val k) g
        → (L.share_lane (next D g).0 i p ≡ L.batch_lane (batch_number q prg) k)
          × Serves q (suc (val k)) (next D g).1
    next-Serves q k g s =
        let h : g.next_idx < batch_size = omega (arith, s.place, val-lt k) in
        let at =
          fin_congr batch_size g.next_idx (val k) h (val-lt k) s.place ∙ fin-val k (val-lt k) in
        rw (next_within D g h) (
          s.shares (fin batch_size g.next_idx h) ∙ ap (L.batch_lane (batch_number q prg)) at,
          record {
            place = omega (arith, s.place);
            opened = s.opened;
            stream = s.stream;
            shares = s.shares;
          },
        )

    next-Ready :
        (q : ℕ) (g : ShareGen D)
        → Ready q g
        → (L.share_lane (next D g).0 i p ≡ L.batch_lane (batch_number q prg) Fin.zero)
          × Serves q 1 (next D g).1
    next-Ready q g r =
        let filled = Ready-Serves q g r in
        rw (next_refilled D g (λ h. absurd (omega (arith, h, r.ended)))) (
          filled.shares Fin.zero,
          record {
            place = refl;
            opened = filled.opened;
            stream = filled.stream;
            shares = filled.shares;
          },
        )

    advance-Serves :
        (q m k : ℕ) (g : ShareGen D)
        → k + m ≤ batch_size
        → Serves q k g
        → Serves q (k + m) (advance D m g)
    unfolding advance
    advance-Serves q zero k g h s = subst (λ n. Serves q n g) (omega arith) s
    advance-Serves q (suc m) k g h s =
        let below : k < batch_size = omega (arith, h) in
        let at : val (fin batch_size k below) ≡ k = val-fin batch_size k below in
        let (_, s') =
          next-Serves q (fin batch_size k below) g (subst (λ n. Serves q n g) (sym at) s) in
        subst (λ n. Serves q n (advance D m (next D g).1)) (omega (arith, at))
          (advance-Serves q m (suc (val (fin batch_size k below))) (next D g).1
            (omega (arith, at, h)) s')

    -- A whole batch of shares.
    advance-Ready : (q : ℕ) (g : ShareGen D) → Ready q g → Ready (suc q) (advance D batch_size g)
    unfolding advance
    advance-Ready q g r =
        let s = advance-Serves q 127 1 (next D g).1 (omega arith) (next-Ready q g r).1 in
        record { ended = s.place; opened = s.opened; stream = s.stream }

    advance_batches-Ready :
        (q : ℕ) (g : ShareGen D) → Ready 0 g → Ready q (advance D (batch_size * q) g)
    unfolding advance
    advance_batches-Ready zero g r = r
    advance_batches-Ready (suc q) g r =
        let more : batch_size * q + batch_size ≡ batch_size * suc q = omega arith in
        subst (λ n. Ready (suc q) (advance D n g)) more
          (subst (Ready (suc q)) (sym (advance_add (batch_size * q) batch_size g))
            (advance-Ready q (advance D (batch_size * q) g) (advance_batches-Ready q g r)))

    next-Batch :
        (q : ℕ) (k : Fin batch_size) (g : ShareGen D)
        → Ready q g
        → L.share_lane (next D (advance D (val k) g)).0 i p ≡ L.batch_lane (batch_number q prg) k
    unfolding advance
    next-Batch q Fin.zero g r = (next-Ready q g r).0
    next-Batch q (Fin.suc m) g r =
        let place : 1 + val m ≡ suc (val m) = omega arith in
        let s =
          advance-Serves q (val m) 1 (next D g).1 (omega (arith, val-lt m)) (next-Ready q g r).1 in
        (next-Serves q (Fin.suc m) _
          (subst (λ n. Serves q n (advance D (val m) (next D g).1)) place s)).0

  -- Share number `128 * q + k` that a new generator returns, refills included, has as the part of
  -- a player in a repetition the element `k` of batch `q` of the generator of bytes of that
  -- player's key alone, where the player is not omitted in the repetition.
  pub next-batch_number :
      (L : Lanes D) (keys : Array (Array Key players) packed) (omit : Array ℕ packed)
      (i : Fin packed) (p : Fin players)
      → (val p == omit i) ≡ false
      → (q : ℕ) (k : Fin batch_size)
      → L.share_lane (next D (advance D (batch_size * q + val k) (share_gen_new D keys omit))).0 i p
        ≡ L.batch_lane (batch_number q (prg_new (keys i p))) k
  unfolding share_gen_new batch_gen_new new_from_batch_gen after_batches
  next-batch_number L keys omit i p opened q k =
      ap (λ g. L.share_lane (next D g).0 i p)
        (advance_add (batch_size * q) (val k) (share_gen_new D keys omit))
      ∙ next-Batch L i p (prg_new (keys i p)) q k _ (
          advance_batches-Ready L i p (prg_new (keys i p)) q (share_gen_new D keys omit)
            (record { ended = refl; opened = opened; stream = refl }))
