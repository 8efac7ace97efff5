-- ===== src/Algebra/Codec.antt =====
-- algebra/mod.rs: what `Pack` and `PackSelected` are for: a repetition that is packed is
-- unpacked, at any position of another packed batch.
use reverie_ppr.Prelude.{
  ℕ, ◌≡◌, ◌<◌, List, [], Fin, Array, Bool, true, val, length, same, if◌then◌else◌, ok, Feeds, All,
}
use reverie_ppr.Crypto.{StreamCipher, Blake3}
use reverie_ppr.Algebra.{Domain, Lanes, players, packed}

module _ ⦃c : StreamCipher⦄ ⦃b : Blake3⦄ (D : Domain) (L : Lanes D) where
  -- The omitted player's part alone, which the proof carries.
  abbrev pub only : Fin players → Array L.Lane players → Array L.Lane players
  only o a p = if same p o then a p else L.ring.zero

  pub record Reads (i j : Fin packed) (x x' : D.Recon) : Type 0 where
    pub lane : L.recon_lane x' j ≡ L.recon_lane x i
    pub valid' : L.IsValid x'

  pub record ReadsShare (i j : Fin packed) (o : Fin players) (s s' : D.Share) : Type 0 where
    pub lane : L.share_lane s' j ≡ only o (L.share_lane s i)

  -- Stream `j` of `bytes` is what repetition `i` of `src` was packed to.
  pub record Codec : Type 0 where
    pub unpack-pack :
        (i j : Fin packed) (src : List D.Recon) (selected : Array Bool packed)
        (bytes : Array (List ℕ) packed)
        → All L.IsValid src
        → selected i ≡ true
        → bytes j ≡ D.pack (λ _. []) src selected i
        → ((r : Fin packed) → length (bytes r) ≡ length (bytes j))
        → (xs : List D.Recon) × (D.unpack [] bytes ≡ ok xs) × Feeds (Reads i j) src xs
    pub unpack_selected-pack_selected :
        (i j : Fin packed) (o : Fin players) (src : List D.Share) (omits omits' : Array ℕ packed)
        (bytes : Array (List ℕ) packed)
        → omits i ≡ val o
        → omits' j ≡ val o
        → ((r : Fin packed) → omits' r < players)
        → bytes j ≡ D.pack_selected (λ _. []) src omits i
        → ((r : Fin packed) → length (bytes r) ≡ length (bytes j))
        → (xs : List D.Share) × (D.unpack_selected [] bytes omits' ≡ ok xs)
          × Feeds (ReadsShare i j o) src xs
    -- A stream's length depends on how many elements were packed, and on nothing else.
    pub stream_size : ℕ → ℕ
    pub length-pack :
        (i : Fin packed) (src : List D.Recon) (selected : Array Bool packed)
        → selected i ≡ true
        → length (D.pack (λ _. []) src selected i) ≡ stream_size (length src)
    pub length-pack_selected :
        (i : Fin packed) (o : Fin players) (src : List D.Share) (omits : Array ℕ packed)
        → omits i ≡ val o
        → length (D.pack_selected (λ _. []) src omits i) ≡ stream_size (length src)
