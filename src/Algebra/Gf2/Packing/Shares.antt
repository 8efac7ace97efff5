-- ===== src/Algebra/Gf2/Packing/Shares.antt =====
-- algebra/gf2/share.rs: `unpack_selected` reads what `pack_selected` writes.
use reverie_ppr.Prelude.{
  ℕ, zero, suc, ◌+◌, ◌-◌, ◌*◌, ◌/◌, ◌<◌, ◌≡◌, ◌==◌, refl, sym, ◌∙◌, ap, fun_ext, subst, arith, Bool,
  eq_of_same, ◌⊎◌, true, false, not, List, [], ◌++◌, append_assoc, append-nil, Fin, Array, val,
  val-lt, val-eqb, same, to_list, literal, drop, length, ltb, all, all→, →all, if◌then◌else◌,
  Bool-cases, inl, inr, Feeds, ok,
}
use reverie_ppr.Ring.Sum.{rest}
use reverie_ppr.Bits.{test_bit, test_bit-zero}
use reverie_ppr.Word.Bits.{bit}
use reverie_ppr.Crypto.{StreamCipher, Blake3}
use reverie_ppr.Algebra.Codec.{ReadsShare}
use reverie_ppr.Algebra.Gf2.{ShareGf2}
use reverie_ppr.Algebra.Gf2.Bytes.{base}
use reverie_ppr.Algebra.Gf2.Share.{share_zero}
use reverie_ppr.Algebra.Gf2.Transpose.{byte_to_shares_avx2}
use reverie_ppr.Algebra.Gf2.Columns.{bit-byte_to_shares_avx2}
use reverie_ppr.Algebra.Gf2.Laws.{domain_gf2, lanes_gf2}
use reverie_ppr.Algebra.Gf2.Pack.{
  pack_selected, pack_shares, copy_shares, unpack_selected_loop, unpack_selected, head,
}
use reverie_ppr.Algebra.Gf2.Packing.Digits.{test_bit-pack_shares}
use reverie_ppr.Algebra.Gf2.Packing.Streams.{
  stream, length-stream, pack_chunks-stream, Feeds-chunk, drop-all, length-drop,
}

-- The writes of a round, one in each row of eight, are read back, and nothing else changes.
copy_shares-below :
    (n m : ℕ) (idx bytes : Array ℕ n) (tmp : ℕ → ℕ)
    → ((r : Fin n) → idx r / 8 ≡ m + val r)
    → (k : ℕ) → k / 8 < m
    → copy_shares n idx bytes tmp k ≡ tmp k
unfolding copy_shares
copy_shares-below zero m idx bytes tmp rows k h = refl
copy_shares-below (suc n) m idx bytes tmp rows k h =
    copy_shares-below n (suc m) (rest idx) (rest bytes) _ (λ r. omega (arith, rows (Fin.suc r))) k
      (omega arith)
    ∙ rw (apart k (idx Fin.zero) (omega (arith, rows Fin.zero)))
  where
    apart : (k i : ℕ) → k / 8 < i / 8 → (k == i) ≡ false
    apart k i h = ground (arith, h)

copy_shares-row :
    (n m : ℕ) (idx bytes : Array ℕ n) (tmp : ℕ → ℕ)
    → ((r : Fin n) → idx r / 8 ≡ m + val r)
    → (r : Fin n) (k : ℕ) → k / 8 ≡ m + val r
    → copy_shares n idx bytes tmp k ≡ (if k == idx r then bytes r else tmp k)
unfolding copy_shares
copy_shares-row (suc n) m idx bytes tmp rows Fin.zero k h =
    copy_shares-below n (suc m) (rest idx) (rest bytes) _ (λ r. omega (arith, rows (Fin.suc r))) k
      (omega arith)
copy_shares-row (suc n) m idx bytes tmp rows (Fin.suc r) k h =
    copy_shares-row n (suc m) (rest idx) (rest bytes)
      (λ k. if k == idx Fin.zero then bytes Fin.zero else tmp k)
      (λ r. omega (arith, rows (Fin.suc r))) r k (omega arith)
    ∙ ap (λ t. if k == idx (Fin.suc r) then bytes (Fin.suc r) else t)
        (rw (apart k (idx Fin.zero) (omega (arith, rows Fin.zero))))
  where
    apart : (k i : ℕ) → i / 8 < k / 8 → (k == i) ≡ false
    apart k i h = ground (arith, h)
copy_shares-row zero m idx bytes tmp rows r k h = elim r [ ]

module _ ⦃c : StreamCipher⦄ ⦃b : Blake3⦄ (i j o : Fin 8) (omits omits' : Array ℕ 8)
    (h : omits i ≡ val o) (h' : omits' j ≡ val o) (below : (r : Fin 8) → omits' r < 8) where
  abbrev shift : ℕ
  shift = (7 - val i) * 8 + (7 - omits i)

  abbrev idx : Array ℕ 8
  idx r = omits' r + val r * 8

  idx-row : (r : Fin 8) → idx r / 8 ≡ 0 + val r
  idx-row r = omega (arith, below r)

  -- Only the rows' chosen players are ever written.
  IsClear : (ℕ → ℕ) → Type 0
  IsClear tmp = (p : Fin 8) → same p o ≡ false → tmp (8 * val j + val p) ≡ 0

  cell :
      (bytes : Array ℕ 8) (tmp : ℕ → ℕ) (p : Fin 8)
      → copy_shares 8 idx bytes tmp (8 * val j + val p)
        ≡ (if same p o then bytes j else tmp (8 * val j + val p))
  cell bytes tmp p =
      copy_shares-row 8 0 idx bytes tmp idx-row j (8 * val j + val p) (omega (arith, val-lt p))
      ∙ ap (λ t. if t then bytes j else tmp (8 * val j + val p))
          (same_column (val p) (omits' j) (val j) ∙ rw h' (val-eqb p o))
    where
      same_column : (p q j : ℕ) → (8 * j + p == q + j * 8) ≡ (p == q)
      same_column p q j = ground arith

  -- One round, on a stream that starts with a byte of the packed player.
  round-Reads :
      (src : List ShareGf2) (bytes : Array ℕ 8) (tmp : ℕ → ℕ)
      → IsClear tmp
      → bytes j ≡ pack_shares shift (literal 8 share_zero src)
      → (k : Fin 8)
      → ReadsShare domain_gf2 lanes_gf2 i j o
          (literal 8 share_zero src k)
          (byte_to_shares_avx2 (copy_shares 8 idx bytes tmp) k)
  unfolding lanes_gf2 IsClear
  round-Reads src bytes tmp clear e k = record {
    lane = fun_ext λ p.
        bit-byte_to_shares_avx2 (copy_shares 8 idx bytes tmp) k ((7 - val p) + base j) (omega arith)
        ∙ ap (λ m. test_bit (7 - val k) (copy_shares 8 idx bytes tmp m))
            (omega (arith, val-lt p, val-lt j))
        ∙ ap (test_bit (7 - val k)) (cell bytes tmp p)
        ∙ part p (Bool-cases (same p o));
  }
    where
      chosen :
          (p : Fin 8)
          → same p o ≡ true
          → test_bit (7 - val k) (bytes j) ≡ bit ((7 - val p) + base i) (literal 8 share_zero src k)
      chosen p e' =
          ap (test_bit (7 - val k)) e
          ∙ test_bit-pack_shares shift (literal 8 share_zero src) k
          ∙ ap (λ m. bit m (literal 8 share_zero src k))
              (omega (arith, h, val-lt i, ap val (eq_of_same p o e')))

      part :
          (p : Fin 8)
          → (same p o ≡ true) ⊎ (same p o ≡ false)
          → test_bit (7 - val k) (if same p o then bytes j else tmp (8 * val j + val p))
            ≡ (if same p o then bit ((7 - val p) + base i) (literal 8 share_zero src k) else false)
      part p (inl e') = rw e' (chosen p e')
      part p (inr e') = rw (e', clear p e') (test_bit-zero (7 - val k))

  copy_shares-IsClear :
      (bytes : Array ℕ 8) (tmp : ℕ → ℕ) → IsClear tmp → IsClear (copy_shares 8 idx bytes tmp)
  unfolding IsClear
  copy_shares-IsClear bytes tmp clear p e = cell bytes tmp p ∙ rw e (clear p e)

  abbrev R : ShareGf2 → ShareGf2 → Type 0
  R = ReadsShare domain_gf2 lanes_gf2 i j o

  unpack_selected_loop-stream :
      (n : ℕ) (src dst : List ShareGf2) (bytes : Array (List ℕ) 8) (tmp : ℕ → ℕ)
      → IsClear tmp
      → length src < 8 * suc n
      → bytes j ≡ stream pack_shares n share_zero shift src
      → (xs : List ShareGf2) × (unpack_selected_loop (suc n) dst bytes idx tmp ≡ dst ++ xs)
        × Feeds R src xs
  unfolding unpack_selected_loop
  unpack_selected_loop-stream zero src dst bytes tmp clear short e =
      let shares = byte_to_shares_avx2 (copy_shares 8 idx (λ r. head (bytes r)) tmp) in
      (
        to_list 8 shares ++ [],
        ap (λ ys. dst ++ ys) (sym (append-nil (to_list 8 shares))),
        Feeds-chunk R 8 share_zero src shares []
            (round-Reads src (λ r. head (bytes r)) tmp clear (ap head e))
            (subst (λ xs. Feeds R xs []) (sym (drop-all 8 src (omega arith))) tt),
      )
  unpack_selected_loop-stream (suc n) src dst bytes tmp clear short e =
      let heads : Array ℕ 8 = λ r. head (bytes r) in
      let shares = byte_to_shares_avx2 (copy_shares 8 idx heads tmp) in
      let (xs, e', feeds) =
        unpack_selected_loop-stream n (drop 8 src) (dst ++ to_list 8 shares) (λ r. drop 1 (bytes r))
          (copy_shares 8 idx heads tmp) (copy_shares-IsClear heads tmp clear)
          (omega (arith, length-drop 8 src)) (ap (drop 1) e) in
      (
        to_list 8 shares ++ xs,
        e' ∙ append_assoc dst (to_list 8 shares) xs,
        Feeds-chunk R 8 share_zero src shares xs (round-Reads src heads tmp clear (ap head e))
            feeds,
      )

  pack_selected-stream :
      (src : List ShareGf2)
      → pack_selected (λ _. []) src omits i
        ≡ stream pack_shares (length src / 8) share_zero shift src
  unfolding pack_selected
  pack_selected-stream src =
      let chosen : Array Bool 8 = λ r. ltb (omits r) 8 in
      let player : chosen i ≡ true = ground (arith, h, val-lt o) in
      elim (Bool-cases (all 8 not chosen)) [
        | inl none ↦ let absent : not (chosen i) ≡ true = all→ not chosen none i in absurd (cc)
        | inr some ↦ rw some (
            pack_chunks-stream pack_shares chosen (λ r. (7 - val r) * 8 + (7 - omits r)) i player
              (length src / 8) share_zero (λ _. []) src)
      ]

  unpack_selected-ok :
      (n : ℕ) (bytes : Array (List ℕ) 8)
      → ((r : Fin 8) → length (bytes r) ≡ suc n)
      → unpack_selected [] bytes omits' ≡ ok (unpack_selected_loop (suc n) [] bytes idx (λ _. 0))
  unfolding unpack_selected
  unpack_selected-ok n bytes sizes =
      let size = length (bytes Fin.zero) in
      rw
        (
          →all 8 (λ s. size == length s) bytes (λ r. ground (arith, sizes r, sizes Fin.zero)),
          →all 8 (λ k. ltb k 64) idx (λ r. ground (arith, below r, val-lt r)),
        )
        (rw (sizes Fin.zero, positive n) refl)
    where
      positive : (n : ℕ) → (suc n == 0) ≡ false
      positive n = ground arith

  -- In the domain over bits, let stream `j` be what `pack_selected` makes of repetition `i` of a
  -- list of shares with player `o` selected, let player `o` be selected at `j` and a player
  -- everywhere, and let the other streams be as long. Then `unpack_selected` returns shares that
  -- begin with one for each share packed, whose repetition `j` is the part of player `o` of
  -- repetition `i` and zero for the other players.
  pub unpack_selected-pack_selected_gf2 :
      (src : List ShareGf2) (bytes : Array (List ℕ) 8)
      → bytes j ≡ pack_selected (λ _. []) src omits i
      → ((r : Fin 8) → length (bytes r) ≡ length (bytes j))
      → (xs : List ShareGf2) × (unpack_selected [] bytes omits' ≡ ok xs) × Feeds R src xs
  unfolding IsClear
  unpack_selected-pack_selected_gf2 src bytes e same_length =
      let n = length src / 8 in
      let written = e ∙ pack_selected-stream src in
      let size = ap length written ∙ length-stream pack_shares n share_zero shift src in
      let (xs, e', feeds) =
        unpack_selected_loop-stream n src [] bytes (λ _. 0) (λ p _. refl) (omega arith) written in
      (xs, unpack_selected-ok n bytes (λ r. same_length r ∙ size) ∙ ap ok e', feeds)

  pub length-pack_selected_gf2 :
      (src : List ShareGf2) → length (pack_selected (λ _. []) src omits i) ≡ suc (length src / 8)
  length-pack_selected_gf2 src =
      ap length (pack_selected-stream src)
      ∙ length-stream pack_shares (length src / 8) share_zero shift src
