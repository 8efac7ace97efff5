-- ===== src/Algebra/Z64/Packing.antt =====
-- algebra/z64: `pack` and `unpack` of recon.rs, `pack_selected` and `unpack_selected` of share.rs.
use mathlib.Core.Logic.{dif_pos}
use native.Mathlib.Bridge.{le_prop}
use native.Mathlib.Decide.{dec_lt}
use reverie_ppr.Prelude.{
  length-map, ℕ, zero, suc, ◌≡◌, ◌*◌, ◌/◌, ◌<◌, refl, sym, ◌∙◌, ap, fun_ext, arith, List, [], ◌∷◌,
  ◌++◌, map, append_assoc, append-nil, Fin, Array, Bool, true, not, val, val-lt, val-eqb, fin-val,
  fin_congr, length, same, eq_of_same, all, all→, →all, ltb, ◌==◌, if◌then◌else◌, Bool-cases, inl,
  inr, Outcome, ok, Feeds,
}
use reverie_ppr.Word.{U64, wrap}
use reverie_ppr.Crypto.{StreamCipher, Blake3}
use reverie_ppr.Algebra.Codec.{Codec, Reads, ReadsShare}
use reverie_ppr.Algebra.Z64.{ReconZ64, ShareZ64}
use reverie_ppr.Algebra.Z64.Bytes.{
  to_le_bytes, from_le_bytes, next_chunk, from_le_bytes-to_le_bytes, next_chunk-to_le_bytes,
}
use reverie_ppr.Algebra.Z64.Recon
use reverie_ppr.Algebra.Z64.Share
use reverie_ppr.Algebra.Z64.Domain.{domain_z64}
use reverie_ppr.Algebra.Z64.Laws.{lanes_z64}

-- The bytes of a repetition's words.
abbrev pub encode : List U64 → List ℕ
encode [] = []
encode (x ∷ xs) = to_le_bytes x ++ encode xs

length-encode_times : (xs : List U64) → length (encode xs) ≡ 8 * length xs
unfolding to_le_bytes
length-encode_times [] = omega arith
length-encode_times (x ∷ xs) = omega (arith, length-encode_times xs)

length-encode : (xs : List U64) → length (encode xs) / 8 ≡ length xs
length-encode xs = omega (arith, length-encode_times xs)

module _ (i : Fin 8) (selected : Array Bool 8) (h : selected i ≡ true) where
  pack_loop-encode :
      (src : List ReconZ64) (dst : Array (List ℕ) 8)
      → Recon.pack_loop dst src selected i ≡ dst i ++ encode (map (λ x. x i) src)
  unfolding Recon.pack_loop Recon.pack_elem
  pack_loop-encode [] dst = sym (append-nil (dst i))
  pack_loop-encode (x ∷ src) dst =
      pack_loop-encode src (Recon.pack_elem x selected dst)
      ∙ rw h (append_assoc (dst i) (to_le_bytes (x i)) (encode (map (λ y. y i) src)))

  pub pack-encode :
      (src : List ReconZ64) → Recon.pack (λ _. []) src selected i ≡ encode (map (λ x. x i) src)
  unfolding Recon.pack
  pack-encode src = elim (Bool-cases (all 8 not selected)) [
    | inl none ↦ let unselected : not (selected i) ≡ true = all→ not selected none i in absurd (cc)
    | inr some ↦ rw some (pack_loop-encode src (λ _. []))
  ]

-- One round on a stream that starts with a word.
next_chunk-encode :
    (chunk : List ℕ) (x : U64) (xs : List U64)
    → chunk ≡ encode (x ∷ xs)
    → (from_le_bytes (next_chunk chunk).0 ≡ x) × ((next_chunk chunk).1 ≡ encode xs)
next_chunk-encode chunk x xs e =
    rw (e, next_chunk-to_le_bytes x (encode xs)) (from_le_bytes-to_le_bytes x, refl)

module _ ⦃c : StreamCipher⦄ ⦃b : Blake3⦄ (i j : Fin 8) where
  unpack_loop-encode :
      (src dst : List ReconZ64) (chunks : Array (List ℕ) 8)
      → chunks j ≡ encode (map (λ x. x i) src)
      → (xs : List ReconZ64) × (Recon.unpack_loop (length src) dst chunks ≡ dst ++ xs)
        × Feeds (Reads domain_z64 lanes_z64 i j) src xs
  unfolding Recon.unpack_loop lanes_z64
  unpack_loop-encode [] dst chunks e = ([], sym (append-nil dst), tt)
  unpack_loop-encode (x ∷ src) dst chunks e =
      let (word, more) = next_chunk-encode (chunks j) (x i) (map (λ y. y i) src) e in
      let elem : ReconZ64 = λ r. from_le_bytes (next_chunk (chunks r)).0 in
      let (xs, e', feeds) =
        unpack_loop-encode src (dst ++ elem ∷ []) (λ r. (next_chunk (chunks r)).1) more in
      (
        elem ∷ xs,
        e' ∙ append_assoc dst (elem ∷ []) xs,
        (record { lane = word; valid' = tt }, feeds),
      )

  -- Let stream `j` be what `pack` makes of the selected repetition `i` of a list of
  -- reconstructions, and let the first stream be as long. Then `unpack` returns elements that
  -- begin with one for each element packed, whose repetition `j` is its repetition `i`.
  pub unpack-pack :
      (src : List ReconZ64) (selected : Array Bool 8) (bytes : Array (List ℕ) 8)
      → selected i ≡ true
      → bytes j ≡ Recon.pack (λ _. []) src selected i
      → length (bytes Fin.zero) ≡ length (bytes j)
      → (xs : List ReconZ64) × (Recon.unpack [] bytes ≡ ok xs)
        × Feeds (Reads domain_z64 lanes_z64 i j) src xs
  unfolding Recon.unpack
  unpack-pack src selected bytes h e same_length =
      let encoded = e ∙ pack-encode i selected h src in
      let (xs, e', feeds) = unpack_loop-encode src [] bytes encoded in
      (
        xs,
        ap ok (
            ap (λ n. Recon.unpack_loop n [] bytes)
              (ap (λ n. n / 8) (same_length ∙ ap length encoded)
                ∙ length-encode (map (λ x. x i) src)
                ∙ length-map (λ x. x i) src)
            ∙ e'),
        feeds,
      )

module _ (i : Fin 8) (omits : Array ℕ 8) (o : Fin 8) (h : omits i ≡ val o) where
  pack_elem-omitted :
      (s : ShareZ64) (dst : Array (List ℕ) 8)
      → Share.pack_elem s omits dst i ≡ dst i ++ to_le_bytes (s i o)
  unfolding Share.pack_elem
  pack_elem-omitted s dst =
      dif_pos (dec_lt (omits i) 8) le_prop below _ _
      ∙ ap (λ p. dst i ++ to_le_bytes (s i p))
          (fin_congr 8 (omits i) (val o) below (val-lt o) h ∙ fin-val o (val-lt o))
    where
      below : omits i < 8
      below = rw h (val-lt o)

  pack_selected-encode :
      (src : List ShareZ64) (dst : Array (List ℕ) 8)
      → Share.pack_selected dst src omits i ≡ dst i ++ encode (map (λ s. s i o) src)
  unfolding Share.pack_selected
  pack_selected-encode [] dst = sym (append-nil (dst i))
  pack_selected-encode (s ∷ src) dst =
      pack_selected-encode src (Share.pack_elem s omits dst)
      ∙ rw (pack_elem-omitted s dst)
          (append_assoc (dst i) (to_le_bytes (s i o)) (encode (map (λ t. t i o) src)))

module _ ⦃c : StreamCipher⦄ ⦃b : Blake3⦄ (i j : Fin 8) (o : Fin 8) (omits' : Array ℕ 8)
    (h' : omits' j ≡ val o) where
  unpack_elem-only :
      (chunks : Array (List ℕ) 8) (s : ShareZ64)
      → from_le_bytes (next_chunk (chunks j)).0 ≡ s i o
      → Share.unpack_elem chunks omits' j ≡ λ p. if same p o then s i p else wrap 0
  unfolding Share.unpack_elem
  unpack_elem-only chunks s e = fun_ext λ p. elim (Bool-cases (same p o)) [
    | inl omitted ↦ rw (h', val-eqb p o, omitted, eq_of_same p o omitted) e
    | inr opened ↦ rw (h', val-eqb p o, opened)
  ]

  unpack_loop-encode_selected :
      (src dst : List ShareZ64) (chunks : Array (List ℕ) 8)
      → chunks j ≡ encode (map (λ s. s i o) src)
      → (xs : List ShareZ64) × (Share.unpack_loop (length src) dst chunks omits' ≡ dst ++ xs)
        × Feeds (ReadsShare domain_z64 lanes_z64 i j o) src xs
  unfolding Share.unpack_loop lanes_z64
  unpack_loop-encode_selected [] dst chunks e = ([], sym (append-nil dst), tt)
  unpack_loop-encode_selected (s ∷ src) dst chunks e =
      let (word, more) = next_chunk-encode (chunks j) (s i o) (map (λ t. t i o) src) e in
      let elem = Share.unpack_elem chunks omits' in
      let (xs, e', feeds) =
        unpack_loop-encode_selected src (dst ++ elem ∷ []) (λ r. (next_chunk (chunks r)).1) more in
      (
        elem ∷ xs,
        e' ∙ append_assoc dst (elem ∷ []) xs,
        (record { lane = unpack_elem-only chunks s word }, feeds),
      )

  -- All omitted players are players, so no round is out of bounds.
  unpack_selected-ok :
      (bytes : Array (List ℕ) 8)
      → ((r : Fin 8) → omits' r < 8)
      → Share.unpack_selected [] bytes omits'
        ≡ ok (Share.unpack_loop (length (bytes Fin.zero) / 8) [] bytes omits')
  unfolding Share.unpack_selected
  unpack_selected-ok bytes below = elim (Bool-cases (length (bytes Fin.zero) / 8 == 0)) [
    | inl none ↦ rw none (no_rounds (length (bytes Fin.zero) / 8) none)
    | inr some ↦ rw (some, →all 8 (λ p. ltb p 8) omits' (λ r. ground (arith, below r)))
  ]
    where
      no_rounds :
          (n : ℕ) → (n == 0) ≡ true → Outcome.ok [] ≡ ok (Share.unpack_loop n [] bytes omits')
      no_rounds zero e = refl
      no_rounds (suc n) e = absurd (ground (arith, e))

  -- Let stream `j` be what `pack_selected` makes of repetition `i` of a list of shares with player
  -- `o` selected, let player `o` be selected at `j` and a player everywhere, and let the first
  -- stream be as long. Then `unpack_selected` returns shares that begin with one for each share
  -- packed, whose repetition `j` is the part of player `o` of repetition `i` and zero for the
  -- other players.
  pub unpack_selected-pack_selected :
      (src : List ShareZ64) (omits : Array ℕ 8) (bytes : Array (List ℕ) 8)
      → omits i ≡ val o
      → ((r : Fin 8) → omits' r < 8)
      → bytes j ≡ Share.pack_selected (λ _. []) src omits i
      → length (bytes Fin.zero) ≡ length (bytes j)
      → (xs : List ShareZ64) × (Share.unpack_selected [] bytes omits' ≡ ok xs)
        × Feeds (ReadsShare domain_z64 lanes_z64 i j o) src xs
  unpack_selected-pack_selected src omits bytes h below e same_length =
      let encoded = e ∙ pack_selected-encode i omits o h src (λ _. []) in
      let (xs, e', feeds) = unpack_loop-encode_selected src [] bytes encoded in
      (
        xs,
        unpack_selected-ok bytes below
            ∙ ap ok (
                ap (λ n. Share.unpack_loop n [] bytes omits')
                  (ap (λ n. n / 8) (same_length ∙ ap length encoded)
                    ∙ length-encode (map (λ s. s i o) src)
                    ∙ length-map (λ s. s i o) src)
                ∙ e'),
        feeds,
      )

pub length-pack_z64 :
    (i : Fin 8) (selected : Array Bool 8)
    → selected i ≡ true
    → (src : List ReconZ64) → length (Recon.pack (λ _. []) src selected i) ≡ 8 * length src
length-pack_z64 i selected h src =
    ap length (pack-encode i selected h src)
    ∙ length-encode_times (map (λ x. x i) src)
    ∙ ap (λ n. 8 * n) (length-map (λ x. x i) src)

pub length-pack_selected_z64 :
    (i : Fin 8) (omits : Array ℕ 8) (o : Fin 8)
    → omits i ≡ val o
    → (src : List ShareZ64) → length (Share.pack_selected (λ _. []) src omits i) ≡ 8 * length src
length-pack_selected_z64 i omits o h src =
    ap length (pack_selected-encode i omits o h src (λ _. []))
    ∙ length-encode_times (map (λ s. s i o) src)
    ∙ ap (λ n. 8 * n) (length-map (λ s. s i o) src)

abbrev pub codec_z64 : ⦃c : StreamCipher⦄ → ⦃b : Blake3⦄ → Codec domain_z64 lanes_z64
codec_z64 = record {
  unpack-pack =
      λ i j src selected bytes _ h e same. unpack-pack i j src selected bytes h e (same Fin.zero);
  unpack_selected-pack_selected = λ i j o src omits omits' bytes h h' below e same.
      unpack_selected-pack_selected i j o omits' h' src omits bytes h below e (same Fin.zero);
  stream_size = λ n. 8 * n;
  length-pack = λ i src selected h. length-pack_z64 i selected h src;
  length-pack_selected = λ i o src omits h. length-pack_selected_z64 i omits o h src;
}
