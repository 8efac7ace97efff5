-- ===== src/Algebra/Gf2/Packing/Recons.antt =====
-- algebra/gf2/recon.rs: `unpack` reads what `pack` writes.
use reverie_ppr.Prelude.{
  ℕ, zero, suc, ◌+◌, ◌-◌, ◌*◌, ◌/◌, ◌%◌, ◌^◌, ◌<◌, ◌≡◌, ◌==◌, refl, sym, ◌∙◌, ap, subst, arith,
  Bool, true, false, not, List, [], ◌∷◌, ◌++◌, append_assoc, append-nil, Fin, Array, val, val-lt,
  val-fin, to_list, literal, drop, length, all, all→, →all, All, if◌then◌else◌, Bool-cases, inl,
  inr, Feeds, ok,
}
use reverie_ppr.Ring.Sum.{rest}
use reverie_ppr.Bits.{test_bit, test_bit-mod, test_bit-shr, test_bit-zero}
use reverie_ppr.Word.Bits.{bit, bit-wrap}
use reverie_ppr.Crypto.{StreamCipher, Blake3}
use reverie_ppr.Algebra.Codec.{Reads}
use reverie_ppr.Algebra.Z64.Bytes.{le_number, from_le_bytes}
use reverie_ppr.Algebra.Gf2.{ReconGf2}
use reverie_ppr.Algebra.Gf2.Bytes.{base, agree→}
use reverie_ppr.Algebra.Gf2.Recon.{recon_zero}
use reverie_ppr.Algebra.Gf2.Domain.{eighth, mod_8-lt}
use reverie_ppr.Algebra.Gf2.Laws.{IsValid, recon_zero-IsValid, eighth-val, domain_gf2, lanes_gf2}
use reverie_ppr.Algebra.Gf2.Pack.{
  pack, pack_recons, unpack_table, unpack_byte, unpack_loop, unpack, head, is_empty,
}
use reverie_ppr.Algebra.Gf2.Packing.Digits.{test_bit-pack_recons}
use reverie_ppr.Algebra.Gf2.Packing.Streams.{
  stream, length-stream, pack_chunks-stream, Feeds-chunk, drop-all, length-drop, All-drop,
}

-- The bits of a number that is given by its bytes.
test_bit-le_number :
    (n : ℕ) (f : Array ℕ n)
    → ((q : Fin n) → f q < 256)
    → (q : Fin n) (m : ℕ) → m < 8
    → test_bit (m + 8 * val q) (le_number (to_list n f)) ≡ test_bit m (f q)
test_bit-le_number (ℕ.suc n) f small Fin.zero m h =
    ap (λ k. test_bit k (le_number (to_list (ℕ.suc n) f))) (omega arith)
    ∙ sym (test_bit-mod 8 m (le_number (to_list (ℕ.suc n) f)) h)
    ∙ ap (test_bit m) (lowest (f Fin.zero) (le_number (to_list n (rest f))) (small Fin.zero))
  where
    lowest : (x y : ℕ) → x < 256 → (x + 256 * y) % 2 ^ 8 ≡ x
    lowest x y h = omega arith
test_bit-le_number (ℕ.suc n) f small (Fin.suc q) m h =
    ap (λ k. test_bit k (le_number (to_list (ℕ.suc n) f))) (omega arith)
    ∙ sym (test_bit-shr 8 (m + 8 * val q) (le_number (to_list (ℕ.suc n) f)))
    ∙ ap (test_bit (m + 8 * val q))
        (above (f Fin.zero) (le_number (to_list n (rest f))) (small Fin.zero))
    ∙ test_bit-le_number n (rest f) (λ q. small (Fin.suc q)) q m h
  where
    above : (x y : ℕ) → x < 256 → (x + 256 * y) / 2 ^ 8 ≡ y
    above x y h = omega arith
test_bit-le_number ℕ.zero f small q m h = elim q [ ]

-- An entry of the table is a bit of its index, in every bit.
test_bit-unpack_table :
    (byte : ℕ) (k : Fin 8) (m : ℕ)
    → m < 8
    → test_bit m (unpack_table byte k) ≡ test_bit (7 - val k) byte
unfolding unpack_table test_bit
test_bit-unpack_table byte k m h =
    same_bits (byte / 2 ^ (7 - val k) % 2) (omega arith)
    ∙ test_bit-shr (7 - val k) 0 byte
    ∙ ap (λ i. test_bit i byte) (plus_zero (7 - val k))
  where
    plus_zero : (n : ℕ) → n + 0 ≡ n
    plus_zero n = omega arith

    same_bits : (x : ℕ) → x < 2 → test_bit m (if x == 0 then 0x00 else 0xff) ≡ (x == 1)
    same_bits zero e = test_bit-zero m
    same_bits (suc zero) e = agree→ 8 (λ m. test_bit m 0xff) (λ m. true) refl m h
    same_bits (suc (suc x)) e = absurd (omega arith)

unpack_table-lt : (byte : ℕ) (k : Fin 8) → unpack_table byte k < 256
unfolding unpack_table
unpack_table-lt byte k = small (byte / 2 ^ (7 - val k) % 2 == 0)
  where
    small : (b : Bool) → (if b then 0x00 else 0xff) < 256
    small true = omega arith
    small false = omega arith

-- Element `k` of the eight has bit `7 - k` of a stream's byte as all bits of its repetition.
pub bit-unpack_byte :
    (src : Array ℕ 8) (k r : Fin 8) (m : ℕ)
    → m < 8
    → bit (m + base r) (unpack_byte src k) ≡ test_bit (7 - val k) (src r)
unfolding unpack_byte from_le_bytes
bit-unpack_byte src k r m h =
    bit-wrap (m + base r) (omega arith) (le_number (to_list 8 bytes))
    ∙ ap (λ i. test_bit i (le_number (to_list 8 bytes))) (ground (arith, place))
    ∙ test_bit-le_number 8 bytes (λ q. unpack_table-lt _ k) q m h
    ∙ test_bit-unpack_table (src (eighth (7 - val q))) k m h
    ∙ ap (λ s. test_bit (7 - val k) (src s))
        (eighth-val r (7 - val q) (omega (arith, place, val-lt r)))
  where
    bytes : Array ℕ 8
    bytes q = unpack_table (src (eighth (7 - val q))) k

    q : Fin 8
    q = eighth (7 - val r)

    place : val q ≡ 7 - val r
    place = val-fin 8 ((7 - val r) % 8) (mod_8-lt (7 - val r)) ∙ omega arith

literal-IsValid :
    (src : List ReconGf2) (k : Fin 8) → All IsValid src → IsValid (literal 8 recon_zero src k)
literal-IsValid src k valid = padded 8 src k valid
  where
    padded :
        (n : ℕ) (src : List ReconGf2) (k : Fin n)
        → All IsValid src
        → IsValid (literal n recon_zero src k)
    padded (ℕ.suc n) [] Fin.zero valid = recon_zero-IsValid
    padded (ℕ.suc n) [] (Fin.suc k) valid = recon_zero-IsValid
    padded (ℕ.suc n) (x ∷ src) Fin.zero valid = valid.0
    padded (ℕ.suc n) (x ∷ src) (Fin.suc k) valid = padded n src k valid.1
    padded ℕ.zero src k valid = elim k [ ]

module _ ⦃c : StreamCipher⦄ ⦃b : Blake3⦄ (i j : Fin 8) where
  abbrev shift : ℕ
  shift = 64 - (val i + 1) * 8

  -- One round, on a stream that starts with a byte of the packed repetition.
  unpack_byte-Reads :
      (src : List ReconGf2) (bytes : Array ℕ 8)
      → All IsValid src
      → bytes j ≡ pack_recons shift (literal 8 recon_zero src)
      → (k : Fin 8)
      → Reads domain_gf2 lanes_gf2 i j (literal 8 recon_zero src k) (unpack_byte bytes k)
  unfolding lanes_gf2
  unpack_byte-Reads src bytes valid e k = record {
    lane =
        ap (λ m. bit m (unpack_byte bytes k)) (omega arith)
        ∙ bit-unpack_byte bytes k j 0 (omega arith)
        ∙ ap (test_bit (7 - val k)) e
        ∙ test_bit-pack_recons shift (literal 8 recon_zero src) k (
            ap (λ m. bit m (literal 8 recon_zero src Fin.zero)) (omega (arith, val-lt i))
            ∙ literal-IsValid src Fin.zero valid i 1 (omega arith)
            ∙ ap (λ m. bit m (literal 8 recon_zero src Fin.zero)) (omega (arith, val-lt i)))
        ∙ ap (λ m. bit m (literal 8 recon_zero src k)) (omega (arith, val-lt i));
    valid' = λ r m h.
        bit-unpack_byte bytes k r m h
        ∙ sym (bit-unpack_byte bytes k r 0 (omega arith))
        ∙ ap (λ m. bit m (unpack_byte bytes k)) (omega arith);
  }

  not_empty : (n : ℕ) (xs : List ℕ) → length xs ≡ suc n → not (is_empty xs) ≡ true
  not_empty n [] h = absurd (omega (arith, h))
  not_empty n (x ∷ xs) h = refl

  unpack_loop-suc :
      (n m : ℕ) (dst : List ReconGf2) (bytes : Array (List ℕ) 8)
      → ((r : Fin 8) → length (bytes r) ≡ suc m)
      → unpack_loop (suc n) dst bytes
        ≡ unpack_loop n
            (dst ++ to_list 8 (unpack_byte (λ r. head (bytes r))))
            (λ r. drop 1 (bytes r))
  unfolding unpack_loop
  unpack_loop-suc n m dst bytes sizes =
      rw (→all 8 (λ s. not (is_empty s)) bytes (λ r. not_empty m (bytes r) (sizes r)))

  unpack_loop-stream :
      (n : ℕ) (src dst : List ReconGf2) (bytes : Array (List ℕ) 8)
      → All IsValid src
      → length src < 8 * suc n
      → bytes j ≡ stream pack_recons n recon_zero shift src
      → ((r : Fin 8) → length (bytes r) ≡ suc n)
      → (xs : List ReconGf2) × (unpack_loop (suc n) dst bytes ≡ ok (dst ++ xs))
        × Feeds (Reads domain_gf2 lanes_gf2 i j) src xs
  unfolding unpack_loop
  unpack_loop-stream zero src dst bytes valid short e sizes =
      let elems = unpack_byte (λ r. head (bytes r)) in
      (
        to_list 8 elems ++ [],
        unpack_loop-suc zero zero dst bytes sizes
            ∙ ap (λ ys. ok (dst ++ ys)) (sym (append-nil (to_list 8 elems))),
        Feeds-chunk (Reads domain_gf2 lanes_gf2 i j) 8 recon_zero src elems []
            (unpack_byte-Reads src (λ r. head (bytes r)) valid (ap head e))
            (subst (λ xs. Feeds (Reads domain_gf2 lanes_gf2 i j) xs [])
              (sym (drop-all 8 src (omega arith))) tt),
      )
  unpack_loop-stream (suc n) src dst bytes valid short e sizes =
      let elems = unpack_byte (λ r. head (bytes r)) in
      let (xs, e', feeds) =
        unpack_loop-stream n (drop 8 src) (dst ++ to_list 8 elems) (λ r. drop 1 (bytes r))
          (All-drop IsValid 8 src valid) (omega (arith, length-drop 8 src)) (ap (drop 1) e)
          (λ r. omega (arith, length-drop 1 (bytes r), sizes r)) in
      (
        to_list 8 elems ++ xs,
        unpack_loop-suc (suc n) (suc n) dst bytes sizes
            ∙ e'
            ∙ ap ok (append_assoc dst (to_list 8 elems) xs),
        Feeds-chunk (Reads domain_gf2 lanes_gf2 i j) 8 recon_zero src elems xs
            (unpack_byte-Reads src (λ r. head (bytes r)) valid (ap head e)) feeds,
      )

  pack-stream :
      (src : List ReconGf2) (selected : Array Bool 8)
      → selected i ≡ true
      → pack (λ _. []) src selected i ≡ stream pack_recons (length src / 8) recon_zero shift src
  unfolding pack
  pack-stream src selected h = elim (Bool-cases (all 8 not selected)) [
    | inl none ↦ let unselected : not (selected i) ≡ true = all→ not selected none i in absurd (cc)
    | inr some ↦ rw some (
        pack_chunks-stream pack_recons selected (λ r. 64 - (val r + 1) * 8) i h (length src / 8)
          recon_zero (λ _. []) src)
  ]

  -- In the domain over bits, let stream `j` be what `pack` makes of the selected repetition `i` of
  -- a list of valid reconstructions, and let the other streams be as long. Then `unpack` returns
  -- valid elements that begin with one for each element packed, whose repetition `j` is its
  -- repetition `i`.
  pub unpack-pack_gf2 :
      (src : List ReconGf2) (selected : Array Bool 8) (bytes : Array (List ℕ) 8)
      → All IsValid src
      → selected i ≡ true
      → bytes j ≡ pack (λ _. []) src selected i
      → ((r : Fin 8) → length (bytes r) ≡ length (bytes j))
      → (xs : List ReconGf2) × (unpack [] bytes ≡ ok xs)
        × Feeds (Reads domain_gf2 lanes_gf2 i j) src xs
  unfolding unpack
  unpack-pack_gf2 src selected bytes valid h e same_length =
      let n = length src / 8 in
      let written = e ∙ pack-stream src selected h in
      let size = ap length written ∙ length-stream pack_recons n recon_zero shift src in
      let (xs, e', feeds) =
        unpack_loop-stream n src [] bytes valid (omega arith) written (λ r. same_length r ∙ size) in
      (xs, ap (λ k. unpack_loop k [] bytes) (same_length Fin.zero ∙ size) ∙ e', feeds)

  pub length-pack_gf2 :
      (src : List ReconGf2) (selected : Array Bool 8)
      → selected i ≡ true
      → length (pack (λ _. []) src selected i) ≡ suc (length src / 8)
  length-pack_gf2 src selected h =
      ap length (pack-stream src selected h)
      ∙ length-stream pack_recons (length src / 8) recon_zero shift src
