-- ===== src/Algebra/Gf2/Linear.antt =====
-- algebra/gf2: arithmetic on shares is arithmetic on the shared bits.
use reverie_ppr.Prelude.{
  ℕ, ◌+◌, ◌-◌, ◌/◌, ◌%◌, ◌^◌, ◌<◌, ◌≡◌, ◌==◌, ◌↔◌, refl, sym, ◌∙◌, ap, ap₂, fun_ext, arith, Bool,
  true, false, ◌&&◌, ◌||◌, Fin, Array, val, val-lt, val-fin, same, eq_of_same, ◌⊎◌, inl, inr,
  Bool-cases, all→, →all, if◌then◌else◌,
}
use reverie_ppr.Ring.Sum.{total, total-add, total-mul}
use reverie_ppr.Bits.{test_bit, test_bit-zero, xor}
use reverie_ppr.Word.{wrap, number}
use reverie_ppr.Word.Bits.{bit, u64_and, bit-u64_xor, bit-u64_and}
use reverie_ppr.Algebra.Gf2.{ReconGf2, ShareGf2}
use reverie_ppr.Algebra.Gf2.Boolean.{bool_ring, and-true, and-false}
use reverie_ppr.Algebra.Gf2.Bytes.{base, to_be_bytes, to_le_bytes, test_bit-to_be_bytes, agree→}
use reverie_ppr.Algebra.Gf2.Recon
use reverie_ppr.Algebra.Gf2.Share
use reverie_ppr.Algebra.Gf2.Domain.{
  eighth, mod_8-lt, share_mul, share_add_recon, share_sub_recon, reconstruct,
}
use reverie_ppr.Algebra.Gf2.Parity.{bit-reconstruct, bit-mask}
use reverie_ppr.Algebra.Gf2.Laws.{
  recon_lane, share_lane, IsValid, valid_ext, both, to_be_bytes-valid,
}

reconstruct-lane :
    (s : ShareGf2) (r : Fin 8) → recon_lane (reconstruct s) r ≡ total 8 (share_lane s r)
reconstruct-lane s r =
    ap (λ m. bit m (reconstruct s)) (omega arith) ∙ bit-reconstruct r 0 s (omega arith)

reconstruct-IsValid : (s : ShareGf2) → IsValid (reconstruct s)
reconstruct-IsValid s r k h = bit-reconstruct r k s h ∙ sym (reconstruct-lane s r)

-- A sharing whose parts are those of `s`, changed by what adds up to a lane of `y`.
reconstruct-changed :
    (s s' : ShareGf2) (y : ReconGf2) (d : Fin 8 → Array Bool 8)
    → IsValid y
    → ((r p : Fin 8) → share_lane s' r p ≡ xor (share_lane s r p) (d r p))
    → ((r : Fin 8) → total 8 (d r) ≡ recon_lane y r)
    → reconstruct s' ≡ Recon.add (reconstruct s) y
unfolding Recon.add
reconstruct-changed s s' y d valid parts sum =
    valid_ext (reconstruct s') (Recon.add (reconstruct s) y) (reconstruct-IsValid s')
      (both (reconstruct s) y (Recon.add (reconstruct s) y) xor
        (λ i h. bit-u64_xor i h (reconstruct s) y) (reconstruct-IsValid s) valid)
      λ r.
        reconstruct-lane s' r
        ∙ ap (total 8) (fun_ext (parts r))
        ∙ total-add 8 (share_lane s r) (d r)
        ∙ ap₂ xor (sym (reconstruct-lane s r)) (sum r)
        ∙ sym (bit-u64_xor (base r) (omega arith) (reconstruct s) y)

-- Only the last player has the lowest bit of a byte.
last : Fin 8
last = Fin.suc (Fin.suc (Fin.suc (Fin.suc (Fin.suc (Fin.suc (Fin.suc Fin.zero))))))

public_part : (x : ReconGf2) → Fin 8 → Array Bool 8
public_part x r p = if same p last then recon_lane x r else false

total-public_part : (x : ReconGf2) (r : Fin 8) → total 8 (public_part x r) ≡ recon_lane x r
unfolding total public_part last
total-public_part x r = only_last (recon_lane x r)
  where
    only_last : (b : Bool) → xor b false ≡ b
    only_last true = refl
    only_last false = refl

share_add_recon-lane :
    (s : ShareGf2) (x : ReconGf2) (r p : Fin 8)
    → share_lane (share_add_recon s x) r p ≡ xor (share_lane s r p) (public_part x r p)
unfolding share_add_recon public_part last
share_add_recon-lane s x r p =
    bit-u64_xor ((7 - val p) + base r) (omega arith) s (u64_and x (wrap 0x0101010101010101))
    ∙ ap (xor (share_lane s r p)) (
        bit-u64_and ((7 - val p) + base r) (omega arith) x (wrap 0x0101010101010101)
        ∙ ap (λ b. share_lane x r p && b) (bit-mask ((7 - val p) + base r) (omega arith))
        ∙ ap (λ b. share_lane x r p && b) (lowest p)
        ∙ part (Bool-cases (same p last)))
  where
    lowest : (p : Fin 8) → (((7 - val p) + base r) % 8 == 0) ≡ same p last
    lowest Fin.zero = ground arith
    lowest (Fin.suc Fin.zero) = ground arith
    lowest (Fin.suc (Fin.suc Fin.zero)) = ground arith
    lowest (Fin.suc (Fin.suc (Fin.suc Fin.zero))) = ground arith
    lowest (Fin.suc (Fin.suc (Fin.suc (Fin.suc Fin.zero)))) = ground arith
    lowest (Fin.suc (Fin.suc (Fin.suc (Fin.suc (Fin.suc Fin.zero))))) = ground arith
    lowest (Fin.suc (Fin.suc (Fin.suc (Fin.suc (Fin.suc (Fin.suc Fin.zero)))))) = ground arith
    lowest (Fin.suc (Fin.suc (Fin.suc (Fin.suc (Fin.suc (Fin.suc (Fin.suc Fin.zero))))))) =
        ground arith
    lowest (Fin.suc (Fin.suc (Fin.suc (Fin.suc (Fin.suc (Fin.suc (Fin.suc (Fin.suc p)))))))) =
        elim p [ ]

    bottom : (p : Fin 8) → p ≡ last → share_lane x r p ≡ recon_lane x r
    bottom p e = ap (share_lane x r) e ∙ ap (λ m. bit m x) (omega arith)

    part :
        (same p last ≡ true) ⊎ (same p last ≡ false)
        → (share_lane x r p && same p last) ≡ (if same p last then recon_lane x r else false)
    part (inl e) = rw e (and-true _ ∙ bottom p (eq_of_same p last e))
    part (inr e) = rw e (and-false _)

reconstruct-share_mul :
    (s : ShareGf2) (x : ReconGf2)
    → IsValid x
    → reconstruct (share_mul s x) ≡ Recon.mul (reconstruct s) x
unfolding share_mul Recon.mul
reconstruct-share_mul s x valid =
    valid_ext (reconstruct (share_mul s x)) (Recon.mul (reconstruct s) x)
      (reconstruct-IsValid (share_mul s x))
      (both (reconstruct s) x (Recon.mul (reconstruct s) x) ◌&&◌
        (λ i h. bit-u64_and i h (reconstruct s) x) (reconstruct-IsValid s) valid)
      λ r.
        reconstruct-lane (share_mul s x) r
        ∙ ap (total 8) (
            fun_ext λ p.
              bit-u64_and ((7 - val p) + base r) (omega arith) s x
              ∙ ap (λ b. share_lane s r p && b) (valid r (7 - val p) (omega arith)))
        ∙ total-mul 8 (share_lane s r) (recon_lane x r)
        ∙ ap (λ b. b && recon_lane x r) (sym (reconstruct-lane s r))
        ∙ sym (bit-u64_and (base r) (omega arith) (reconstruct s) x)

-- In the domain over bits, what the players do on their shares is what is meant on the shared
-- values: the sum and the difference of two sharings, the product of a sharing with a valid public
-- value, and the addition and the subtraction of a valid public value by the last player
-- reconstruct to the sum, difference and product of reconstructions.
pub reconstruct_lem_gf2 :
    (s t : ShareGf2) (x : ReconGf2)
    → IsValid x
    → (reconstruct (Share.add s t) ≡ Recon.add (reconstruct s) (reconstruct t))
      × (reconstruct (Share.sub s t) ≡ Recon.sub (reconstruct s) (reconstruct t))
      × (reconstruct (share_mul s x) ≡ Recon.mul (reconstruct s) x)
      × (reconstruct (share_add_recon s x) ≡ Recon.add (reconstruct s) x)
      × (reconstruct (share_sub_recon s x) ≡ Recon.sub (reconstruct s) x)
unfolding Share.add Share.sub Recon.sub share_sub_recon share_mul Recon.mul
reconstruct_lem_gf2 s t x valid =
    let sum : reconstruct (Share.add s t) ≡ Recon.add (reconstruct s) (reconstruct t) =
      reconstruct-changed s (Share.add s t) (reconstruct t) (share_lane t) (reconstruct-IsValid t)
        (λ r p. bit-u64_xor ((7 - val p) + base r) (omega arith) s t)
        (λ r. sym (reconstruct-lane t r)) in
    let sum_public : reconstruct (share_add_recon s x) ≡ Recon.add (reconstruct s) x =
      reconstruct-changed s (share_add_recon s x) x (public_part x) valid (share_add_recon-lane s x)
        (total-public_part x) in
    (sum, sum, reconstruct-share_mul s x valid, sum_public, sum_public)

test_bit-ones : (k : ℕ) → k < 8 → test_bit k 0xff ≡ true
unfolding test_bit
test_bit-ones k h = agree→ 8 (λ k. test_bit k 0xff) (λ k. true) refl k h

-- The bytes of a word in the two orders.
mirror : Fin 8 → Fin 8
mirror r = eighth (7 - val r)

val-mirror : (r : Fin 8) → val (mirror r) ≡ 7 - val r
unfolding mirror
val-mirror r = val-fin 8 ((7 - val r) % 8) (mod_8-lt (7 - val r)) ∙ omega arith

mirrored : (x : ReconGf2) (r : Fin 8) → to_be_bytes x r ≡ to_le_bytes x (mirror r)
unfolding to_be_bytes to_le_bytes
mirrored x r = ap (λ k. number x / 2 ^ k % 256) (omega (arith, val-mirror r))

unmirrored : (x : ReconGf2) (q : Fin 8) → to_le_bytes x q ≡ to_be_bytes x (mirror q)
unfolding to_be_bytes to_le_bytes
unmirrored x q = ap (λ k. number x / 2 ^ k % 256) (omega (arith, val-mirror q, val-lt q))

-- The debug assertion `valid` of the domain over bits holds of a reconstruction exactly where all
-- bits of each byte are the same, which the laws of the domain ask of a valid one.
pub valid-IsValid : (x : ReconGf2) → (Recon.valid x ≡ true) ↔ IsValid x
unfolding Recon.valid
valid-IsValid x = (sound, complete)
  where
    test : ℕ → Bool
    test byte = (byte == 0xff) || (byte == 0x00)

    passes : (b : Bool) → test (if b then 0xff else 0x00) ≡ true
    passes true = refl
    passes false = refl

    bits_alike : (byte : ℕ) → test byte ≡ true → (k : ℕ) → k < 8 → test_bit k byte ≡ test_bit 0 byte
    bits_alike byte h k below = elim (Bool-cases (byte == 0xff)) [
      | inl ones ↦
          let e : byte ≡ 0xff = ground (arith, ones) in
          rw e (test_bit-ones k below ∙ sym (test_bit-ones 0 (omega arith)))
      | inr other ↦
          let e : byte ≡ 0 = ground (arith, other, h) in
          rw e (test_bit-zero k ∙ sym (test_bit-zero 0))
    ]

    sound : Recon.valid x ≡ true → IsValid x
    sound h r k below =
        sym (test_bit-to_be_bytes x r k below)
        ∙ bits_alike (to_be_bytes x r)
            (ap test (mirrored x r) ∙ all→ test (to_le_bytes x) h (mirror r)) k below
        ∙ test_bit-to_be_bytes x r 0 (omega arith)
        ∙ ap (λ m. bit m x) (omega arith)

    complete : IsValid x → Recon.valid x ≡ true
    complete h = →all 8 test (to_le_bytes x) λ q.
        ap test (unmirrored x q ∙ to_be_bytes-valid x h (mirror q))
        ∙ passes (recon_lane x (mirror q))
