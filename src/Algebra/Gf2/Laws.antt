-- ===== src/Algebra/Gf2/Laws.antt =====
-- The domain over the field of two elements: a bit for each player of each repetition.
use reverie_ppr.Prelude.{
  ℕ, ◌+◌, ◌-◌, ◌/◌, ◌%◌, ◌<◌, ◌≡◌, refl, sym, ◌∙◌, ap, ap₂, arith, Bool, true, false, ◌&&◌, [], ◌∷◌,
  Fin, Array, val, val-lt, fin_congr, fin-val, val-fin, if◌then◌else◌,
}
use reverie_ppr.Bits.{test_bit, test_bit-zero, xor}
use reverie_ppr.Word.{number, wrap}
use reverie_ppr.Word.Bits.{bit, bit-wrap, bit-u64_xor, bit-u64_and, U64_bits_ext}
use reverie_ppr.Crypto.{StreamCipher, Blake3}
use reverie_ppr.Crypto.Hash.{absorbed, absorbed-update, absorbed-push}
use reverie_ppr.Algebra.{Domain, Lanes}
use reverie_ppr.Algebra.Gf2.{ReconGf2, ShareGf2, BatchGf2}
use reverie_ppr.Algebra.Gf2.Boolean.{bool_ring}
use reverie_ppr.Algebra.Gf2.Bytes.{base, to_be_bytes, agree→, from_bits, to_be_bytes-from_bits}
use reverie_ppr.Algebra.Gf2.Recon
use reverie_ppr.Algebra.Gf2.Share
use reverie_ppr.Algebra.Gf2.Columns.{bit-byte_to_shares_avx2}
use reverie_ppr.Algebra.Gf2.Parity.{bit-reconstruct}
use reverie_ppr.Algebra.Gf2.Domain.{
  mod_8-lt, share_mul, reconstruct, batches_to_shares, batch_zero, random, eighth, sixteenth, slice,
}
use reverie_ppr.Algebra.Gf2.Pack

-- Repetition `r`, and the part of player `p` in it, the first player at the top.
abbrev pub recon_lane : ReconGf2 → Array Bool 8
recon_lane x r = bit (base r) x

abbrev pub share_lane : ShareGf2 → Fin 8 → Array Bool 8
share_lane s r p = bit ((7 - val p) + base r) s

abbrev pub batch_lane : BatchGf2 → Array Bool 128
batch_lane b k = test_bit (7 - val (eighth (val k))) (b (sixteenth k))

-- All bits of a byte are the same.
abbrev pub IsValid : ReconGf2 → Type 0
IsValid x = (r : Fin 8) (k : ℕ) → k < 8 → bit (k + base r) x ≡ bit (base r) x

pub eighth-val : (r : Fin 8) (n : ℕ) → n % 8 ≡ val r → eighth n ≡ r
eighth-val r n e = fin_congr 8 (n % 8) (val r) (mod_8-lt n) (val-lt r) e ∙ fin-val r (val-lt r)

-- Every bit of a word is a bit of one of its bytes.
in_byte : (i : ℕ) → i < 64 → (r : Fin 8) × (i ≡ (i % 8) + base r)
in_byte i h =
    let r = eighth (7 - i / 8) in
    (r, ground (arith, val-fin 8 ((7 - i / 8) % 8) (mod_8-lt (7 - i / 8)), h))

pub valid_ext :
    (x y : ReconGf2)
    → IsValid x
    → IsValid y
    → ((r : Fin 8) → recon_lane x r ≡ recon_lane y r)
    → x ≡ y
valid_ext x y hx hy e = U64_bits_ext x y λ i h.
    let (r, place) = in_byte i h in
    let below : i % 8 < 8 = omega arith in
    rw place (hx r (i % 8) below ∙ e r ∙ sym (hy r (i % 8) below))

pub bit-zero : (i : ℕ) → i < 64 → bit i (wrap 0) ≡ false
bit-zero i h = bit-wrap i h 0 ∙ test_bit-zero i

bit-ones : (i : ℕ) → i < 64 → bit i (wrap 0xffffffffffffffff) ≡ true
unfolding wrap test_bit
bit-ones i h = agree→ 64 (λ i. bit i (wrap 0xffffffffffffffff)) (λ i. true) refl i h

pub bit-from : (i : ℕ) (b : Bool) → i < 64 → bit i (Recon.from b) ≡ b
unfolding Recon.from
bit-from i true h = bit-ones i h
bit-from i false h = bit-zero i h

pub is_zero-lanes : (x : ReconGf2) → Recon.is_zero x ≡ true → (r : Fin 8) → recon_lane x r ≡ false
unfolding Recon.is_zero
is_zero-lanes x h r =
    let e : number x ≡ 0 = ground (arith, h) in ap (test_bit (base r)) e ∙ test_bit-zero (base r)

pub recon_zero-IsValid : IsValid Recon.recon_zero
unfolding Recon.recon_zero
recon_zero-IsValid r k h =
    bit-zero (k + base r) (omega arith) ∙ sym (bit-zero (base r) (omega arith))

pub lanes-is_zero :
    (x : ReconGf2) → IsValid x → ((r : Fin 8) → recon_lane x r ≡ false) → Recon.is_zero x ≡ true
unfolding Recon.is_zero Recon.recon_zero wrap
lanes-is_zero x valid e = ap Recon.is_zero (
    valid_ext x Recon.recon_zero valid recon_zero-IsValid
      λ r. e r ∙ sym (bit-zero (base r) (omega arith)))

-- The byte that a repetition of a share is, from its players' parts.
abbrev pub byte : Array Bool 8 → ℕ
byte a = from_bits 8 (λ k. a (eighth (7 - k)))

pub to_be_bytes-share : (s : ShareGf2) (r : Fin 8) → to_be_bytes s r ≡ byte (share_lane s r)
to_be_bytes-share s r = to_be_bytes-from_bits s r _ λ k h.
    ap (λ m. bit (m + base r) s) (ground (arith, val-fin 8 ((7 - k) % 8) (mod_8-lt (7 - k)), h))

-- The byte that a repetition of a reconstruction is.
pub to_be_bytes-valid :
    (x : ReconGf2)
    → IsValid x
    → (r : Fin 8) → to_be_bytes x r ≡ (if recon_lane x r then 0xff else 0x00)
unfolding from_bits
to_be_bytes-valid x valid r =
    to_be_bytes-from_bits x r (λ k. recon_lane x r) (valid r) ∙ equal (recon_lane x r)
  where
    equal : (b : Bool) → from_bits 8 (λ k. b) ≡ (if b then 0xff else 0x00)
    equal true = refl
    equal false = refl

-- An operation on each bit keeps the bits of a byte alike.
pub both :
    (x y z : ReconGf2) (f : Bool → Bool → Bool)
    → ((i : ℕ) → i < 64 → bit i z ≡ f (bit i x) (bit i y))
    → IsValid x
    → IsValid y
    → IsValid z
both x y z f acts hx hy r k h =
    acts (k + base r) (omega arith)
    ∙ ap₂ f (hx r k h) (hy r k h)
    ∙ sym (acts (base r) (omega arith))

-- The bit transposition: of share `k` that `batches_to_shares` makes, the bit of repetition `r`
-- and player `p` is bit `k` of the batch of that repetition and player, counted from the top of
-- each byte.
pub batches_to_shares-lane :
    (from : Array (Array BatchGf2 8) 8) (k : Fin 128) (r p : Fin 8)
    → share_lane (batches_to_shares from k) r p ≡ batch_lane (from r p) k
unfolding batches_to_shares
batches_to_shares-lane from k r p =
    bit-byte_to_shares_avx2 (slice from (sixteenth k)) (eighth (val k)) ((7 - val p) + base r)
      (omega arith)
    ∙ ap₂ (λ r' p'. test_bit (7 - val (eighth (val k))) (from r' p' (sixteenth k)))
        (eighth-val r _ (omega (arith, val-lt r, val-lt p)))
        (eighth-val p _ (omega (arith, val-lt r, val-lt p)))

module _ ⦃c : StreamCipher⦄ ⦃b : Blake3⦄ where
  abbrev pub domain_gf2 : Domain
  domain_gf2 = record {
    Batch = BatchGf2;
    Recon = ReconGf2;
    Share = ShareGf2;
    Const = Bool;
    batch_default = batch_zero;
    random = random;
    recon_zero = Recon.recon_zero;
    recon_add = Recon.add;
    recon_sub = Recon.sub;
    recon_mul = Recon.mul;
    recon_is_zero = Recon.is_zero;
    recon_hash = Recon.hash;
    pack = Pack.pack;
    unpack = Pack.unpack;
    share_zero = Share.share_zero;
    share_add = Share.add;
    share_sub = Share.sub;
    share_mul = share_mul;
    share_hash = Share.hash;
    pack_selected = Pack.pack_selected;
    unpack_selected = Pack.unpack_selected;
    reconstruct = reconstruct;
    batches_to_shares = batches_to_shares;
    into = Recon.from;
  }

  -- Each repetition is additive sharing of a bit, with a share for each player.
  unfoldable pub lanes_gf2 : Lanes domain_gf2
  unfolding Recon.recon_zero Recon.add Recon.sub Recon.mul Recon.hash Share.share_zero Share.add
      Share.sub Share.hash share_mul batch_zero
  lanes_gf2 = record {
    Lane = Bool;
    ring = bool_ring;
    recon_lane = recon_lane;
    share_lane = share_lane;
    batch_lane = batch_lane;
    const_lane = λ k. k;
    IsValid = IsValid;
    recon_zero-lane = λ r. bit-zero (base r) (omega arith);
    recon_add-lane = λ x y r. bit-u64_xor (base r) (omega arith) x y;
    recon_sub-lane = λ x y r. bit-u64_xor (base r) (omega arith) x y;
    recon_mul-lane = λ x y r. bit-u64_and (base r) (omega arith) x y;
    recon_ext = valid_ext;
    is_zero_iff = λ x valid. (is_zero-lanes x, lanes-is_zero x valid);
    into-lane = λ k r. bit-from (base r) k (omega arith);
    share_zero-lane = λ r p. bit-zero ((7 - val p) + base r) (omega arith);
    share_add-lane = λ s t r p. bit-u64_xor ((7 - val p) + base r) (omega arith) s t;
    share_sub-lane = λ s t r p. bit-u64_xor ((7 - val p) + base r) (omega arith) s t;
    share_mul-lane = λ s x valid r p.
        bit-u64_and ((7 - val p) + base r) (omega arith) s x
        ∙ ap (λ b. share_lane s r p && b) (valid r (7 - val p) (omega arith));
    reconstruct-lane =
        λ s r. ap (λ m. bit m (reconstruct s)) (omega arith) ∙ bit-reconstruct r 0 s (omega arith);
    batches_to_shares-lane = batches_to_shares-lane;
    batch_default-lane = λ k. test_bit-zero (7 - val (eighth (val k)));
    recon_zero-IsValid = recon_zero-IsValid;
    recon_add-IsValid =
        λ x y hx hy. both x y (Recon.add x y) xor (λ i h. bit-u64_xor i h x y) hx hy;
    recon_sub-IsValid =
        λ x y hx hy. both x y (Recon.sub x y) xor (λ i h. bit-u64_xor i h x y) hx hy;
    recon_mul-IsValid =
        λ x y hx hy. both x y (Recon.mul x y) ◌&&◌ (λ i h. bit-u64_and i h x y) hx hy;
    reconstruct-IsValid = λ s r k h.
        bit-reconstruct r k s h
        ∙ sym (bit-reconstruct r 0 s (omega arith))
        ∙ ap (λ m. bit m (reconstruct s)) (omega arith);
    into-IsValid =
        λ b r k h. bit-from (k + base r) b (omega arith) ∙ sym (bit-from (base r) b (omega arith));
    recon_bytes = λ bit. (if bit then 0xff else 0x00) ∷ [];
    share_bytes = λ a. byte a ∷ [];
    recon_hash-lane = λ x h r valid.
        absorbed-update (h r) (to_be_bytes x r ∷ [])
        ∙ ap (λ byte. b.update (absorbed (h r)) (byte ∷ [])) (to_be_bytes-valid x valid r);
    share_hash-lane = λ s h r.
        absorbed-push (h r) (to_be_bytes s r)
        ∙ ap (λ byte. b.update (absorbed (h r)) (byte ∷ [])) (to_be_bytes-share s r);
  }
