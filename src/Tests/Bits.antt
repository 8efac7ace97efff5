-- ===== src/Tests/Bits.antt =====
-- The theorems about src/algebra/gf2 at inputs where their hypotheses hold.
use reverie_ppr.Prelude.{
  ℕ, ◌+◌, ◌-◌, ◌*◌, ◌≡◌, ◌↔◌, refl, arith, Bool, true, false, List, [], ◌∷◌, length, Fin, Array,
  val, fin, All, ok, Feeds, ◌⊎◌, ◌≢◌, ◌==◌, ◌++◌, if◌then◌else◌, panic, out_of_bounds,
  unequal_lengths,
}
use reverie_ppr.Ring.Sum.{total}
use reverie_ppr.Word.{wrap}
use reverie_ppr.Word.Bits.{bit}
use reverie_ppr.Crypto.{StreamCipher, Blake3}
use reverie_ppr.Algebra.Codec.{Reads, ReadsShare}
use reverie_ppr.Algebra.Gf2.{ReconGf2, ShareGf2, BatchGf2}
use reverie_ppr.Algebra.Gf2.Boolean.{bool_ring}
use reverie_ppr.Algebra.Gf2.Bytes.{base, to_le_bytes}
use reverie_ppr.Algebra.Gf2.Recon
use reverie_ppr.Algebra.Gf2.Share
use reverie_ppr.Algebra.Gf2.Transpose.{byte_to_shares_avx2, byte_to_shares_sse2}
use reverie_ppr.Algebra.Gf2.Columns.{byte_to_shares_sse2-avx2}
use reverie_ppr.Algebra.Gf2.Parity.{bit-reconstruct}
use reverie_ppr.Algebra.Gf2.Domain.{
  share_mul, share_add_recon, share_sub_recon, reconstruct, batches_to_shares,
}
use reverie_ppr.Algebra.Gf2.Laws.{
  IsValid, share_lane, batch_lane, batches_to_shares-lane, domain_gf2, lanes_gf2,
}
use reverie_ppr.Algebra.Gf2.Linear.{reconstruct_lem_gf2, valid-IsValid}
use reverie_ppr.Algebra.Gf2.Pack
use reverie_ppr.Algebra.Gf2.Packing.Recons.{unpack-pack_gf2}
use reverie_ppr.Algebra.Gf2.Packing.Shares.{unpack_selected-pack_selected_gf2}
use reverie_ppr.Algebra.Gf2.Packing.Lengths.{elements, unpack-ok_or_panic, unpack_selected-safe}
use mathlib.Core.Option
use reverie_ppr.Witness.{next_bit, next_recon, next_recon-next_bit}
use reverie_ppr.Tests.Toy.{toy_cipher, toy_hash}

instance abbrev cipher : StreamCipher
cipher = toy_cipher

instance abbrev hash : Blake3
hash = toy_hash

abbrev two : Fin 8
two = fin 8 2 (omega arith)

abbrev five : Fin 8
five = fin 8 5 (omega arith)

byte_to_shares_sse2-avx2_example :
    byte_to_shares_sse2 (λ n. 4 * n) five ≡ byte_to_shares_avx2 (λ n. 4 * n) five
byte_to_shares_sse2-avx2_example = byte_to_shares_sse2-avx2 (λ n. 4 * n) five

abbrev batches : Array (Array BatchGf2 8) 8
batches r p i = 32 * val r + 4 * val p + val i

batches_to_shares-lane_example :
    share_lane (batches_to_shares batches (fin 128 77 (omega arith))) two five
    ≡ batch_lane (batches two five) (fin 128 77 (omega arith))
batches_to_shares-lane_example = batches_to_shares-lane batches (fin 128 77 (omega arith)) two five

abbrev share : ShareGf2
share = wrap 0x0123456789abcdef

abbrev other : ShareGf2
other = wrap 0xfedcba9812345678

bit-reconstruct_example :
    bit (6 + base two) (reconstruct share) ≡ total 8 (λ p. bit ((7 - val p) + base two) share)
bit-reconstruct_example = bit-reconstruct two 6 share (omega arith)

-- The repetitions 0, 3, 4 and 7 have a one.
abbrev recon : ReconGf2
recon = wrap 0xff0000ffff0000ff

valid-IsValid_example : (Recon.valid recon ≡ true) ↔ IsValid recon
valid-IsValid_example = valid-IsValid recon

recon-IsValid : IsValid recon
unfolding Recon.valid to_le_bytes wrap
recon-IsValid = (valid-IsValid recon).0 refl

zero-IsValid : IsValid (wrap 0)
unfolding Recon.valid to_le_bytes wrap
zero-IsValid = (valid-IsValid (wrap 0)).0 refl

reconstruct_lem_gf2_example :
    (reconstruct (Share.add share other) ≡ Recon.add (reconstruct share) (reconstruct other))
    × (reconstruct (Share.sub share other) ≡ Recon.sub (reconstruct share) (reconstruct other))
    × (reconstruct (share_mul share recon) ≡ Recon.mul (reconstruct share) recon)
    × (reconstruct (share_add_recon share recon) ≡ Recon.add (reconstruct share) recon)
    × (reconstruct (share_sub_recon share recon) ≡ Recon.sub (reconstruct share) recon)
reconstruct_lem_gf2_example = reconstruct_lem_gf2 share other recon recon-IsValid

-- More than one chunk of eight.
abbrev recons : List ReconGf2
recons = recon ∷ wrap 0 ∷ recon ∷ recon ∷ wrap 0 ∷ wrap 0 ∷ recon ∷ wrap 0 ∷ recon ∷ recon ∷ []

recons-IsValid : All IsValid recons
recons-IsValid = (
  recon-IsValid,
  (
    zero-IsValid,
    (
      recon-IsValid,
      (
        recon-IsValid,
        (
          zero-IsValid,
          (zero-IsValid, (recon-IsValid, (zero-IsValid, (recon-IsValid, (recon-IsValid, tt))))),
        ),
      ),
    ),
  ),
)

abbrev selected : Array Bool 8
selected Fin.zero = false
selected (Fin.suc r) = true

abbrev packs : Array (List ℕ) 8
packs _ = Pack.pack (λ _. []) recons selected two

unpack-pack_gf2_example :
    (xs : List ReconGf2) × (Pack.unpack [] packs ≡ ok xs)
    × Feeds (Reads domain_gf2 lanes_gf2 two five) recons xs
unpack-pack_gf2_example =
    unpack-pack_gf2 two five recons selected packs recons-IsValid refl refl (λ r. refl)

abbrev omits : Array ℕ 8
omits _ = 5

abbrev share_packs : Array (List ℕ) 8
share_packs _ = Pack.pack_selected (λ _. []) (share ∷ other ∷ share ∷ []) omits two

unpack_selected-pack_selected_gf2_example :
    (xs : List ShareGf2) × (Pack.unpack_selected [] share_packs omits ≡ ok xs)
    × Feeds (ReadsShare domain_gf2 lanes_gf2 two Fin.zero five) (share ∷ other ∷ share ∷ []) xs
unpack_selected-pack_selected_gf2_example =
    unpack_selected-pack_selected_gf2 two Fin.zero five omits omits refl refl (λ r. omega arith)
      (share ∷ other ∷ share ∷ []) share_packs refl (λ r. refl)

-- The last stream is shorter.
abbrev uneven : Array (List ℕ) 8
uneven r = if val r == 7 then [] else 9 ∷ []

unpack-ok_or_panic_example :
    (Pack.unpack [] uneven ≡ panic out_of_bounds)
    × (length (elements (length (uneven Fin.zero)) uneven) ≡ 8 * length (uneven Fin.zero))
unpack-ok_or_panic_example = unpack-ok_or_panic [] uneven

unpack_selected-safe_example :
    ((xs : List ShareGf2) × (Pack.unpack_selected [] share_packs omits ≡ ok ([] ++ xs))
      × (length xs ≡ 8 * length (share_packs Fin.zero)))
    ⊎ ((r : Fin 8) × (length (share_packs r) ≢ length (share_packs Fin.zero))
        × (Pack.unpack_selected [] share_packs omits ≡ panic unequal_lengths))
unpack_selected-safe_example = unpack_selected-safe [] share_packs omits (λ r. omega arith)

-- A space and two digits.
next_recon-next_bit_example :
    next_recon (32 ∷ 48 ∷ 49 ∷ [])
    ≡ (Option.map Recon.from (next_bit (32 ∷ 48 ∷ 49 ∷ [])).0, (next_bit (32 ∷ 48 ∷ 49 ∷ [])).1)
next_recon-next_bit_example = next_recon-next_bit (32 ∷ 48 ∷ 49 ∷ [])
