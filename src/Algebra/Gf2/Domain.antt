-- ===== src/Algebra/Gf2/Domain.antt =====
-- algebra/gf2/domain.rs and batch.rs: how shares and reconstructions combine, and the batches.
use Prim.Native.Nat.{bit_and, bit_xor}
use reverie_ppr.Prelude.{ℕ, ◌/◌, ◌%◌, ◌<◌, Fin, Array, val, val-lt, fin, arith}
use reverie_ppr.Word.{wrap}
use reverie_ppr.Word.Bits.{u64_xor, u64_and, u64_or, u64_shr, u64_shl}
use reverie_ppr.Crypto.{StreamCipher}
use reverie_ppr.Crypto.Prg.{Prg, gen, array_of_bytes}
use reverie_ppr.Algebra.Gf2.{ReconGf2, ShareGf2, BatchGf2}
use reverie_ppr.Algebra.Gf2.Transpose.{byte_to_shares_avx2}

-- `Mul<ReconGF2> for ShareGF2`
unfoldable pub share_mul : ShareGf2 → ReconGf2 → ShareGf2
unfolding u64_and
share_mul s x = u64_and s x

-- `Add<ReconGF2>` and `Sub<ReconGF2>`: the last player alone adds the public value.
unfoldable pub share_add_recon : ShareGf2 → ReconGf2 → ShareGf2
unfolding u64_and u64_xor wrap
share_add_recon s x = let delta = u64_and x (wrap 0x0101010101010101) in u64_xor s delta

unfoldable pub share_sub_recon : ShareGf2 → ReconGf2 → ShareGf2
unfolding share_add_recon
share_sub_recon s x = share_add_recon s x

-- `reconstruct`: the parity of each byte, then spread over the byte.
unfoldable pub parity : ShareGf2 → ReconGf2
unfolding u64_and u64_xor u64_shr wrap
parity s =
    let t1 = u64_xor s (u64_shr s 4) in
    let t2 = u64_xor t1 (u64_shr t1 2) in
    let t3 = u64_xor t2 (u64_shr t2 1) in u64_and t3 (wrap 0x0101010101010101)

unfoldable pub fill : ReconGf2 → ReconGf2
unfolding u64_or u64_shl
fill t =
    let t1 = u64_or t (u64_shl t 1) in let t2 = u64_or t1 (u64_shl t1 2) in u64_or t2 (u64_shl t2 4)

unfoldable pub reconstruct : ShareGf2 → ReconGf2
unfolding parity fill
reconstruct s = fill (parity s)

-- The index of a byte in an array of eight.
pub mod_8-lt : (n : ℕ) → n % 8 < 8
mod_8-lt n = omega arith

abbrev pub eighth : ℕ → Fin 8
eighth n = fin 8 (n % 8) (mod_8-lt n)

abbrev pub sixteenth : Fin 128 → Fin 16
sixteenth k = fin 16 (val k / 8) (omega (arith, val-lt k))

-- The bytes of `from[_][_].pack[i]`, repetition by repetition.
abbrev pub slice : Array (Array BatchGf2 8) 8 → Fin 16 → ℕ → ℕ
slice from i n = from (eighth (n / 8)) (eighth n) i

-- `batches_to_shares_x86`, with the transposition that the build configuration selects.
unfoldable pub batches_to_shares : Array (Array BatchGf2 8) 8 → Array ShareGf2 128
unfolding byte_to_shares_avx2
batches_to_shares from k = byte_to_shares_avx2 (slice from (sixteenth k)) (eighth (val k))

unfoldable pub batch_zero : BatchGf2
batch_zero i = 0

unfoldable pub batch_add : BatchGf2 → BatchGf2 → BatchGf2
batch_add x y i = bit_xor (x i) (y i)

unfoldable pub batch_sub : BatchGf2 → BatchGf2 → BatchGf2
batch_sub x y i = bit_xor (x i) (y i)

unfoldable pub batch_mul : BatchGf2 → BatchGf2 → BatchGf2
batch_mul x y i = bit_and (x i) (y i)

module _ ⦃c : StreamCipher⦄ where
  -- `Batch::random`
  unfoldable pub random : Prg → BatchGf2 × Prg
  unfolding gen array_of_bytes
  random prg = let (bytes, prg') = gen prg 16 in (array_of_bytes 16 bytes, prg')
