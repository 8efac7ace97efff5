-- ===== src/Algebra/Gf2/Recon.antt =====
-- algebra/gf2/recon.rs: `ReconGF2`, a byte of equal bits for each repetition.
use reverie_ppr.Prelude.{ℕ, ◌==◌, Bool, ◌||◌, [], ◌∷◌, Fin, Array, all, not, if◌then◌else◌}
use reverie_ppr.Word.{number, wrap}
use reverie_ppr.Word.Bits.{u64_xor, u64_and}
use reverie_ppr.Crypto.{Blake3}
use reverie_ppr.Crypto.Hash.{PackedHasher, update}
use reverie_ppr.Algebra.Gf2.{ReconGf2}
use reverie_ppr.Algebra.Gf2.Bytes.{to_be_bytes, to_le_bytes}

unfoldable pub recon_zero : ReconGf2
unfolding wrap
recon_zero = wrap 0

unfoldable pub is_zero : ReconGf2 → Bool
is_zero x = number x == 0

-- `From<bool>`
unfoldable pub from : Bool → ReconGf2
unfolding wrap
from bit = if bit then wrap 0xffffffffffffffff else wrap 0

-- `Into<[u8; PACKED]>`
unfoldable pub into_bytes : ReconGf2 → Array ℕ 8
unfolding u64_and to_be_bytes
into_bytes x = to_be_bytes (u64_and x (wrap 0x0101010101010101))

unfoldable pub add : ReconGf2 → ReconGf2 → ReconGf2
unfolding u64_xor
add x y = u64_xor x y

unfoldable pub sub : ReconGf2 → ReconGf2 → ReconGf2
unfolding add
sub x y = add x y

unfoldable pub mul : ReconGf2 → ReconGf2 → ReconGf2
unfolding u64_and
mul x y = u64_and x y

unfoldable pub hash : ⦃b : Blake3⦄ → ReconGf2 → PackedHasher → PackedHasher
unfolding to_be_bytes
hash x h i = update (h i) (to_be_bytes x i ∷ [])

-- `valid`: every byte is 0x00 or 0xff.
unfoldable pub valid : ReconGf2 → Bool
unfolding to_le_bytes
valid x = all 8 (λ byte. (byte == 0xff) || (byte == 0x00)) (to_le_bytes x)

-- `Into<bool>`
unfoldable pub into_bool : ReconGf2 → Bool
unfolding into_bytes
into_bool x = not (into_bytes x Fin.zero == 0)
