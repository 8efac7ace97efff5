-- ===== src/Algebra/Gf2/Share.antt =====
-- algebra/gf2/share.rs: `ShareGF2`, a byte for each repetition with a bit for each player.
use reverie_ppr.Word.{wrap}
use reverie_ppr.Word.Bits.{u64_xor}
use reverie_ppr.Crypto.{Blake3}
use reverie_ppr.Crypto.Hash.{PackedHasher, push}
use reverie_ppr.Algebra.Gf2.{ShareGf2}
use reverie_ppr.Algebra.Gf2.Bytes.{to_be_bytes}

unfoldable pub share_zero : ShareGf2
unfolding wrap
share_zero = wrap 0

unfoldable pub add : ShareGf2 → ShareGf2 → ShareGf2
unfolding u64_xor
add s t = u64_xor s t

unfoldable pub sub : ShareGf2 → ShareGf2 → ShareGf2
unfolding u64_xor
sub s t = u64_xor s t

unfoldable pub hash : ⦃b : Blake3⦄ → ShareGf2 → PackedHasher → PackedHasher
unfolding to_be_bytes
hash s h i = push (h i) (to_be_bytes s i)
