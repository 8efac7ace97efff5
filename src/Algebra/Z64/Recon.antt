-- ===== src/Algebra/Z64/Recon.antt =====
-- algebra/z64/recon.rs: `ReconZ64`, one word for each repetition.
use reverie_ppr.Prelude.{
  ℕ, ◌/◌, zero, suc, ◌==◌, Bool, List, [], ◌∷◌, ◌++◌, Fin, Array, all, length, not, if◌then◌else◌,
  Outcome, ok,
}
use reverie_ppr.Word.{U64, number, wrap, wrapping_add, wrapping_sub, wrapping_mul}
use reverie_ppr.Crypto.{Blake3}
use reverie_ppr.Crypto.Hash.{PackedHasher, update}
use reverie_ppr.Algebra.Z64.{ReconZ64}
use reverie_ppr.Algebra.Z64.Bytes.{to_le_bytes, from_le_bytes, next_chunk}

unfoldable pub recon_zero : ReconZ64
recon_zero i = wrap 0

unfoldable pub is_zero : ReconZ64 → Bool
is_zero x = all 8 (λ w. number w == 0) x

-- `From<u64>`
unfoldable pub from : U64 → ReconZ64
from item i = item

unfoldable pub add : ReconZ64 → ReconZ64 → ReconZ64
add x y i = wrapping_add (x i) (y i)

unfoldable pub sub : ReconZ64 → ReconZ64 → ReconZ64
sub x y i = wrapping_sub (x i) (y i)

unfoldable pub mul : ReconZ64 → ReconZ64 → ReconZ64
mul x y i = wrapping_mul (x i) (y i)

unfoldable pub hash : ⦃b : Blake3⦄ → ReconZ64 → PackedHasher → PackedHasher
hash x h i = update (h i) (to_le_bytes (x i))

-- `Pack::pack`. Where nothing is selected the loop changes nothing either, but the source
-- returns before it.
unfoldable pub pack_elem : ReconZ64 → Array Bool 8 → Array (List ℕ) 8 → Array (List ℕ) 8
pack_elem elem selected dst i = if selected i then dst i ++ to_le_bytes (elem i) else dst i

unfoldable pub pack_loop : Array (List ℕ) 8 → List ReconZ64 → Array Bool 8 → Array (List ℕ) 8
unfolding pack_elem
pack_loop dst [] selected = dst
pack_loop dst (elem ∷ src) selected = pack_loop (pack_elem elem selected dst) src selected

unfoldable pub pack : Array (List ℕ) 8 → List ReconZ64 → Array Bool 8 → Array (List ℕ) 8
unfolding pack_loop
pack dst src selected = if all 8 not selected then dst else pack_loop dst src selected

-- The rounds of `Pack::unpack`: each reads a chunk of every stream.
unfoldable pub unpack_loop : ℕ → List ReconZ64 → Array (List ℕ) 8 → List ReconZ64
unfolding next_chunk
unpack_loop zero dst chunks = dst
unpack_loop (suc n) dst chunks =
    unpack_loop n (dst ++ (λ j. from_le_bytes (next_chunk (chunks j)).0) ∷ [])
      (λ j. (next_chunk (chunks j)).1)

unfoldable pub unpack : List ReconZ64 → Array (List ℕ) 8 → Outcome (List ReconZ64)
unfolding unpack_loop
unpack dst src = ok (unpack_loop (length (src Fin.zero) / 8) dst src)
