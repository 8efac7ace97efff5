-- ===== src/Algebra/Gf2/Transpose.antt =====
-- algebra/gf2/domain.rs: the transposition of bytes into shares, by vector instructions. A
-- register and the 64 bytes to transpose are given by index.
use reverie_ppr.Prelude.{ℕ, zero, suc, ◌+◌, ◌-◌, ◌*◌, ◌/◌, ◌%◌, Fin, Array}
use reverie_ppr.Word.{U64, wrap}
use reverie_ppr.Word.Bits.{u64_or, u64_shl}

abbrev pub Register : Type 0
Register = ℕ → ℕ

-- `_mm256_set_epi8` and `_mm_set_epi8` of `n` bytes from `src[lo]` on; the first argument is the
-- highest byte of the register.
unfoldable pub set_epi8 : (n lo : ℕ) → (ℕ → ℕ) → Register
set_epi8 n lo src lane = src (lo + (n - 1 - lane))

-- `_mm256_movemask_epi8` and `_mm_movemask_epi8`: the top bits of the lowest `n` bytes.
unfoldable pub movemask_epi8 : ℕ → Register → ℕ
movemask_epi8 zero v = 0
movemask_epi8 (suc n) v = v 0 / 128 % 2 + 2 * movemask_epi8 n (λ lane. v (suc lane))

-- `_mm256_add_epi8` and `_mm_add_epi8`, byte by byte.
unfoldable pub add_epi8 : Register → Register → Register
add_epi8 v w lane = (v lane + w lane) % 256

-- The loops over the eight shares, with the registers as they are at the first of them.
unfoldable pub avx2_loop : (n : ℕ) → Register → Register → Array U64 n
unfolding movemask_epi8 add_epi8 u64_or u64_shl wrap
avx2_loop zero fst snd j = elim j [ ]
avx2_loop (suc n) fst snd Fin.zero =
    let top = wrap (movemask_epi8 32 fst) in
    let bot = wrap (movemask_epi8 32 snd) in u64_or (u64_shl top 32) bot
avx2_loop (suc n) fst snd (Fin.suc j) = avx2_loop n (add_epi8 fst fst) (add_epi8 snd snd) j

unfoldable pub byte_to_shares_avx2 : (ℕ → ℕ) → Array U64 8
unfolding avx2_loop set_epi8
byte_to_shares_avx2 src = avx2_loop 8 (set_epi8 32 0 src) (set_epi8 32 32 src)

unfoldable pub sse2_loop : (n : ℕ) → Register → Register → Register → Register → Array U64 n
unfolding movemask_epi8 add_epi8 u64_or u64_shl wrap
sse2_loop zero a b c d j = elim j [ ]
sse2_loop (suc n) a b c d Fin.zero =
    let val_a = wrap (movemask_epi8 16 a) in
    let val_b = wrap (movemask_epi8 16 b) in
    let val_c = wrap (movemask_epi8 16 c) in
    let val_d = wrap (movemask_epi8 16 d) in
    u64_or (u64_or (u64_or (u64_shl val_a 48) (u64_shl val_b 32)) (u64_shl val_c 16)) val_d
sse2_loop (suc n) a b c d (Fin.suc j) =
    sse2_loop n (add_epi8 a a) (add_epi8 b b) (add_epi8 c c) (add_epi8 d d) j

unfoldable pub byte_to_shares_sse2 : (ℕ → ℕ) → Array U64 8
unfolding sse2_loop set_epi8
byte_to_shares_sse2 src =
    sse2_loop 8 (set_epi8 16 0 src) (set_epi8 16 16 src) (set_epi8 16 32 src) (set_epi8 16 48 src)
