-- ===== src/Algebra/Z64/Bytes.antt =====
-- The bytes of a `u64`, least significant first, and the chunks that `unpack` reads them from.
use reverie_ppr.Prelude.{ℕ, zero, suc, ◌+◌, ◌*◌, ◌/◌, ◌%◌, ◌≡◌, refl, arith, List, [], ◌∷◌, ◌++◌}
use reverie_ppr.Word.{U64, number, wrap, U64_ext}

abbrev pub le_bytes : ℕ → ℕ → List ℕ
le_bytes zero x = []
le_bytes (suc n) x = (x % 256) ∷ le_bytes n (x / 256)

-- `u64::to_le_bytes`
unfoldable pub to_le_bytes : U64 → List ℕ
to_le_bytes x = le_bytes 8 (number x)

abbrev pub le_number : List ℕ → ℕ
le_number [] = 0
le_number (x ∷ xs) = x + 256 * le_number xs

-- `u64::from_le_bytes`
unfoldable pub from_le_bytes : List ℕ → U64
unfolding wrap
from_le_bytes bytes = wrap (le_number bytes)

-- The next chunk of `chunks_exact(8)`, with what is left; `unwrap_or([0u8; 8])` where none is.
unfoldable pub next_chunk : List ℕ → List ℕ × List ℕ
next_chunk (a ∷ b ∷ c ∷ d ∷ e ∷ f ∷ g ∷ h ∷ more) = (a ∷ b ∷ c ∷ d ∷ e ∷ f ∷ g ∷ h ∷ [], more)
next_chunk short = (0 ∷ 0 ∷ 0 ∷ 0 ∷ 0 ∷ 0 ∷ 0 ∷ 0 ∷ [], short)

-- A word is read back from its bytes.
pub from_le_bytes-to_le_bytes : (x : U64) → from_le_bytes (to_le_bytes x) ≡ x
unfolding from_le_bytes to_le_bytes
from_le_bytes-to_le_bytes x = U64_ext _ _ (omega (arith, x.1))

pub next_chunk-to_le_bytes :
    (x : U64) (more : List ℕ) → next_chunk (to_le_bytes x ++ more) ≡ (to_le_bytes x, more)
unfolding next_chunk to_le_bytes
next_chunk-to_le_bytes x more = refl
