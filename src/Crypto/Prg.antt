-- ===== src/Crypto/Prg.antt =====
-- crypto/prg.rs
use reverie_ppr.Prelude.{[], ◌∷◌, Fin, Array, ℕ, List, replicate}
use reverie_ppr.Crypto.{StreamCipher, Key}

-- An array that is filled with generated bytes; the generator returns as many.
unfoldable pub array_of_bytes : (n : ℕ) → List ℕ → Array ℕ n
array_of_bytes ℕ.zero bytes i = elim i [ ]
array_of_bytes (ℕ.suc n) [] i = 0
array_of_bytes (ℕ.suc n) (x ∷ bytes) Fin.zero = x
array_of_bytes (ℕ.suc n) (x ∷ bytes) (Fin.suc i) = array_of_bytes n bytes i

module _ ⦃c : StreamCipher⦄ where
  abbrev pub Prg : Type 0
  Prg = c.Cipher

  -- `PRG::new`
  unfoldable pub prg_new : Key → Prg
  prg_new key = c.init key

  unfoldable pub xor_bytes : Prg → List ℕ → List ℕ × Prg
  xor_bytes prg dst = c.apply_keystream prg dst

  -- `PRG::gen` on a slice of `n` bytes: the slice is zeroed, then the keystream is added. The code
  -- zeroes the part of the slice that is aligned to 16 bytes; the slice is taken to be all aligned,
  -- as the debug assertions of the code say.
  unfoldable pub gen : Prg → ℕ → List ℕ × Prg
  unfolding xor_bytes
  gen prg n = xor_bytes prg (replicate n 0)
