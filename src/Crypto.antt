-- ===== src/Crypto.antt =====
-- crypto: the generator and the hash that the program takes from the crates aes/ctr and blake3,
-- as parameters, and what src/crypto builds on them.
pub mod Hash
pub mod Oracle
pub mod Prg
use reverie_ppr.Prelude.{ℕ, ◌≡◌, List, [], ◌++◌, Array}

abbrev pub Key : Type 0
Key = Array ℕ 16

-- `Ctr128BE<Aes128>`: `init` is `Aes128Ctr::new` with the zero nonce.
pub record StreamCipher : Type 1 where
  pub Cipher : Type 0
  pub init : Key → Cipher
  pub apply_keystream : Cipher → List ℕ → List ℕ × Cipher

-- `blake3::Hasher` and `blake3::Hash`. The two laws are the documented behaviour of `update`:
-- successive calls hash the concatenation of their arguments.
pub record Blake3 : Type 1 where
  pub Hasher : Type 0
  pub Digest : Type 0
  pub new : Hasher
  pub update : Hasher → List ℕ → Hasher
  pub finalize : Hasher → Digest
  pub as_bytes : Digest → List ℕ
  pub update_nil : (h : Hasher) → update h [] ≡ h
  pub update_append : (h : Hasher) (a b : List ℕ) → update (update h a) b ≡ update h (a ++ b)
