-- ===== src/Tests/Hashing.antt =====
-- The theorems about src/crypto/hash.rs at inputs where their hypotheses hold.
use reverie_ppr.Prelude.{◌≡◌, arith, ◌+◌, ◌<◌, [], ◌∷◌, ◌++◌, length}
use reverie_ppr.Crypto.{Key}
use reverie_ppr.Crypto.Hash.{
  BufferedHasher, hasher_new, update, push, finalize, update_each, buffer_size, buffer_slack,
  finalize-update_each, update-Bounded,
}
use reverie_ppr.Tests.Toy.{toy_cipher, toy_hash}

instance abbrev cipher : reverie_ppr.Crypto.StreamCipher
cipher = toy_cipher

instance abbrev hash : reverie_ppr.Crypto.Blake3
hash = toy_hash

finalize-update_each_example :
    finalize (update_each hasher_new ((1 ∷ 2 ∷ []) ∷ (3 ∷ []) ∷ []))
    ≡ toy_hash.finalize (toy_hash.update toy_hash.new (1 ∷ 2 ∷ 3 ∷ []))
finalize-update_each_example = finalize-update_each ((1 ∷ 2 ∷ []) ∷ (3 ∷ []) ∷ [])

abbrev started : BufferedHasher
started = record { hasher = []; buffer = 7 ∷ 8 ∷ [] }

update-Bounded_example :
    (length (update started (1 ∷ 2 ∷ [])).buffer < buffer_size)
    × (length (push started 9).buffer < buffer_size)
    × (length (started.buffer ++ 1 ∷ 2 ∷ []) < buffer_size + buffer_slack)
update-Bounded_example = update-Bounded started (1 ∷ 2 ∷ []) 9 (omega arith) (omega arith)
