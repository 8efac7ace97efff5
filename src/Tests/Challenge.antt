-- ===== src/Tests/Challenge.antt =====
-- The theorems about the challenge of src/proof/mod.rs at inputs where their hypotheses hold.
use reverie_ppr.Prelude.{◌≤◌, some, ltb, ℕ, ◌≡◌, refl, arith, List, [], ◌∷◌, length, Fin, ok, All}
use reverie_ppr.Crypto.{Key}
use reverie_ppr.Proof.{online_reps, Openings, order_hashes, opening_to_packed, contains_key}
use reverie_ppr.Crypto.Oracle.{Xof, oracle_new, fill}
use reverie_ppr.Proof.Challenge.{
  ctx_challenge, drawn, draw_opening, random_int, insert, challenge_to_opening, EntryIsValid,
  challenge_to_opening-returns,
}
use reverie_ppr.Proof.Order.{
  online_of, preprocessing_of, order_hashes-split, opening_to_packed-contains_key,
}
use reverie_ppr.Tests.Toy.{toy_cipher, toy_hash, toy_xof}

instance abbrev cipher : reverie_ppr.Crypto.StreamCipher
cipher = toy_cipher

instance abbrev hash : reverie_ppr.Crypto.Blake3
hash = toy_hash

abbrev one : Fin 8
one = Fin.suc Fin.zero

-- Repetitions 1 and 4 are opened, without players 3 and 0.
abbrev challenge : Openings
challenge = (4, 0) ∷ (1, 3) ∷ []

abbrev digests : List (List ℕ)
digests = (10 ∷ []) ∷ (11 ∷ []) ∷ (12 ∷ []) ∷ (13 ∷ []) ∷ (14 ∷ []) ∷ []

order_hashes-split_example :
    order_hashes challenge 0
      (length digests)
      (online_of challenge 0 digests)
      (preprocessing_of challenge 0 digests)
    ≡ ok digests
order_hashes-split_example = order_hashes-split challenge 0 digests

opening_to_packed-contains_key_example :
    ltb (opening_to_packed challenge Fin.zero one) 8 ≡ contains_key challenge 1
opening_to_packed-contains_key_example =
    opening_to_packed-contains_key challenge (omega arith, (omega arith, tt)) Fin.zero one

instance abbrev output : Xof
output = toy_xof

le_of_eq : (n : ℕ) → n ≡ 40 → 40 ≤ n
le_of_eq n e = omega (arith, e)

drawn_forty : length (drawn 40 (oracle_new ctx_challenge (7 ∷ [])) []) ≡ 40
unfolding oracle_new draw_opening random_int fill insert
drawn_forty = refl

enough_rounds : online_reps ≤ length (drawn 40 (oracle_new ctx_challenge (7 ∷ [])) [])
enough_rounds = le_of_eq _ drawn_forty

challenge_to_opening-returns_example :
    (result : Openings) × (challenge_to_opening 40 (7 ∷ []) ≡ some result)
    × (length result ≡ online_reps)
    × All EntryIsValid result
challenge_to_opening-returns_example = challenge_to_opening-returns 40 (7 ∷ []) enough_rounds
