-- ===== src/Tests/Proofs.antt =====
-- The theorems about `Proof::new` and `Proof::verify` at inputs where their hypotheses hold.
use reverie_ppr.Prelude.{
  zero, suc, ◌≤◌, ◌<◌, arith, All, replicate, ℕ, ◌≡◌, refl, true, Bool, [], ◌∷◌, Option, none, some,
  Array, ok,
}
use reverie_ppr.Crypto.{StreamCipher, Blake3, Key}
use reverie_ppr.Crypto.Oracle.{Xof, oracle_new, fill}
use reverie_ppr.Proof.{check_format, Openings, total_reps}
use reverie_ppr.Proof.Challenge.{
  challenge_to_opening, draw_openings, draw_opening, random_int, insert,
}
use reverie_ppr.Proof.Prove.{Proof, prove, assemble, execute_all, execute, run_combined}
use reverie_ppr.Proof.Assembled.{IsChallenge, prove-check_format}
use reverie_ppr.Proof.Verify.{compare_hashes}
use reverie_ppr.Proof.Ordered.{compare_hashes-returns}
use reverie_ppr.Algebra.{players}
use reverie_ppr.Tests.Toy.{toy_cipher, toy_hash, toy_xof, key, returned}

instance abbrev cipher : StreamCipher
cipher = toy_cipher

instance abbrev hash : Blake3
hash = toy_hash

instance abbrev output : Xof
output = toy_xof

abbrev keys : Array (Array Key 8) 32
keys _ _ = key 7

abbrev or_else : Proof → Option Proof → Proof
or_else d none = d
or_else d (some p) = p

abbrev empty : Proof
empty = record {
  comm = [];
  gf2 = record { online = []; preprocessing = [] };
  z64 = record { online = []; preprocessing = [] };
}

abbrev proof : Proof
proof = or_else empty (returned none (prove 40 [] [] [] (0, 0) keys))

proved : prove 40 [] [] [] (0, 0) keys ≡ ok (some proof)
unfolding prove assemble execute_all execute run_combined challenge_to_opening draw_openings
    draw_opening random_int insert oracle_new fill
proved = refl

prove-check_format_example : (check_format proof.gf2 ≡ true) × (check_format proof.z64 ≡ true)
prove-check_format_example = prove-check_format 40 [] [] [] (0, 0) keys proved

-- The first 40 repetitions are opened, each without player 3.
abbrev opened_below : ℕ → Openings
opened_below zero = []
opened_below (suc n) = (n, 3) ∷ opened_below n

opened_below-entries :
    (n : ℕ) → n ≤ 256 → All (λ entry. (entry.0 < total_reps) × (entry.1 < players)) (opened_below n)
opened_below-entries zero h = tt
opened_below-entries (suc n) h = ((omega arith, omega arith), opened_below-entries n (omega arith))

forty : IsChallenge (opened_below 40)
forty = record { unique = refl; entries = opened_below-entries 40 (omega arith); size = refl }

compare_hashes-returns_example :
    (verdict : Bool) × (compare_hashes
        (1 ∷ [])
        (replicate 40 (2 ∷ []), replicate 216 (3 ∷ []))
        (some (opened_below 40))
      ≡ ok (some verdict))
compare_hashes-returns_example =
    compare_hashes-returns (1 ∷ []) (opened_below 40) (replicate 40 (2 ∷ []))
      (replicate 216 (3 ∷ [])) forty refl refl
