-- ===== src/Proof/Order.antt =====
-- The prover hands out the openings of both kinds in the order of the repetitions; the verifier
-- merges the hashes of both kinds again.
use reverie_ppr.Prelude.{
  ℕ, ◌+◌, ◌*◌, ◌<◌, ◌≡◌, refl, arith, List, [], ◌∷◌, ltb, ◌==◌, if◌then◌else◌, Bool-cases, inl, inr,
  length, Fin, val, ok, All,
}
use reverie_ppr.Algebra.{players, packed}
use reverie_ppr.Proof.{
  Openings, find, contains_key, unwrap_or, opening_to_packed, packed_reps, next_hash, pick_hash,
  order_hashes,
}

module _ {A : Type 0} where
  -- Of the repetitions from `i` on, those that are opened online, and the others.
  abbrev pub online_of : Openings → ℕ → List A → List A
  online_of opened i [] = []
  online_of opened i (x ∷ xs) =
      let rest = online_of opened (i + 1) xs in if contains_key opened i then x ∷ rest else rest

  abbrev pub preprocessing_of : Openings → ℕ → List A → List A
  preprocessing_of opened i [] = []
  preprocessing_of opened i (x ∷ xs) =
      let rest = preprocessing_of opened (i + 1) xs in
      if contains_key opened i then rest else x ∷ rest

  -- Let the hashes of consecutive repetitions be split into those of the repetitions that a
  -- challenge opens online and the others, each in order. Then the loop of `verify` over as many
  -- repetitions, from the same one on, does not panic and puts them back in their order.
  pub order_hashes-split :
      (opened : Openings) (i : ℕ) (hashes : List A)
      → order_hashes opened i
          (length hashes)
          (online_of opened i hashes)
          (preprocessing_of opened i hashes)
        ≡ ok hashes
  unfolding order_hashes pick_hash next_hash
  order_hashes-split opened i [] = refl
  order_hashes-split opened i (x ∷ hashes) = elim (Bool-cases (contains_key opened i)) [
    | inl chosen ↦ rw (chosen, order_hashes-split opened (i + 1) hashes)
    | inr hidden ↦ rw (hidden, order_hashes-split opened (i + 1) hashes)
  ]

module _ (opened : Openings) where
  omits_player :
      (map : Openings) (key : ℕ)
      → All (λ entry. entry.1 < players) map
      → ltb (unwrap_or players (find map key)) players ≡ contains_key map key
  omits_player [] key valid = refl
  omits_player ((k, v) ∷ map) key valid = elim (Bool-cases (k == key)) [
    | inl here ↦ rw here (ground (arith, valid.0))
    | inr later ↦ rw later (omits_player map key valid.1)
  ]

  -- Where a challenge names players only, `opening_to_packed` has a player to omit for repetition
  -- `j` of batch `i`, so that `extract` opens it online, exactly where the challenge contains the
  -- repetition, which is where `verify` takes an online hash.
  pub opening_to_packed-contains_key :
      All (λ entry. entry.1 < players) opened
      → (i : Fin packed_reps) (j : Fin packed)
      → ltb (opening_to_packed opened i j) players ≡ contains_key opened (val i * packed + val j)
  unfolding opening_to_packed
  opening_to_packed-contains_key valid i j = omits_player opened (val i * packed + val j) valid
