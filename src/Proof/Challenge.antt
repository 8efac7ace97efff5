-- ===== src/Proof/Challenge.antt =====
-- proof/mod.rs: the challenge that a commitment is expanded to.
use reverie_ppr.Prelude.{
  ℕ, zero, suc, ◌%◌, ◌<◌, ◌≤◌, ◌≡◌, refl, arith, List, [], ◌∷◌, Option, none, some, Bool-cases, inl,
  inr, ltb, ◌==◌, if◌then◌else◌, length, All, true, false,
}
use reverie_ppr.Crypto.{Blake3}
use reverie_ppr.Crypto.Oracle.{Xof, RandomOracle, oracle_new, fill}
use reverie_ppr.Algebra.{players}
use reverie_ppr.Algebra.Z64.Bytes.{le_number}
use reverie_ppr.Proof.{Openings, online_reps, total_reps}

-- `CTX_CHALLENGE`, "random-oracle challenge".
abbrev pub ctx_challenge : List ℕ
ctx_challenge =
    114 ∷ 97 ∷ 110 ∷ 100 ∷ 111 ∷ 109 ∷ 45 ∷ 111 ∷ 114 ∷ 97 ∷ 99 ∷ 108 ∷ 101 ∷ 32 ∷ 99 ∷ 104 ∷ 97
    ∷ 108 ∷ 108 ∷ 101 ∷ 110 ∷ 103 ∷ 101 ∷ []

-- `HashMap::insert`
unfoldable pub insert : ℕ → ℕ → Openings → Openings
insert k v [] = (k, v) ∷ []
insert k v ((k', v') ∷ map) =
    let rest = insert k v map in if k' == k then (k, v) ∷ map else (k', v') ∷ rest

module _ ⦃b : Blake3⦄ ⦃x : Xof⦄ where
  unfoldable pub random_int : RandomOracle → ℕ → ℕ × RandomOracle
  unfolding fill
  random_int ro bound = let (buf, ro') = fill ro 16 in (le_number buf % bound, ro')

  -- The body of the loop: a repetition and a player are drawn, and inserted.
  unfoldable pub draw_opening : RandomOracle → Openings → Openings × RandomOracle
  unfolding random_int
  draw_opening ro online =
      let (rept_idx, ro1) = random_int ro total_reps in
      let (omit_idx, ro2) = random_int ro1 players in (insert rept_idx omit_idx online, ro2)

  -- `while online.len() < ONLINE_REPS`, for at most so many rounds.
  unfoldable pub draw_openings : ℕ → RandomOracle → Openings → Option Openings
  unfolding draw_opening
  draw_openings zero ro online = if ltb (length online) online_reps then none else some online
  draw_openings (suc n) ro online =
      let (more, ro') = draw_opening ro online in
      let rest = draw_openings n ro' more in
      if ltb (length online) online_reps then rest else some online

  unfoldable pub challenge_to_opening : ℕ → List ℕ → Option Openings
  unfolding draw_openings
  challenge_to_opening rounds challenge =
      draw_openings rounds (oracle_new ctx_challenge challenge) []

  -- What so many rounds draw when the number of openings is not looked at.
  abbrev pub drawn : ℕ → RandomOracle → Openings → Openings
  drawn zero ro online = online
  drawn (suc n) ro online = let (more, ro') = draw_opening ro online in drawn n ro' more

  abbrev pub EntryIsValid : ℕ × ℕ → Type 0
  EntryIsValid entry = (entry.0 < total_reps) × (entry.1 < players)

  length-insert : (k v : ℕ) (map : Openings) → length (insert k v map) ≤ suc (length map)
  unfolding insert
  length-insert k v [] = omega arith
  length-insert k v ((k', v') ∷ map) = elim (Bool-cases (k' == k)) [
    | inl same ↦ rw same (omega arith)
    | inr other ↦ rw other (omega (arith, length-insert k v map))
  ]

  insert-IsValid :
      (k v : ℕ) (map : Openings)
      → EntryIsValid (k, v)
      → All EntryIsValid map
      → All EntryIsValid (insert k v map)
  unfolding insert
  insert-IsValid k v [] h valid = (h, tt)
  insert-IsValid k v ((k', v') ∷ map) h valid = elim (Bool-cases (k' == k)) [
    | inl same ↦ rw same (h, valid.1)
    | inr other ↦ rw other (valid.0, insert-IsValid k v map h valid.1)
  ]

  pub drawn_valid :
      (ro : RandomOracle) (online : Openings)
      → All EntryIsValid online
      → All EntryIsValid (draw_opening ro online).0
  unfolding draw_opening random_int
  drawn_valid ro online valid = insert-IsValid _ _ online (omega arith, omega arith) valid

  pub drawn_length :
      (ro : RandomOracle) (online : Openings)
      → length (draw_opening ro online).0 ≤ suc (length online)
  unfolding draw_opening
  drawn_length ro online = length-insert _ _ online

  draw_openings-returns :
      (n : ℕ) (ro : RandomOracle) (online : Openings)
      → length online ≤ online_reps
      → All EntryIsValid online
      → online_reps ≤ length (drawn n ro online)
      → (result : Openings) × (draw_openings n ro online ≡ some result)
        × (length result ≡ online_reps)
        × All EntryIsValid result
  unfolding draw_openings
  draw_openings-returns zero ro online room valid enough =
      (online, rw (full) refl, omega (arith, room, enough), valid)
    where
      full : ltb (length online) online_reps ≡ false
      full = ground (arith, enough)
  draw_openings-returns (suc n) ro online room valid enough =
      elim (Bool-cases (ltb (length online) online_reps)) [
        | inl few ↦ rw few (
            draw_openings-returns n (draw_opening ro online).1 (draw_opening ro online).0
              (omega (arith, drawn_length ro online, less few)) (drawn_valid ro online valid)
              enough)
        | inr full ↦ rw full (online, refl, omega (arith, room, more full), valid)
      ]
    where
      less : ltb (length online) online_reps ≡ true → length online < online_reps
      less e = ground (arith, e)

      more : ltb (length online) online_reps ≡ false → online_reps ≤ length online
      more e = ground (arith, e)

  -- Where the keys drawn from the random oracle of a challenge in some number of rounds, the size
  -- not being looked at, are at least `online_reps` different ones, that many rounds are enough
  -- for the loop of `challenge_to_opening`: it returns exactly `online_reps` openings, each of a
  -- repetition below `total_reps` and with a player to omit.
  pub challenge_to_opening-returns :
      (rounds : ℕ) (challenge : List ℕ)
      → online_reps ≤ length (drawn rounds (oracle_new ctx_challenge challenge) [])
      → (result : Openings) × (challenge_to_opening rounds challenge ≡ some result)
        × (length result ≡ online_reps)
        × All EntryIsValid result
  unfolding challenge_to_opening
  challenge_to_opening-returns rounds challenge enough =
      draw_openings-returns rounds (oracle_new ctx_challenge challenge) [] (omega arith) tt enough
