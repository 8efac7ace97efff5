-- ===== src/Proof/Assembled.antt =====
-- proof/mod.rs: what `challenge_to_opening` draws names each repetition once, and what `Proof::new`
-- makes of it.
use reverie_ppr.Prelude.{
  ℕ, zero, suc, ◌<◌, ◌≤◌, ◌≡◌, ◌==◌, refl, sym, ◌∙◌, ap, ap₂, arith, Bool, true, false, ◌&&◌, ◌||◌,
  not, Bool-cases, inl, inr, List, [], ◌∷◌, length, Option, none, some, Array, ltb, if◌then◌else◌,
  All, subst,
}
use reverie_ppr.Crypto.{StreamCipher, Blake3}
use reverie_ppr.Algebra.{Domain, players, packed}
use reverie_ppr.Transcript.Prover.{ProverTranscript}
use reverie_ppr.Proof.{Openings, online_reps, total_reps, packed_reps, contains_key, check_format}
use reverie_ppr.Crypto.Oracle.{Xof, RandomOracle}
use reverie_ppr.Algebra.Z64.Domain.{domain_z64}
use reverie_ppr.Algebra.Gf2.Laws.{domain_gf2}
use reverie_ppr.Algebra.Gf2.Boolean.{and_left, and_right}
use reverie_ppr.Proof.Challenge.{
  insert, EntryIsValid, draw_opening, draw_openings, drawn_valid, drawn_length,
  challenge_to_opening,
}
use reverie_ppr.Proof.Prove.{open_all}
use reverie_ppr.Prelude.{ok, >>=-eq-ok, ok_injective}
use reverie_ppr.Word.{U64}
use reverie_ppr.Crypto.{Key}
use reverie_ppr.Interpreter.Combine.{CombineOperation}
use reverie_ppr.Proof.Format.{distinct, contains_key-cons, open_all-check_format}
use reverie_ppr.Proof.Prove.{Proof, Executed, execute_all, assemble, prove}

contains_key-insert :
    (k v : ℕ) (opened : Openings) (x : ℕ)
    → contains_key (insert k v opened) x ≡ ((k == x) || contains_key opened x)
unfolding insert
contains_key-insert k v [] x = contains_key-cons k v [] x
contains_key-insert k v ((k', v') ∷ opened) x = elim (Bool-cases (k' == k)) [
  | inl same ↦
      let e : k' ≡ k = ground (arith, same) in
      rw same (
        contains_key-cons k v opened x
        ∙ again (k == x) (contains_key opened x)
        ∙ ap (λ b. (k == x) || b)
            (ap (λ m. (m == x) || contains_key opened x) (sym e)
              ∙ sym (contains_key-cons k' v' opened x)))
  | inr other ↦ rw other (
      contains_key-cons k' v' (insert k v opened) x
      ∙ ap (λ b. (k' == x) || b) (contains_key-insert k v opened x)
      ∙ or_left_comm (k' == x) (k == x) (contains_key opened x)
      ∙ ap (λ b. (k == x) || b) (sym (contains_key-cons k' v' opened x)))
]
  where
    again : (a b : Bool) → (a || b) ≡ (a || (a || b))
    again true b = refl
    again false b = refl

    or_left_comm : (a b c : Bool) → (a || (b || c)) ≡ (b || (a || c))
    or_left_comm true true c = refl
    or_left_comm true false c = refl
    or_left_comm false b c = refl

insert-distinct :
    (k v : ℕ) (opened : Openings) → distinct opened ≡ true → distinct (insert k v opened) ≡ true
unfolding insert
insert-distinct k v [] d = refl
insert-distinct k v ((k', v') ∷ opened) d = elim (Bool-cases (k' == k)) [
  | inl same ↦
      let e : k' ≡ k = ground (arith, same) in
      rw same (ap (λ m. not (contains_key opened m) && distinct opened) (sym e) ∙ d)
  | inr other ↦
      let apart : (k == k') ≡ false = ground (arith, other) in
      let new : contains_key (insert k v opened) k' ≡ contains_key opened k' =
        contains_key-insert k v opened k' ∙ ap (λ b. b || contains_key opened k') apart in
      let left : not (contains_key opened k') ≡ true = and_left _ (distinct opened) d in
      let d' : distinct opened ≡ true = and_right (not (contains_key opened k')) _ d in
      rw other (ap₂ ◌&&◌ (ap not new ∙ left) (insert-distinct k v opened d'))
]

-- What a challenge can be.
pub record IsChallenge (opened : Openings) : Type 0 where
  pub unique : distinct opened ≡ true
  pub entries : All (λ entry. (entry.0 < total_reps) × (entry.1 < players)) opened
  pub size : length opened ≡ online_reps

module _ ⦃b : Blake3⦄ ⦃x : Xof⦄ where
  draw_opening-distinct :
      (ro : RandomOracle) (opened : Openings)
      → distinct opened ≡ true
      → distinct (draw_opening ro opened).0 ≡ true
  unfolding draw_opening
  draw_opening-distinct ro opened d = insert-distinct _ _ opened d

  stopped :
      (opened : Openings) {result : Openings}
      → distinct opened ≡ true
      → All EntryIsValid opened
      → length opened ≤ online_reps
      → ltb (length opened) online_reps ≡ false
      → some opened ≡ some result
      → IsChallenge result
  stopped opened {result} d valid room full e =
      let same : opened ≡ result = cc in
      subst IsChallenge same (record {
        unique = d;
        entries = valid;
        size = omega (arith, room, enough (length opened) full);
      })
    where
      enough : (n : ℕ) → ltb n online_reps ≡ false → online_reps ≤ n
      enough n e = ground (arith, e)

  draw_openings-IsChallenge :
      (n : ℕ) (ro : RandomOracle) (opened : Openings) {result : Openings}
      → distinct opened ≡ true
      → All EntryIsValid opened
      → length opened ≤ online_reps
      → draw_openings n ro opened ≡ some result
      → IsChallenge result
  unfolding draw_openings
  draw_openings-IsChallenge zero ro opened d valid room e =
      elim (Bool-cases (ltb (length opened) online_reps)) [
        | inl few ↦
            let absent : Option.none ≡ some _ =
              sym (ap (λ b. if b then none else some opened) few) ∙ e in
            absurd (cc)
        | inr full ↦
            stopped opened d valid room full
              (sym (ap (λ b. if b then none else some opened) full) ∙ e)
      ]
  draw_openings-IsChallenge (suc n) ro opened d valid room e =
      let more = (draw_opening ro opened).0 in
      let ro' = (draw_opening ro opened).1 in
      elim (Bool-cases (ltb (length opened) online_reps)) [
        | inl few ↦
            draw_openings-IsChallenge n ro' more (draw_opening-distinct ro opened d)
              (drawn_valid ro opened valid) (omega (arith, drawn_length ro opened, less opened few))
              (sym (ap (λ b. if b then draw_openings n ro' more else some opened) few) ∙ e)
        | inr full ↦
            stopped opened d valid room full
              (sym (ap (λ b. if b then draw_openings n ro' more else some opened) full) ∙ e)
      ]
    where
      less :
          (opened : Openings) → ltb (length opened) online_reps ≡ true → length opened < online_reps
      less opened e = ground (arith, e)

  pub challenge_to_opening-IsChallenge :
      (rounds : ℕ) (comm : List ℕ) {opened : Openings}
      → challenge_to_opening rounds comm ≡ some opened
      → IsChallenge opened
  unfolding challenge_to_opening
  challenge_to_opening-IsChallenge rounds comm e =
      draw_openings-IsChallenge rounds _ [] refl tt (omega arith) e

pub some_injective {ℓ} : {A : Type ℓ} {a b : A} → some a ≡ some b → a ≡ b
some_injective h = cc

pub All-left :
    (opened : Openings)
    → All (λ entry. (entry.0 < total_reps) × (entry.1 < players)) opened
    → All (λ entry. entry.0 < total_reps) opened
All-left [] h = tt
All-left (entry ∷ opened) h = (h.0.0, All-left opened h.1)

pub All-right :
    (opened : Openings)
    → All (λ entry. (entry.0 < total_reps) × (entry.1 < players)) opened
    → All (λ entry. entry.1 < players) opened
All-right [] h = tt
All-right (entry ∷ opened) h = (h.0.1, All-right opened h.1)

module _ ⦃c : StreamCipher⦄ ⦃b : Blake3⦄ where
  pub open_all-IsChallenge :
      (D : Domain) (transcripts : Array (ProverTranscript D) packed_reps) (opened : Openings)
      → IsChallenge opened
      → check_format (open_all D transcripts opened) ≡ true
  open_all-IsChallenge D transcripts opened h =
      open_all-check_format D transcripts opened h.unique (All-left opened h.entries)
        (All-right opened h.entries) h.size

  module _ ⦃x : Xof⦄ where
    assembled :
        (comm : List ℕ) (reps : Array Executed packed_reps) (o : Option Openings) {proof : Proof}
        → ((opened : Openings) → o ≡ some opened → IsChallenge opened)
        → assemble comm reps o ≡ some proof
        → (check_format proof.gf2 ≡ true) × (check_format proof.z64 ≡ true)
    unfolding assemble
    assembled comm reps none h e = absurd (cc)
    assembled comm reps (some opened) h e =
        let challenge = h opened refl in
        subst (λ (p : Proof). (check_format p.gf2 ≡ true) × (check_format p.z64 ≡ true))
          (some_injective e)
          (
            open_all-IsChallenge domain_gf2 (λ i. (reps i).1) opened challenge,
            open_all-IsChallenge domain_z64 (λ i. (reps i).2) opened challenge,
          )

    -- A proof that `Proof::new` returns has the format that `Proof::verify` asks for, in both
    -- domains: 40 repetitions opened online and 216 by their seeds, whatever the commitment and the
    -- challenge that is drawn from it are.
    pub prove-check_format :
        (rounds : ℕ) (circuit : List CombineOperation) (wit_gf2 : List Bool) (wit_z64 : List U64)
        (counts : ℕ × ℕ) (keys : Array (Array Key packed) packed_reps) {proof : Proof}
        → prove rounds circuit wit_gf2 wit_z64 counts keys ≡ ok (some proof)
        → (check_format proof.gf2 ≡ true) × (check_format proof.z64 ≡ true)
    unfolding prove
    prove-check_format rounds circuit wit_gf2 wit_z64 counts keys e =
        let (reps, _, e') =
          >>=-eq-ok (execute_all circuit wit_gf2 wit_z64 counts.0 counts.1 packed_reps keys) _ e in
        assembled _ reps _ (λ opened drawn. challenge_to_opening-IsChallenge rounds _ drawn)
          (ok_injective e')
