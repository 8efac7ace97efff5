-- ===== src/Replay/Machine.antt =====
-- The verifier's machine replays the prover's: from fitting wires, and with the openings that
-- the prover recorded, every gate leads to fitting wires again.
use reverie_ppr.Prelude.{
  ℕ, refl, ◌≡◌, sym, subst, ap, Fin, append-nil, Outcome, ok, >>=-eq-ok, ok_injective, write,
  AllPairs, AllPairs-write,
}
use reverie_ppr.Crypto.{StreamCipher, Blake3}
use reverie_ppr.Algebra.{Domain, Lanes, players, packed}
use reverie_ppr.Transcript.{Wire}
use reverie_ppr.Transcript.Prover.{ProverTranscript}
use reverie_ppr.Transcript.Online.{OnlineTranscript}
use reverie_ppr.Interpreter.Single.{Instance, assign}
use reverie_ppr.Replay.{WireFits, Agrees}
use reverie_ppr.Replay.Product.{Log, join, nothing, Records, Covers}

module _ ⦃c : StreamCipher⦄ ⦃b : Blake3⦄ (D : Domain) where
  abbrev pub ProverMachine : Type 0
  ProverMachine = Instance D (ProverTranscript D)

  abbrev pub OnlineMachine : Type 0
  OnlineMachine = Instance D (OnlineTranscript D)

module _ ⦃c : StreamCipher⦄ ⦃b : Blake3⦄ (D : Domain) (L : Lanes D) (i j : Fin packed)
    (o : Fin players) where
  pub record MachineFits (s : ProverMachine D) (s' : OnlineMachine D) : Type 0 where
    pub transcript : Agrees D L i j o s.transcript s'.transcript
    pub wires : AllPairs (WireFits D L i j o) s.wires s'.wires

  -- The verifier's machine `s'` does `act` and ends fitting `u`, having used up `d`.
  pub record Replayed (u : ProverMachine D) (l : Log D) (result : Outcome (OnlineMachine D))
      : Type 0 where
    pub after : OnlineMachine D
    pub returns : result ≡ ok after
    pub fits : MachineFits u after
    pub covers : Covers D L i j o l after.transcript

  -- The prover went from `s` to `u`; whatever verifier's machine fits `s` and is given what the
  -- prover recorded does `act` without a panic and fits `u`.
  pub record Follows (s u : ProverMachine D) (act : OnlineMachine D → Outcome (OnlineMachine D))
      : Type 0 where
    pub said : Log D
    pub records : Records D s.transcript u.transcript said
    pub replay :
        (s' : OnlineMachine D) (l : Log D)
        → MachineFits s s'
        → Covers D L i j o (join D said l) s'.transcript
        → Replayed u l (act s')

  pub nothing_recorded : (t : ProverTranscript D) → Records D t t (nothing D)
  nothing_recorded t = record {
    recons = sym (append-nil _);
    corrs = sym (append-nil _);
    inputs = sym (append-nil _);
    seeds = refl;
  }

  -- Both machines write fitting wires.
  pub assign-Fits :
      (s u : ProverMachine D) (s' : OnlineMachine D) (dst : ℕ) (w : Wire D) (w' : Wire D)
      (t : ProverTranscript D) (t' : OnlineTranscript D) (l : Log D)
      → assign D s dst (w, t) ≡ ok u
      → AllPairs (WireFits D L i j o) s.wires s'.wires
      → WireFits D L i j o w w'
      → Agrees D L i j o t t'
      → Covers D L i j o l t'
      → Replayed u l (assign D s' dst (w', t'))
  unfolding assign
  assign-Fits s u s' dst w w' t t' l e wires f agree covers =
      let (zs, e₁, e₂) = >>=-eq-ok (write s.wires dst w) _ e in
      let (us, e₃, fits) =
        AllPairs-write (WireFits D L i j o) s.wires s'.wires dst w w' f wires e₁ in
      record {
        after = record { transcript = t'; wires = us };
        returns = rw e₃;
        fits =
            subst (λ m. MachineFits m (record { transcript = t'; wires = us })) (ok_injective e₂)
              (record { transcript = agree; wires = fits });
        covers = covers;
      }

  pub assigned :
      (s : ProverMachine D) (dst : ℕ) (w : Wire D) (t : ProverTranscript D) {u : ProverMachine D}
      → assign D s dst (w, t) ≡ ok u
      → u.transcript ≡ t
  unfolding assign
  assigned s dst w t e =
      let (zs, e₁, e₂) = >>=-eq-ok (write s.wires dst w) _ e in
      sym (ap (λ m. m.transcript) (ok_injective e₂))
