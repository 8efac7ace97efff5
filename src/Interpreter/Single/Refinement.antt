-- ===== src/Interpreter/Single/Refinement.antt =====
-- `for op in circuit { instance.step(op) }` on the prover's side, against the circuit's meaning.
use reverie_ppr.Prelude.{
  map-replicate, >>=-eq-ok, ok_injective, subst, ℕ, zero, suc, ◌≡◌, refl, sym, ap, ◌∙◌, List, [],
  ◌∷◌, Outcome, ok, panic, ◌>>=◌, All, All-replicate, map_ok, map_ok-bind, replicate, Array,
}
use reverie_ppr.Crypto.{StreamCipher, Blake3, Key}
use reverie_ppr.Algebra.{Domain, Lanes, packed}
use reverie_ppr.Transcript.Prover.{prover, prover_new}
use reverie_ppr.Interpreter.{Operation}
use reverie_ppr.Interpreter.Plain.{plain_step, plain_run}
use reverie_ppr.Interpreter.Single.{step, run, instance_new, default_wire, value}
use reverie_ppr.Interpreter.Single.Value.{WireIsValid}
use reverie_ppr.Interpreter.Single.Prover.{
  Machine, view, draw, MachineIsValid, step-view, constant_value,
}
use reverie_ppr.Interpreter.Single.Valid.{step-IsValid}

module _ ⦃c : StreamCipher⦄ ⦃b : Blake3⦄ (D : Domain) where
  -- The draws of a run: at each gate, what the state's next mask hides.
  pub draws : Outcome (Machine D) → List (Operation D.Const) → ℕ → D.Recon
  draws r [] k = D.recon_zero
  draws (panic e) (op ∷ program) k = D.recon_zero
  draws (ok s) (op ∷ program) zero = draw D s
  draws (ok s) (op ∷ program) (suc k) = draws (step D (prover D) s op) program k

  -- What `Instance::new(ProverTranscript::new(witness, seeds), cells)` starts from.
  abbrev pub start : List D.Recon → Array Key packed → ℕ → Machine D
  start witness seeds cells = instance_new D (prover_new D witness seeds) cells

module _ ⦃c : StreamCipher⦄ ⦃b : Blake3⦄ (D : Domain) (L : Lanes D) where
  draws-step :
      (s s' : Machine D) (op : Operation D.Const) (program : List (Operation D.Const))
      → step D (prover D) s op ≡ ok s'
      → (λ k. draws D (ok s) (op ∷ program) (suc k)) ≡ draws D (ok s') program
  unfolding draws
  draws-step s s' op program e = ap (λ r. draws D r program) e

  first_step :
      (s : Machine D) (op : Operation D.Const) (program : List (Operation D.Const))
      → MachineIsValid D L s
      → plain_step D (draws D (ok s) (op ∷ program) 0) (view D s) op
        ≡ map_ok (view D) (step D (prover D) s op)
  unfolding draws
  first_step s op program valid = step-view D L s op valid

  -- A run from any valid state does what the circuit means, panics included.
  pub run-view :
      (program : List (Operation D.Const)) (s : Machine D)
      → MachineIsValid D L s
      → plain_run D (draws D (ok s) program) (view D s) program
        ≡ map_ok (view D) (run D (prover D) s program)
  unfolding plain_run run
  run-view [] s valid = refl
  run-view (op ∷ program) s valid =
      ap (λ r. r >>= λ v. plain_run D (λ k. draws D (ok s) (op ∷ program) (suc k)) v program)
        (first_step s op program valid)
      ∙ map_ok-bind (step D (prover D) s op) (view D) (view D) _ _ λ s' e.
        ap (λ d. plain_run D d (view D s') program) (draws-step s s' op program e)
        ∙ run-view program s' (step-IsValid D L s valid op e)

  pub run-IsValid :
      (program : List (Operation D.Const)) (s : Machine D) {u : Machine D}
      → MachineIsValid D L s
      → run D (prover D) s program ≡ ok u
      → MachineIsValid D L u
  unfolding run
  run-IsValid [] s valid e = subst (MachineIsValid D L) (ok_injective e) valid
  run-IsValid (op ∷ program) s valid e =
      let (m, e₁, e₂) = >>=-eq-ok (step D (prover D) s op) _ e in
      run-IsValid program m (step-IsValid D L s valid op e₁) e₂

  pub start-IsValid :
      (witness : List D.Recon) (seeds : Array Key packed) (cells : ℕ)
      → All L.IsValid witness
      → MachineIsValid D L (start D witness seeds cells)
  unfolding instance_new prover_new default_wire
  start-IsValid witness seeds cells valid = record {
    wires = All-replicate (WireIsValid D L) cells L.recon_zero-IsValid;
    transcript = record { witness = valid; corrections = tt; inputs = tt };
  }

  pub start-view :
      (witness : List D.Recon) (seeds : Array Key packed) (cells : ℕ)
      → record { values = replicate cells D.recon_zero; witness = witness }
        ≡ view D (start D witness seeds cells)
  unfolding instance_new prover_new default_wire
  start-view witness seeds cells i = record {
    values =
        (sym (
            map-replicate (value D) cells _
            ∙ ap (replicate cells) (constant_value D L D.recon_zero L.recon_zero-IsValid)))
          i;
    witness = witness;
  }

  -- The prover's machine implements the circuit in the clear: for every program, every witness of
  -- valid values, all seeds and every number of wires, running the program on the prover's
  -- transcript gives, seen through the wires' values and the rest of the witness, what the program
  -- gives on plain values, a random gate taking what its mask hides; it panics exactly where the
  -- plain run does, with the same panic.
  pub prover_refines :
      (program : List (Operation D.Const)) (witness : List D.Recon) (seeds : Array Key packed)
      (cells : ℕ)
      → All L.IsValid witness
      → plain_run D
          (draws D (ok (start D witness seeds cells)) program)
          (record { values = replicate cells D.recon_zero; witness = witness })
          program
        ≡ map_ok (view D) (run D (prover D) (start D witness seeds cells) program)
  prover_refines program witness seeds cells valid =
      ap (λ v. plain_run D (draws D (ok (start D witness seeds cells)) program) v program)
        (start-view witness seeds cells)
      ∙ run-view program (start D witness seeds cells) (start-IsValid witness seeds cells valid)
