-- ===== src/Replay/Step.antt =====
-- One gate of the circuit, on the prover's machine and on the verifier's.
use reverie_ppr.Prelude.{
  Feeds, ℕ, ◌≡◌, refl, sym, subst, Fin, List, [], ◌∷◌, append-nil, ok, ◌>>=◌, >>=-eq-ok,
  assert-eq-ok, ok_injective, read, AllPairs-read, witness_invalid, ◌&&◌,
}
use reverie_ppr.Crypto.{StreamCipher, Blake3}
use reverie_ppr.Algebra.{Domain, Lanes, players, packed}
use reverie_ppr.Transcript.{Wire}
use reverie_ppr.Transcript.Prover
use reverie_ppr.Transcript.Prover.{ProverTranscript, prover}
use reverie_ppr.Transcript.Online
use reverie_ppr.Transcript.Online.{OnlineTranscript, online}
use reverie_ppr.Interpreter.{
  Operation, input, random, add, sub, mul, add_const, sub_const, mul_const, assert_zero, constant,
}
use reverie_ppr.Interpreter.Single.{
  op_add, op_sub, op_add_const, op_sub_const, op_mul_const, assign, step,
}
use reverie_ppr.Replay.{WireFits, MessageFits}
use reverie_ppr.Replay.Gates.{
  op_add-Fits, op_sub-Fits, op_add_const-Fits, op_sub_const-Fits, op_mul_const-Fits,
  recon_zero-Fits, share_zero-Fits, into-Fits,
}
use reverie_ppr.Replay.Messages.{new_mask-Fits, reconstruct-Fits, input-Fits}
use reverie_ppr.Replay.Product.{nothing, Records}
use reverie_ppr.Replay.Machine.{
  ProverMachine, OnlineMachine, MachineFits, Follows, nothing_recorded, assign-Fits,
}
use reverie_ppr.Replay.Wired.{recorded, unary-Follows, binary-Follows, mul-Follows}

module _ ⦃c : StreamCipher⦄ ⦃b : Blake3⦄ (D : Domain) (t : ProverTranscript D) where
  records_input :
      (value : D.Recon) (witness : List D.Recon)
      → Records D t (Prover.record_input D t value witness).1 (record {
        recons = [];
        corrs = [];
        inputs = (Prover.record_input D t value witness).0.corr ∷ [];
      })
  unfolding Prover.record_input
  records_input value witness = record {
    recons = sym (append-nil _);
    corrs = sym (append-nil _);
    inputs = refl;
    seeds = refl;
  }

  pub records_reconstruct :
      (mask : D.Share)
      → Records D t
          (Prover.reconstruct D t mask).1
          (record { recons = mask ∷ []; corrs = []; inputs = [] })
  unfolding Prover.reconstruct
  records_reconstruct mask = record {
    recons = refl;
    corrs = sym (append-nil _);
    inputs = sym (append-nil _);
    seeds = refl;
  }

-- The verifier's machine after its check of a wire.
checked_machine :
    ⦃c : StreamCipher⦄ ⦃b : Blake3⦄ → (D : Domain) → OnlineMachine D → Wire D → OnlineMachine D
checked_machine D s w =
    let (sum, t) = Online.reconstruct D s.transcript w.mask in
    record s { transcript = record t { okay = t.okay && D.recon_is_zero (D.recon_add w.corr sum) } }

module _ ⦃c : StreamCipher⦄ ⦃b : Blake3⦄ (D : Domain) (L : Lanes D) (i j : Fin packed)
    (o : Fin players) (s : ProverMachine D) where
  input_from-Follows :
      (dst : ℕ) (witness : List D.Recon) {u : ProverMachine D}
      → (Prover.input_from D s.transcript witness >>= assign D s dst) ≡ ok u
      → Follows D L i j o s u (λ s'. step D (online D) s' (input dst))
  unfolding step Prover.input_from
  input_from-Follows dst [] e = cc
  input_from-Follows dst (value ∷ witness) {u} e = record {
    said = record {
      recons = [];
      corrs = [];
      inputs = (Prover.record_input D s.transcript value witness).0.corr ∷ [];
    };
    records = recorded D L i j o s dst _ _ _ e (records_input D s.transcript value witness);
    replay = λ s' l fits covers.
        let (w', t', e₁, f, agree, inputs, recons, corrs) =
          input-Fits D L i j o s.transcript s'.transcript fits.transcript value witness l.inputs
            covers.inputs in
        rw e₁ (
          assign-Fits D L i j o s u s' dst _ w' _ t' l e fits.wires f agree (record {
            recons = subst (Feeds (MessageFits D L i j o) l.recons) (sym recons) covers.recons;
            corrs = subst (Feeds _ l.corrs) (sym corrs) covers.corrs;
            inputs = inputs;
          }));
  }

  check-Follows :
      (src : ℕ) {u : ProverMachine D}
      → step D (prover D) s (assert_zero src) ≡ ok u
      → Follows D L i j o s u (λ s'. step D (online D) s' (assert_zero src))
  unfolding step Prover.zero_check Online.zero_check checked_machine
  check-Follows src {u} e =
      let (w, e₁, e₂) = >>=-eq-ok (read s.wires src) _ e in
      let checked = ok_injective (
        assert-eq-ok
          (D.recon_is_zero (D.recon_add w.corr (Prover.reconstruct D s.transcript w.mask).0))
          witness_invalid (Prover.reconstruct D s.transcript w.mask).1
          (λ t. ok (record s { transcript = t })) e₂) in
      record {
        said = record { recons = w.mask ∷ []; corrs = []; inputs = [] };
        records =
            subst
              (λ m.
                Records D s.transcript m.transcript
                  (record { recons = w.mask ∷ []; corrs = []; inputs = [] }))
              checked (records_reconstruct D s.transcript w.mask);
        replay = λ s' l fits covers.
            let (w', e₃, f) =
              AllPairs-read (WireFits D L i j o) s.wires s'.wires src fits.wires e₁ in
            let (sum, agree, recons, corrs, inputs) =
              reconstruct-Fits D L i j o s.transcript s'.transcript fits.transcript w.mask w'.mask
                l.recons f.mask covers.recons in
            record {
              after = checked_machine D s' w';
              returns = rw e₃;
              fits =
                  subst (λ m. MachineFits D L i j o m (checked_machine D s' w')) checked
                    (record {
                      transcript = record {
                        gens = agree.gens;
                        online = agree.online;
                        preprocess = agree.preprocess;
                      };
                      wires = fits.wires;
                    });
              covers = record {
                recons = recons;
                corrs = subst (Feeds _ l.corrs) (sym corrs) covers.corrs;
                inputs = subst (Feeds _ l.inputs) (sym inputs) covers.inputs;
              };
            };
      }

  random-Follows :
      (dst : ℕ) {u : ProverMachine D}
      → step D (prover D) s (random dst) ≡ ok u
      → Follows D L i j o s u (λ s'. step D (online D) s' (random dst))
  unfolding step Prover.new_mask Online.new_mask
  random-Follows dst {u} e = record {
    said = nothing D;
    records = recorded D L i j o s dst _ _ (nothing D) e (record {
      recons = sym (append-nil _);
      corrs = sym (append-nil _);
      inputs = sym (append-nil _);
      seeds = refl;
    });
    replay = λ s' l fits covers.
        let (mask, agree) = new_mask-Fits D L i j o s.transcript s'.transcript fits.transcript in
        assign-Fits D L i j o s u s' dst _ _ _ _ l e fits.wires
          (record { mask = mask; corr = recon_zero-Fits D L i j o }) agree
          (record { recons = covers.recons; corrs = covers.corrs; inputs = covers.inputs });
  }

  constant-Follows :
      (dst : ℕ) (k : D.Const) {u : ProverMachine D}
      → step D (prover D) s (constant dst k) ≡ ok u
      → Follows D L i j o s u (λ s'. step D (online D) s' (constant dst k))
  unfolding step
  constant-Follows dst k {u} e = record {
    said = nothing D;
    records =
        recorded D L i j o s dst _ s.transcript (nothing D) e
          (nothing_recorded D L i j o s.transcript);
    replay = λ s' l fits covers.
        assign-Fits D L i j o s u s' dst _ _ s.transcript s'.transcript l e fits.wires
          (record { mask = share_zero-Fits D L i j o; corr = into-Fits D L i j o k })
          fits.transcript covers;
  }

  -- Every gate that the prover executes is replayed.
  pub step-Follows :
      (op : Operation D.Const) {u : ProverMachine D}
      → step D (prover D) s op ≡ ok u
      → Follows D L i j o s u (λ s'. step D (online D) s' op)
  unfolding step Prover.input
  step-Follows (input dst) e = input_from-Follows dst s.transcript.witness e
  step-Follows (add dst src1 src2) e =
      binary-Follows D L i j o s dst src1 src2 (op_add D) (op_add-Fits D L i j o) e
  step-Follows (sub dst src1 src2) e =
      binary-Follows D L i j o s dst src1 src2 (op_sub D) (op_sub-Fits D L i j o) e
  step-Follows (mul dst src1 src2) e = mul-Follows D L i j o s dst src1 src2 e
  step-Follows (add_const dst src k) e =
      unary-Follows D L i j o s dst src (λ w. op_add_const D w (D.into k))
        (λ w w' f. op_add_const-Fits D L i j o w w' k f) e
  step-Follows (sub_const dst src k) e =
      unary-Follows D L i j o s dst src (λ w. op_sub_const D w (D.into k))
        (λ w w' f. op_sub_const-Fits D L i j o w w' k f) e
  step-Follows (mul_const dst src k) e =
      unary-Follows D L i j o s dst src (λ w. op_mul_const D w (D.into k))
        (λ w w' f. op_mul_const-Fits D L i j o w w' k f) e
  step-Follows (assert_zero src) e = check-Follows src e
  step-Follows (random dst) e = random-Follows dst e
  step-Follows (constant dst k) e = constant-Follows dst k e
