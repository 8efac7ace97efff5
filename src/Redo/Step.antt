-- ===== src/Redo/Step.antt =====
-- One gate on both machines.
use reverie_ppr.Prelude.{
  ℕ, ◌≡◌, sym, ◌∙◌, subst, fun_ext, Fin, Array, List, [], ◌∷◌, ok, ◌>>=◌, >>=-eq-ok, ok_injective,
  assert-eq-ok, witness_invalid, read, write, AllPairs-read, AllPairs-write,
}
use reverie_ppr.Crypto.{StreamCipher, Blake3}
use reverie_ppr.Algebra.{Domain, Lanes, packed}
use reverie_ppr.Generator.Redo.{next-Redoes}
use reverie_ppr.Transcript.{Wire}
use reverie_ppr.Transcript.Prover
use reverie_ppr.Transcript.Prover.{ProverTranscript, prover}
use reverie_ppr.Transcript.Preprocess
use reverie_ppr.Transcript.Preprocess.{PreprocessTranscript, preprocess}
use reverie_ppr.Interpreter.{
  Operation, input, random, add, sub, mul, add_const, sub_const, mul_const, assert_zero, constant,
}
use reverie_ppr.Interpreter.Single.{
  op_add, op_sub, op_mul, op_add_const, op_sub_const, op_mul_const, assign, step,
}
use reverie_ppr.Interpreter.Single.Prover.{Machine}
use reverie_ppr.Redo.{PreprocessMachine, SameMask, Follows, MachineFollows, Redone}
use reverie_ppr.Redo.Gates.{
  share_add-Same, share_sub-Same, share_mul-Same, new_mask-Follows, op_mul-Follows,
  reconstruct-Follows,
}

module _ ⦃c : StreamCipher⦄ ⦃b : Blake3⦄ (D : Domain) (L : Lanes D) (i j : Fin packed)
    (comms : Array b.Digest packed) (s u : Machine D) (s' : PreprocessMachine D)
    (m : MachineFollows D L i j comms s s') where
  assign-Redone :
      (dst : ℕ) (w w' : Wire D) (t : ProverTranscript D) (t' : PreprocessTranscript D)
      → SameMask D L i j comms w w'
      → Follows D L i j comms t t'
      → assign D s dst (w, t) ≡ ok u
      → Redone D L i j comms u (assign D s' dst (w', t'))
  unfolding assign
  assign-Redone dst w w' t t' f g e =
      let (zs, e₁, e₂) = >>=-eq-ok (write s.wires dst w) _ e in
      let (us, e₃, wires) =
        AllPairs-write (SameMask D L i j comms) s.wires s'.wires dst w w' f m.wires e₁ in
      (
        record { transcript = t'; wires = us },
        rw e₃,
        subst (λ x. MachineFollows D L i j comms x (record { transcript = t'; wires = us }))
            (ok_injective e₂) (record { transcript = g; wires = wires }),
      )

  unary-Redone :
      (dst src : ℕ) (op : Wire D → Wire D)
      → ((w w' : Wire D) → SameMask D L i j comms w w' → SameMask D L i j comms (op w) (op w'))
      → (read s.wires src >>= λ w. assign D s dst (op w, s.transcript)) ≡ ok u
      → Redone D L i j comms u (read s'.wires src >>= λ w. assign D s' dst (op w, s'.transcript))
  unary-Redone dst src op h e =
      let (w, e₁, e₂) = >>=-eq-ok (read s.wires src) _ e in
      let (w', e₃, f) = AllPairs-read (SameMask D L i j comms) s.wires s'.wires src m.wires e₁ in
      rw e₃ (assign-Redone dst (op w) (op w') s.transcript s'.transcript (h w w' f) m.transcript e₂)

  binary-Redone :
      (dst src1 src2 : ℕ) (op : Wire D → Wire D → Wire D × ProverTranscript D)
      (op' : Wire D → Wire D → Wire D × PreprocessTranscript D)
      → ((w v w' v' : Wire D)
          → SameMask D L i j comms w w'
          → SameMask D L i j comms v v'
          → SameMask D L i j comms (op w v).0 (op' w' v').0
            × Follows D L i j comms (op w v).1 (op' w' v').1)
      → (read s.wires src1 >>= λ w. read s.wires src2 >>= λ v. assign D s dst (op w v)) ≡ ok u
      → Redone D L i j comms u
          (read s'.wires src1 >>= λ w. read s'.wires src2 >>= λ v. assign D s' dst (op' w v))
  binary-Redone dst src1 src2 op op' h e =
      let (w, e₁, e₂) = >>=-eq-ok (read s.wires src1) _ e in
      let (v, e₃, e₄) = >>=-eq-ok (read s.wires src2) _ e₂ in
      let (w', e₅, f) = AllPairs-read (SameMask D L i j comms) s.wires s'.wires src1 m.wires e₁ in
      let (v', e₆, g) = AllPairs-read (SameMask D L i j comms) s.wires s'.wires src2 m.wires e₃ in
      let (same, follows) = h w v w' v' f g in
      rw (e₅, e₆) (assign-Redone dst _ _ _ _ same follows e₄)

  input-Redone :
      (dst : ℕ) (witness : List D.Recon)
      → (Prover.input_from D s.transcript witness >>= assign D s dst) ≡ ok u
      → Redone D L i j comms u (step D (preprocess D) s' (input dst))
  unfolding step Prover.input_from Prover.record_input Preprocess.input
  input-Redone dst [] e = cc
  input-Redone dst (value ∷ witness) e =
      let (mask, gens) =
        next-Redoes D L i j s.transcript.share_gen s'.transcript.share_gen m.transcript.gens in
      assign-Redone dst _ _ _ _ (record { mask = mask })
        (record { gens = gens; preprocess = m.transcript.preprocess; kept = m.transcript.kept }) e

  check-Redone :
      (src : ℕ)
      → step D (prover D) s (assert_zero src) ≡ ok u
      → Redone D L i j comms u (step D (preprocess D) s' (assert_zero src))
  unfolding step Prover.zero_check Preprocess.zero_check Preprocess.reconstruct
  check-Redone src e =
      let (w, e₁, e₂) = >>=-eq-ok (read s.wires src) _ e in
      let (w', e₃, f) = AllPairs-read (SameMask D L i j comms) s.wires s'.wires src m.wires e₁ in
      let checked = ok_injective (
        assert-eq-ok
          (D.recon_is_zero (D.recon_add w.corr (Prover.reconstruct D s.transcript w.mask).0))
          witness_invalid (Prover.reconstruct D s.transcript w.mask).1
          (λ t. ok (record s { transcript = t })) e₂) in
      (
        record s' { transcript = s'.transcript },
        rw e₃,
        subst (λ x. MachineFollows D L i j comms x (record s' { transcript = s'.transcript }))
            checked
            (record {
              transcript =
                  reconstruct-Follows D L i j comms s.transcript s'.transcript m.transcript w.mask;
              wires = m.wires;
            }),
      )

  pub step-Redone :
      (op : Operation D.Const)
      → step D (prover D) s op ≡ ok u
      → Redone D L i j comms u (step D (preprocess D) s' op)
  unfolding step op_add op_sub op_add_const op_sub_const op_mul_const Prover.input
  step-Redone (input dst) e = input-Redone dst s.transcript.witness e
  step-Redone (add dst src1 src2) e =
      binary-Redone dst src1 src2 (λ w v. (op_add D w v, s.transcript))
        (λ w v. (op_add D w v, s'.transcript))
        (λ w v w' v' f g.
          (record { mask = share_add-Same D L i j _ _ _ _ f.mask g.mask }, m.transcript))
        e
  step-Redone (sub dst src1 src2) e =
      binary-Redone dst src1 src2 (λ w v. (op_sub D w v, s.transcript))
        (λ w v. (op_sub D w v, s'.transcript))
        (λ w v w' v' f g.
          (record { mask = share_sub-Same D L i j _ _ _ _ f.mask g.mask }, m.transcript))
        e
  step-Redone (mul dst src1 src2) e =
      binary-Redone dst src1 src2 (op_mul D (prover D) s.transcript)
        (op_mul D (preprocess D) s'.transcript)
        (λ w v w' v' f g.
          op_mul-Follows D L i j comms s.transcript s'.transcript w v w' v' m.transcript f g)
        e
  step-Redone (add_const dst src k) e =
      unary-Redone dst src (λ w. op_add_const D w (D.into k)) (λ w w' f. record { mask = f.mask }) e
  step-Redone (sub_const dst src k) e =
      unary-Redone dst src (λ w. op_sub_const D w (D.into k)) (λ w w' f. record { mask = f.mask }) e
  step-Redone (mul_const dst src k) e =
      unary-Redone dst src (λ w. op_mul_const D w (D.into k))
        (λ w w' f. record { mask = share_mul-Same D L i j w.mask w'.mask k f.mask }) e
  step-Redone (assert_zero src) e = check-Redone src e
  step-Redone (random dst) e =
      let (mask, follows) =
        new_mask-Follows D L i j comms s.transcript s'.transcript m.transcript in
      assign-Redone dst _ _ _ _ (record { mask = mask }) follows e
  step-Redone (constant dst k) e =
      assign-Redone dst _ _ s.transcript s'.transcript
        (record { mask = fun_ext λ p. L.share_zero-lane j p ∙ sym (L.share_zero-lane i p) })
        m.transcript e
