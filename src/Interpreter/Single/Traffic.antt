-- ===== src/Interpreter/Single/Traffic.antt =====
-- interpreter/single.rs on the prover's transcript: how much a gate records, which is what the
-- proof carries of it.
use reverie_ppr.Prelude.{
  ℕ, ◌+◌, ◌≡◌, ap, arith, List, [], ◌∷◌, length, length-append, ok, ◌>>=◌, >>=-eq-ok, ok_injective,
  assert-eq-ok, witness_invalid, read, write, subst,
}
use reverie_ppr.Crypto.{StreamCipher, Blake3}
use reverie_ppr.Algebra.{Domain}
use reverie_ppr.Transcript.{Wire}
use reverie_ppr.Transcript.Prover
use reverie_ppr.Transcript.Prover.{ProverTranscript, prover}
use reverie_ppr.Interpreter.{
  Operation, input, random, add, sub, mul, add_const, sub_const, mul_const, assert_zero, constant,
}
use reverie_ppr.Interpreter.Single.{
  op_add, op_sub, op_mul, op_add_const, op_sub_const, op_mul_const, assign, step,
}
use reverie_ppr.Interpreter.Single.Prover.{Machine}

-- How many shares are opened, and how many corrections of products and of inputs there are.
pub record Traffic : Type 0 where
  pub recons : ℕ
  pub corrs : ℕ
  pub inputs : ℕ

abbrev pub plus : Traffic → Traffic → Traffic
plus x y = record {
  recons = x.recons + y.recons;
  corrs = x.corrs + y.corrs;
  inputs = x.inputs + y.inputs;
}

abbrev pub no_traffic : Traffic
no_traffic = record { recons = 0; corrs = 0; inputs = 0 }

abbrev pub product_traffic : Traffic
product_traffic = record { recons = 1; corrs = 1; inputs = 0 }

abbrev pub opening_traffic : Traffic
opening_traffic = record { recons = 1; corrs = 0; inputs = 0 }

abbrev pub gate_traffic : {C : Type 0} → Operation C → Traffic
gate_traffic (input dst) = record { recons = 0; corrs = 0; inputs = 1 }
gate_traffic (mul dst src1 src2) = product_traffic
gate_traffic (assert_zero src) = opening_traffic
gate_traffic (random dst) = no_traffic
gate_traffic (add dst src1 src2) = no_traffic
gate_traffic (sub dst src1 src2) = no_traffic
gate_traffic (add_const dst src k) = no_traffic
gate_traffic (sub_const dst src k) = no_traffic
gate_traffic (mul_const dst src k) = no_traffic
gate_traffic (constant dst k) = no_traffic

module _ ⦃c : StreamCipher⦄ ⦃b : Blake3⦄ (D : Domain) where
  pub record Grows (q : Traffic) (t u : ProverTranscript D) : Type 0 where
    pub recons : length u.reconstructions ≡ length t.reconstructions + q.recons
    pub corrs : length u.corrections ≡ length t.corrections + q.corrs
    pub inputs : length u.inputs ≡ length t.inputs + q.inputs

  pub stays : (t : ProverTranscript D) → Grows no_traffic t t
  stays t = record { recons = omega arith; corrs = omega arith; inputs = omega arith }

  pub Grows-trans :
      (q r : Traffic) {t m u : ProverTranscript D}
      → Grows q t m
      → Grows r m u
      → Grows (plus q r) t u
  Grows-trans q r f g = record {
    recons = omega (arith, f.recons, g.recons);
    corrs = omega (arith, f.corrs, g.corrs);
    inputs = omega (arith, f.inputs, g.inputs);
  }

  pub new_mask-Grows : (t : ProverTranscript D) → Grows no_traffic t (Prover.new_mask D t).1
  unfolding Prover.new_mask
  new_mask-Grows t = record { recons = omega arith; corrs = omega arith; inputs = omega arith }

  pub reconstruct-Grows :
      (t : ProverTranscript D) (s : D.Share) → Grows opening_traffic t (Prover.reconstruct D t s).1
  unfolding Prover.reconstruct
  reconstruct-Grows t s = record {
    recons = length-append t.reconstructions (s ∷ []);
    corrs = omega arith;
    inputs = omega arith;
  }

  pub correction-Grows :
      (t : ProverTranscript D) (x : D.Recon)
      → Grows (record { recons = 0; corrs = 1; inputs = 0 }) t (Prover.correction D t x).1
  unfolding Prover.correction
  correction-Grows t x = record {
    recons = omega arith;
    corrs = length-append t.corrections (x ∷ []);
    inputs = omega arith;
  }

  pub op_mul-Grows :
      (t : ProverTranscript D) (w v : Wire D)
      → Grows product_traffic t (op_mul D (prover D) t w v).1
  unfolding op_mul Prover.new_mask Prover.correction Prover.reconstruct
  op_mul-Grows t w v = record {
    recons = length-append t.reconstructions _;
    corrs = length-append t.corrections _;
    inputs = omega arith;
  }

  module _ (s : Machine D) where
    assign-Grows :
        (q : Traffic) (dst : ℕ) (w : Wire D) (t : ProverTranscript D) {u : Machine D}
        → Grows q s.transcript t
        → assign D s dst (w, t) ≡ ok u
        → Grows q s.transcript u.transcript
    unfolding assign
    assign-Grows q dst w t g e =
        let (zs, e₁, e₂) = >>=-eq-ok (write s.wires dst w) _ e in
        subst (Grows q s.transcript) (ap (λ m. m.transcript) (ok_injective e₂)) g

    unary-Grows :
        (dst src : ℕ) (op : Wire D → Wire D) {u : Machine D}
        → (read s.wires src >>= λ w. assign D s dst (op w, s.transcript)) ≡ ok u
        → Grows no_traffic s.transcript u.transcript
    unary-Grows dst src op e =
        let (w, e₁, e₂) = >>=-eq-ok (read s.wires src) _ e in
        assign-Grows no_traffic dst (op w) s.transcript (stays s.transcript) e₂

    binary-Grows :
        (q : Traffic) (dst src1 src2 : ℕ) (op : Wire D → Wire D → Wire D × ProverTranscript D)
        {u : Machine D}
        → ((w v : Wire D) → Grows q s.transcript (op w v).1)
        → (read s.wires src1 >>= λ w. read s.wires src2 >>= λ v. assign D s dst (op w v)) ≡ ok u
        → Grows q s.transcript u.transcript
    binary-Grows q dst src1 src2 op g e =
        let (w, e₁, e₂) = >>=-eq-ok (read s.wires src1) _ e in
        let (v, e₃, e₄) = >>=-eq-ok (read s.wires src2) _ e₂ in
        assign-Grows q dst (op w v).0 (op w v).1 (g w v) e₄

    input-Grows :
        (dst : ℕ) (witness : List D.Recon) {u : Machine D}
        → (Prover.input_from D s.transcript witness >>= assign D s dst) ≡ ok u
        → Grows (record { recons = 0; corrs = 0; inputs = 1 }) s.transcript u.transcript
    unfolding Prover.input_from Prover.record_input
    input-Grows dst [] e = cc
    input-Grows dst (x ∷ witness) e =
        assign-Grows (record { recons = 0; corrs = 0; inputs = 1 }) dst _ _
          (record {
            recons = omega arith;
            corrs = omega arith;
            inputs = length-append s.transcript.inputs _;
          })
          e

    check-Grows :
        (w : Wire D) {u : Machine D}
        → (Prover.zero_check D
              (Prover.reconstruct D s.transcript w.mask).1
              (D.recon_add w.corr (Prover.reconstruct D s.transcript w.mask).0)
            >>= λ t. ok (record s { transcript = t }))
          ≡ ok u
        → Grows opening_traffic s.transcript u.transcript
    unfolding Prover.zero_check Prover.reconstruct
    check-Grows w e =
        subst (λ u. Grows opening_traffic s.transcript u.transcript)
          (ok_injective (
            assert-eq-ok (D.recon_is_zero (D.recon_add w.corr (D.reconstruct w.mask)))
              witness_invalid _ _ e))
          (record {
            recons = length-append s.transcript.reconstructions (w.mask ∷ []);
            corrs = omega arith;
            inputs = omega arith;
          })

    -- A gate that does not panic records what its kind does.
    pub step-Grows :
        (op : Operation D.Const) {u : Machine D}
        → step D (prover D) s op ≡ ok u
        → Grows (gate_traffic op) s.transcript u.transcript
    unfolding step Prover.input
    step-Grows (input dst) e = input-Grows dst s.transcript.witness e
    step-Grows (add dst src1 src2) e =
        binary-Grows no_traffic dst src1 src2 (λ w v. (op_add D w v, s.transcript))
          (λ _ _. stays s.transcript) e
    step-Grows (sub dst src1 src2) e =
        binary-Grows no_traffic dst src1 src2 (λ w v. (op_sub D w v, s.transcript))
          (λ _ _. stays s.transcript) e
    step-Grows (mul dst src1 src2) e =
        binary-Grows product_traffic dst src1 src2 (op_mul D (prover D) s.transcript)
          (op_mul-Grows s.transcript) e
    step-Grows (add_const dst src k) e = unary-Grows dst src (λ w. op_add_const D w (D.into k)) e
    step-Grows (sub_const dst src k) e = unary-Grows dst src (λ w. op_sub_const D w (D.into k)) e
    step-Grows (mul_const dst src k) e = unary-Grows dst src (λ w. op_mul_const D w (D.into k)) e
    step-Grows (assert_zero src) e =
        let (w, e₁, e₂) = >>=-eq-ok (read s.wires src) _ e in check-Grows w e₂
    step-Grows (random dst) e = assign-Grows no_traffic dst _ _ (new_mask-Grows s.transcript) e
    step-Grows (constant dst k) e = assign-Grows no_traffic dst _ _ (stays s.transcript) e
