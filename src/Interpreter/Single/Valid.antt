-- ===== src/Interpreter/Single/Valid.antt =====
-- Every gate of the prover's machine keeps wires, witness and records valid.
use reverie_ppr.Prelude.{
  ℕ, ◌≡◌, List, [], ◌∷◌, ok, ◌>>=◌, read, write, All, All-read, All-write, All-snoc, ok_injective,
  >>=-eq-ok, assert-eq-ok, witness_invalid, subst,
}
use reverie_ppr.Crypto.{StreamCipher, Blake3}
use reverie_ppr.Algebra.{Domain, Lanes}
use reverie_ppr.Generator.{next}
use reverie_ppr.Transcript.{Wire}
use reverie_ppr.Transcript.Prover
use reverie_ppr.Transcript.Prover.{ProverTranscript, prover}
use reverie_ppr.Interpreter.{
  Operation, input, random, add, sub, mul, add_const, sub_const, mul_const, assert_zero, constant,
}
use reverie_ppr.Interpreter.Single.{
  op_add, op_sub, op_mul, op_add_const, op_sub_const, op_mul_const, assign, step,
}
use reverie_ppr.Interpreter.Single.Product.{op_mul-IsValid}
use reverie_ppr.Interpreter.Single.Prover.{Machine, MachineIsValid, TranscriptIsValid}
use reverie_ppr.Interpreter.Single.Value.{
  WireIsValid, op_add-IsValid, op_sub-IsValid, op_add_const-IsValid, op_sub_const-IsValid,
  op_mul_const-IsValid,
}

module _ ⦃c : StreamCipher⦄ ⦃b : Blake3⦄ (D : Domain) (L : Lanes D) where
  -- Validity is kept by every gate that does not panic.
  module _ (s : Machine D) (valid : MachineIsValid D L s) where
    assign-IsValid :
        (dst : ℕ) (w : Wire D) (t : ProverTranscript D) {s' : Machine D}
        → WireIsValid D L w
        → TranscriptIsValid D L t
        → assign D s dst (w, t) ≡ ok s'
        → MachineIsValid D L s'
    unfolding assign
    assign-IsValid dst w t v u e =
        let (ws, e₁, e₂) = >>=-eq-ok (write s.wires dst w) _ e in
        subst (MachineIsValid D L) (ok_injective e₂) (record {
          wires = All-write (WireIsValid D L) s.wires dst w v valid.wires e₁;
          transcript = u;
        })

    unary-IsValid :
        (dst src : ℕ) (op : Wire D → Wire D) {s' : Machine D}
        → ((w : Wire D) → WireIsValid D L w → WireIsValid D L (op w))
        → (read s.wires src >>= λ w. assign D s dst (op w, s.transcript)) ≡ ok s'
        → MachineIsValid D L s'
    unary-IsValid dst src op h e =
        let (w, e₁, e₂) = >>=-eq-ok (read s.wires src) _ e in
        assign-IsValid dst (op w) s.transcript
          (h w (All-read (WireIsValid D L) s.wires src valid.wires e₁)) valid.transcript e₂

    binary-IsValid :
        (dst src1 src2 : ℕ) (op : Wire D → Wire D → Wire D × ProverTranscript D) {s' : Machine D}
        → ((w v : Wire D) → TranscriptIsValid D L (op w v).1)
        → ((w v : Wire D) → WireIsValid D L w → WireIsValid D L v → WireIsValid D L (op w v).0)
        → (read s.wires src1 >>= λ w. read s.wires src2 >>= λ v. assign D s dst (op w v)) ≡ ok s'
        → MachineIsValid D L s'
    binary-IsValid dst src1 src2 op keeps h e =
        let (w, e₁, e₂) = >>=-eq-ok (read s.wires src1) _ e in
        let (v, e₃, e₄) = >>=-eq-ok (read s.wires src2) _ e₂ in
        assign-IsValid dst (op w v).0 (op w v).1
          (h w v (All-read (WireIsValid D L) s.wires src1 valid.wires e₁)
            (All-read (WireIsValid D L) s.wires src2 valid.wires e₃))
          (keeps w v) e₄

    input-IsValid :
        (dst : ℕ) (witness : List D.Recon) {s' : Machine D}
        → All L.IsValid witness
        → (Prover.input_from D s.transcript witness >>= assign D s dst) ≡ ok s'
        → MachineIsValid D L s'
    unfolding Prover.input_from Prover.record_input
    input-IsValid dst [] v e = cc
    input-IsValid dst (x ∷ witness) v e =
        let corr_valid =
          L.recon_sub-IsValid x _ v.0 (L.reconstruct-IsValid (next D s.transcript.share_gen).0) in
        assign-IsValid dst _ _ corr_valid
          (record {
            witness = v.1;
            corrections = valid.transcript.corrections;
            inputs = All-snoc L.IsValid s.transcript.inputs _ valid.transcript.inputs corr_valid;
          })
          e

    check-IsValid :
        (w : Wire D) {s' : Machine D}
        → (Prover.zero_check D
              (Prover.reconstruct D s.transcript w.mask).1
              (D.recon_add w.corr (Prover.reconstruct D s.transcript w.mask).0)
            >>= λ t. ok (record s { transcript = t }))
          ≡ ok s'
        → MachineIsValid D L s'
    unfolding Prover.zero_check Prover.reconstruct
    check-IsValid w e =
        subst (MachineIsValid D L)
          (ok_injective (
            assert-eq-ok (D.recon_is_zero (D.recon_add w.corr (D.reconstruct w.mask)))
              witness_invalid _ _ e))
          (record {
            wires = valid.wires;
            transcript = record {
              witness = valid.transcript.witness;
              corrections = valid.transcript.corrections;
              inputs = valid.transcript.inputs;
            };
          })

    pub op_mul-TranscriptIsValid :
        (w v : Wire D) → TranscriptIsValid D L (op_mul D (prover D) s.transcript w v).1
    unfolding op_mul Prover.new_mask Prover.correction Prover.reconstruct
    op_mul-TranscriptIsValid w v = record {
      witness = valid.transcript.witness;
      corrections = All-snoc L.IsValid s.transcript.corrections _ valid.transcript.corrections (
          L.recon_sub-IsValid _ _
            (L.recon_mul-IsValid _ _ (L.reconstruct-IsValid _) (L.reconstruct-IsValid _))
            (L.reconstruct-IsValid _));
      inputs = valid.transcript.inputs;
    }

    pub new_mask-TranscriptIsValid : TranscriptIsValid D L (Prover.new_mask D s.transcript).1
    unfolding Prover.new_mask
    new_mask-TranscriptIsValid = record {
      witness = valid.transcript.witness;
      corrections = valid.transcript.corrections;
      inputs = valid.transcript.inputs;
    }

    -- From a prover's machine whose wires have valid corrections, and whose remaining witness,
    -- recorded corrections and recorded inputs are valid, every gate that does not panic leads to
    -- such a machine.
    pub step-IsValid :
        (op : Operation D.Const) {s' : Machine D}
        → step D (prover D) s op ≡ ok s'
        → MachineIsValid D L s'
    unfolding step Prover.input
    step-IsValid (input dst) e = input-IsValid dst s.transcript.witness valid.transcript.witness e
    step-IsValid (add dst src1 src2) e =
        binary-IsValid dst src1 src2 (λ w v. (op_add D w v, s.transcript)) (λ w v. valid.transcript)
          (op_add-IsValid D L) e
    step-IsValid (sub dst src1 src2) e =
        binary-IsValid dst src1 src2 (λ w v. (op_sub D w v, s.transcript)) (λ w v. valid.transcript)
          (op_sub-IsValid D L) e
    step-IsValid (mul dst src1 src2) e =
        binary-IsValid dst src1 src2 (op_mul D (prover D) s.transcript) op_mul-TranscriptIsValid
          (op_mul-IsValid D L s.transcript) e
    step-IsValid (add_const dst src k) e =
        unary-IsValid dst src (λ w. op_add_const D w (D.into k))
          (λ w v. op_add_const-IsValid D L w (D.into k) v (L.into-IsValid k)) e
    step-IsValid (sub_const dst src k) e =
        unary-IsValid dst src (λ w. op_sub_const D w (D.into k))
          (λ w v. op_sub_const-IsValid D L w (D.into k) v (L.into-IsValid k)) e
    step-IsValid (mul_const dst src k) e =
        unary-IsValid dst src (λ w. op_mul_const D w (D.into k))
          (λ w v. op_mul_const-IsValid D L w (D.into k) v (L.into-IsValid k)) e
    step-IsValid (assert_zero src) e =
        let (w, e₁, e₂) = >>=-eq-ok (read s.wires src) _ e in check-IsValid w e₂
    step-IsValid (random dst) e =
        assign-IsValid dst _ _ L.recon_zero-IsValid new_mask-TranscriptIsValid e
    step-IsValid (constant dst k) e =
        assign-IsValid dst _ s.transcript (L.into-IsValid k) valid.transcript e
