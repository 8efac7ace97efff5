-- ===== src/Interpreter/Single/Prover.antt =====
-- The prover's machine computes what the circuit means.
use reverie_ppr.Prelude.{
  ℕ, ◌≡◌, refl, sym, ap, ◌∙◌, List, [], ◌∷◌, map, ok, panic, ◌>>=◌, read, write, All, All-read,
  read-map, write-map, map_ok, map_ok-bind, if◌then◌else◌, witness_invalid, Bool-cases, inl, inr,
}
use reverie_ppr.Ring.{add-zero}
use reverie_ppr.Ring.Sharing.{add-sub_cancel}
use reverie_ppr.Crypto.{StreamCipher, Blake3}
use reverie_ppr.Algebra.{Domain, Lanes}
use reverie_ppr.Transcript.{Wire}
use reverie_ppr.Transcript.Prover
use reverie_ppr.Transcript.Prover.{ProverTranscript, prover}
use reverie_ppr.Interpreter.{
  Operation, input, random, add, sub, mul, add_const, sub_const, mul_const, assert_zero, constant,
}
use reverie_ppr.Interpreter.Plain.{Store, put, take_input, plain_step}
use reverie_ppr.Interpreter.Single.{
  value, op_add, op_sub, op_mul, op_add_const, op_sub_const, op_mul_const, Instance, assign, step,
}
use reverie_ppr.Interpreter.Single.Product.{value-op_mul}
use reverie_ppr.Interpreter.Single.Value.{
  secret, secret_zero, WireIsValid, value-lane, value-IsValid, value-op_add, value-op_sub,
  value-op_add_const, value-op_sub_const, value-op_mul_const,
}

module _ ⦃c : StreamCipher⦄ ⦃b : Blake3⦄ (D : Domain) where
  abbrev pub Machine : Type 0
  Machine = Instance D (ProverTranscript D)

  -- The wires' values and the rest of the witness.
  abbrev pub view : Machine → Store D
  view s = record { values = map (value D) s.wires; witness = s.transcript.witness }

  -- The value that a random gate would take in a state: the next mask's.
  abbrev pub draw : Machine → D.Recon
  draw s = D.reconstruct (Prover.new_mask D s.transcript).0

  pub witness-new_mask :
      (s : Machine)
      → view s ≡ record {
        values = map (value D) s.wires;
        witness = (Prover.new_mask D s.transcript).1.witness;
      }
  unfolding Prover.new_mask
  witness-new_mask s = refl

  pub witness-op_mul :
      (t : ProverTranscript D) (w v : Wire D) → (op_mul D (prover D) t w v).1.witness ≡ t.witness
  unfolding op_mul Prover.new_mask Prover.correction Prover.reconstruct
  witness-op_mul t w v = refl

module _ ⦃c : StreamCipher⦄ ⦃b : Blake3⦄ (D : Domain) (L : Lanes D) where
  open L use {recon_lane, IsValid}

  -- What is left of the witness and what was recorded are values that the code produces.
  pub record TranscriptIsValid (t : ProverTranscript D) : Type 0 where
    pub witness : All IsValid t.witness
    pub corrections : All IsValid t.corrections
    pub inputs : All IsValid t.inputs

  pub record MachineIsValid (s : Machine D) : Type 0 where
    pub wires : All (WireIsValid D L) s.wires
    pub transcript : TranscriptIsValid s.transcript

  module _ (mask : D.Share) where
    -- A wire with a fresh mask and no correction holds what the mask hides.
    random_value : value D (record { mask = mask; corr = D.recon_zero }) ≡ D.reconstruct mask
    random_value =
        L.recon_ext _ _ (value-IsValid D L _ L.recon_zero-IsValid) (L.reconstruct-IsValid mask) λ i.
          value-lane D L _ i
          ∙ ap (L.ring.add (secret D L mask i)) (L.recon_zero-lane i)
          ∙ add-zero ⦃s = L.ring⦄ _
          ∙ sym (L.reconstruct-lane mask i)

  pub constant_value :
      (v : D.Recon) → IsValid v → value D (record { mask = D.share_zero; corr = v }) ≡ v
  constant_value v valid = L.recon_ext _ _ (value-IsValid D L _ valid) valid λ i.
      value-lane D L _ i
      ∙ ap (λ t. L.ring.add t (recon_lane v i)) (secret_zero D L i)
      ∙ L.ring.zero-add _

  input_value :
      (v : D.Recon) (mask : D.Share)
      → IsValid v
      → value D (record { mask = mask; corr = D.recon_sub v (D.reconstruct mask) }) ≡ v
  input_value v mask valid =
      L.recon_ext _ _
        (value-IsValid D L _ (L.recon_sub-IsValid _ _ valid (L.reconstruct-IsValid mask))) valid
        λ i.
          value-lane D L _ i
          ∙ ap (L.ring.add (secret D L mask i)) (
              L.recon_sub-lane _ _ i ∙ ap (L.ring.sub (recon_lane v i)) (L.reconstruct-lane mask i))
          ∙ add-sub_cancel ⦃r = L.ring⦄ _ _

  put-view :
      (s : Machine D) (dst : ℕ) (w : Wire D) (t : ProverTranscript D) (v : D.Recon)
      (values : Store D)
      → values ≡ record { values = map (value D) s.wires; witness = t.witness }
      → value D w ≡ v
      → put D values dst v ≡ map_ok (view D) (assign D s dst (w, t))
  unfolding put assign
  put-view s dst w t v values p q =
      rw (p, ← q, write-map (value D) s.wires dst w)
        (map_ok-bind (write s.wires dst w) _ (view D) _ _ λ ws e. refl)

  unary-view :
      (s : Machine D) (dst src : ℕ) (f : D.Recon → D.Recon) (op : Wire D → Wire D)
      → MachineIsValid s
      → ((w : Wire D) → WireIsValid D L w → value D (op w) ≡ f (value D w))
      → (read (view D s).values src >>= λ v. put D (view D s) dst (f v))
        ≡ map_ok (view D) (read s.wires src >>= λ w. assign D s dst (op w, s.transcript))
  unary-view s dst src f op valid h = rw (read-map (value D) s.wires src) (
      map_ok-bind (read s.wires src) (value D) (view D) _ _ λ w e.
        put-view s dst (op w) s.transcript (f (value D w)) (view D s) refl
          (h w (All-read (WireIsValid D L) s.wires src valid.wires e)))

  binary-view :
      (s : Machine D) (dst src1 src2 : ℕ) (f : D.Recon → D.Recon → D.Recon)
      (op : Wire D → Wire D → Wire D × ProverTranscript D)
      → MachineIsValid s
      → ((w v : Wire D) → (op w v).1.witness ≡ s.transcript.witness)
      → ((w v : Wire D)
          → WireIsValid D L w
          → WireIsValid D L v
          → value D (op w v).0 ≡ f (value D w) (value D v))
      → (read (view D s).values src1 >>= λ v.
          read (view D s).values src2 >>= λ w. put D (view D s) dst (f v w))
        ≡ map_ok
            (view D)
            (read s.wires src1 >>= λ v. read s.wires src2 >>= λ w. assign D s dst (op v w))
  binary-view s dst src1 src2 f op valid same h = rw (read-map (value D) s.wires src1) (
      map_ok-bind (read s.wires src1) (value D) (view D) _ _ λ w e.
        rw (read-map (value D) s.wires src2) (
          map_ok-bind (read s.wires src2) (value D) (view D) _ _ λ v e'.
            put-view s dst (op w v).0 (op w v).1 (f (value D w) (value D v)) (view D s)
              (rw (same w v))
              (h w v (All-read (WireIsValid D L) s.wires src1 valid.wires e)
                (All-read (WireIsValid D L) s.wires src2 valid.wires e'))))

  input-view :
      (s : Machine D) (dst : ℕ) (witness : List D.Recon)
      → s.transcript.witness ≡ witness
      → All IsValid witness
      → take_input D (view D s) dst witness
        ≡ map_ok (view D) (Prover.input_from D s.transcript witness >>= assign D s dst)
  unfolding take_input Prover.input_from Prover.record_input Prover.new_mask
  input-view s dst [] p valid = refl
  input-view s dst (v ∷ witness) p valid =
      put-view s dst (Prover.record_input D s.transcript v witness).0
        (Prover.record_input D s.transcript v witness).1 v _ refl
        (input_value v (Prover.new_mask D s.transcript).0 valid.0)

  corr-value :
      (w : Wire D) → WireIsValid D L w → D.recon_add w.corr (D.reconstruct w.mask) ≡ value D w
  unfolding value
  corr-value w v =
      L.recon_ext _ _ (L.recon_add-IsValid _ _ v (L.reconstruct-IsValid _)) (value-IsValid D L w v)
        λ i. L.recon_add-lane _ _ i ∙ L.ring.add_comm _ _ ∙ sym (L.recon_add-lane _ _ i)

  check-view :
      (s : Machine D) (w : Wire D)
      → WireIsValid D L w
      → (if D.recon_is_zero (value D w) then ok (view D s) else panic witness_invalid)
        ≡ map_ok (view D) (
            Prover.zero_check D
              (Prover.reconstruct D s.transcript w.mask).1
              (D.recon_add w.corr (Prover.reconstruct D s.transcript w.mask).0)
            >>= λ t. ok (record s { transcript = t }))
  unfolding Prover.zero_check Prover.reconstruct
  check-view s w v = rw (corr-value w v) (elim (Bool-cases (D.recon_is_zero (value D w))) [
    | inl passes ↦ rw passes
    | inr fails ↦ rw fails
  ])

  -- One gate: the prover's machine and the machine in the clear do the same, panics included.
  pub step-view :
      (s : Machine D) (op : Operation D.Const)
      → MachineIsValid s
      → plain_step D (draw D s) (view D s) op ≡ map_ok (view D) (step D (prover D) s op)
  unfolding plain_step step Prover.input
  step-view s (input dst) valid =
      input-view s dst s.transcript.witness refl valid.transcript.witness
  step-view s (add dst src1 src2) valid =
      binary-view s dst src1 src2 D.recon_add (λ w v. (op_add D w v, s.transcript)) valid
        (λ w v. refl) (value-op_add D L)
  step-view s (sub dst src1 src2) valid =
      binary-view s dst src1 src2 D.recon_sub (λ w v. (op_sub D w v, s.transcript)) valid
        (λ w v. refl) (value-op_sub D L)
  step-view s (mul dst src1 src2) valid =
      binary-view s dst src1 src2 D.recon_mul (op_mul D (prover D) s.transcript) valid
        (λ w v. witness-op_mul D s.transcript w v) (value-op_mul D L s.transcript)
  step-view s (add_const dst src k) valid =
      unary-view s dst src (λ v. D.recon_add v (D.into k)) (λ w. op_add_const D w (D.into k)) valid
        λ w v. value-op_add_const D L w (D.into k) v (L.into-IsValid k)
  step-view s (sub_const dst src k) valid =
      unary-view s dst src (λ v. D.recon_sub v (D.into k)) (λ w. op_sub_const D w (D.into k)) valid
        λ w v. value-op_sub_const D L w (D.into k) v (L.into-IsValid k)
  step-view s (mul_const dst src k) valid =
      unary-view s dst src (λ v. D.recon_mul v (D.into k)) (λ w. op_mul_const D w (D.into k)) valid
        λ w v. value-op_mul_const D L w (D.into k) v (L.into-IsValid k)
  step-view s (assert_zero src) valid = rw (read-map (value D) s.wires src) (
      map_ok-bind (read s.wires src) (value D) (view D) _ _
        λ w e. check-view s w (All-read (WireIsValid D L) s.wires src valid.wires e))
  step-view s (random dst) valid =
      put-view s dst (record { mask = mask; corr = D.recon_zero })
        (Prover.new_mask D s.transcript).1 (draw D s) (view D s) (witness-new_mask D s)
        (random_value mask)
    where
      mask : D.Share
      mask = (Prover.new_mask D s.transcript).0
  step-view s (constant dst k) valid =
      put-view s dst (record { mask = D.share_zero; corr = D.into k }) s.transcript (D.into k)
        (view D s) refl (constant_value (D.into k) (L.into-IsValid k))
