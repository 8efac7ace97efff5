-- ===== src/Interpreter/Combine/Traffic.antt =====
-- interpreter/combine.rs on the prover's transcripts: how much a circuit records in each domain.
use reverie_ppr.Prelude.{
  ℕ, zero, suc, ◌*◌, ◌≡◌, sym, ◌∙◌, arith, List, [], ◌∷◌, Fin, Array, ok, >>=-eq-ok, ok_injective,
  map_ok-eq-ok, write, subst,
}
use reverie_ppr.Ring.Sum.{rest}
use reverie_ppr.Word.{wrap}
use reverie_ppr.Crypto.{StreamCipher, Blake3}
use reverie_ppr.Algebra.Z64.{ReconZ64}
use reverie_ppr.Algebra.Z64.Domain.{domain_z64}
use reverie_ppr.Algebra.Gf2.Recon.{into_bytes}
use reverie_ppr.Algebra.Gf2.Laws.{domain_gf2}
use reverie_ppr.Transcript.Prover.{ProverTranscript, prover}
use reverie_ppr.Interpreter.Single.{op_add, op_mul, step}
use reverie_ppr.Interpreter.Single.Traffic.{
  Traffic, plus, no_traffic, product_traffic, opening_traffic, gate_traffic, Grows, stays,
  Grows-trans, new_mask-Grows, reconstruct-Grows, correction-Grows, op_mul-Grows, step-Grows,
}
use reverie_ppr.Interpreter.Combine.{
  WireGf2, CombineInstance, CombineOperation, size_hint, gf2_op, z64_op, b2a, shift_in, wires_from,
  fresh_wires, add_rounds, add_64, recon_loop, recon_gf2_to_z64, step_b2a, combine_step,
}
use reverie_ppr.Interpreter.Combine.Parts.{open_sum, mask_value, mask_wire, step_b2a_lem}
use reverie_ppr.Proof.Prove.{run_combined}

abbrev times : ℕ → Traffic → Traffic
times n q = record { recons = n * q.recons; corrs = n * q.corrs; inputs = n * q.inputs }

-- An operation's part in each domain.
abbrev pub traffic_gf2 : CombineOperation → Traffic
traffic_gf2 (size_hint z64 gf2) = no_traffic
traffic_gf2 (gf2_op op) = gate_traffic op
traffic_gf2 (z64_op op) = no_traffic
traffic_gf2 (b2a dst src) = record { recons = 127; corrs = 63; inputs = 0 }

abbrev pub traffic_z64 : CombineOperation → Traffic
traffic_z64 (size_hint z64 gf2) = no_traffic
traffic_z64 (gf2_op op) = no_traffic
traffic_z64 (z64_op op) = gate_traffic op
traffic_z64 (b2a dst src) = record { recons = 0; corrs = 1; inputs = 0 }

abbrev pub total_traffic : (CombineOperation → Traffic) → List CombineOperation → Traffic
total_traffic f [] = no_traffic
total_traffic f (op ∷ circuit) = plus (f op) (total_traffic f circuit)

module _ ⦃c : StreamCipher⦄ ⦃b : Blake3⦄ where
  abbrev Machines : Type 0
  Machines = CombineInstance (ProverTranscript domain_gf2) (ProverTranscript domain_z64)

  abbrev GrowsGf2 : Traffic → ProverTranscript domain_gf2 → ProverTranscript domain_gf2 → Type 0
  GrowsGf2 = Grows domain_gf2

  recount :
      (q r : Traffic) {t u : ProverTranscript domain_gf2}
      → q.recons ≡ r.recons
      → q.corrs ≡ r.corrs
      → q.inputs ≡ r.inputs
      → GrowsGf2 q t u
      → GrowsGf2 r t u
  recount q r e f h g = record {
    recons = omega (arith, g.recons, e);
    corrs = omega (arith, g.corrs, f);
    inputs = omega (arith, g.inputs, h);
  }

  fresh_wires-Grows :
      (n : ℕ) (t : ProverTranscript domain_gf2)
      → GrowsGf2 no_traffic t (fresh_wires (prover domain_gf2) n t).1
  unfolding fresh_wires
  fresh_wires-Grows zero t = stays domain_gf2 t
  fresh_wires-Grows (suc n) t =
      Grows-trans domain_gf2 no_traffic no_traffic (new_mask-Grows domain_gf2 t)
        (fresh_wires-Grows n ((prover domain_gf2).new_mask t).1)

  add_rounds-Grows :
      (n : ℕ) (t : ProverTranscript domain_gf2) (carry : WireGf2) (x y : Array WireGf2 (suc n))
      → GrowsGf2 (times n product_traffic) t (add_rounds (prover domain_gf2) n t carry x y).1
  unfolding add_rounds
  add_rounds-Grows zero t carry x y = stays domain_gf2 t
  add_rounds-Grows (suc n) t carry x y =
      let ac = op_add domain_gf2 (x Fin.zero) carry in
      let bc = op_add domain_gf2 (y Fin.zero) carry in
      let product = op_mul domain_gf2 (prover domain_gf2) t ac bc in
      recount (plus product_traffic (times n product_traffic)) (times (suc n) product_traffic)
        (omega arith) (omega arith) (omega arith)
        (Grows-trans domain_gf2 product_traffic (times n product_traffic)
          (op_mul-Grows domain_gf2 t ac bc)
          (add_rounds-Grows n product.1 (op_add domain_gf2 product.0 carry) (rest x) (rest y)))

  recon_loop-Grows :
      (n : ℕ) (t : ProverTranscript domain_gf2) (z : ReconZ64) (ws : Array WireGf2 n)
      → GrowsGf2 (times n opening_traffic) t (recon_loop (prover domain_gf2).reconstruct n t z ws).1
  unfolding recon_loop
  recon_loop-Grows zero t z ws = stays domain_gf2 t
  recon_loop-Grows (suc n) t z ws =
      let opened = (prover domain_gf2).reconstruct t (ws Fin.zero).mask in
      recount (plus opening_traffic (times n opening_traffic)) (times (suc n) opening_traffic)
        (omega arith) (omega arith) (omega arith)
        (Grows-trans domain_gf2 opening_traffic (times n opening_traffic)
          (reconstruct-Grows domain_gf2 t (ws Fin.zero).mask)
          (recon_loop-Grows n opened.1
            (shift_in (into_bytes (domain_gf2.recon_add opened.0 (ws Fin.zero).corr)) z) (rest ws)))

  open_sum-Grows :
      (t : ProverTranscript domain_gf2) (ws : Array WireGf2 64)
      → GrowsGf2
          (record { recons = 127; corrs = 63; inputs = 0 })
          t
          (open_sum (prover domain_gf2) (prover domain_z64) t ws).1
  unfolding open_sum add_64 recon_gf2_to_z64
  open_sum-Grows t ws =
      let fresh = fresh_wires (prover domain_gf2) 64 t in
      let product =
        op_mul domain_gf2 (prover domain_gf2) fresh.1 (fresh.0 Fin.zero) (ws Fin.zero) in
      let sum = add_64 (prover domain_gf2) fresh.1 fresh.0 ws in
      Grows-trans domain_gf2 (plus no_traffic (plus product_traffic (times 62 product_traffic)))
        (times 64 opening_traffic)
        (Grows-trans domain_gf2 no_traffic (plus product_traffic (times 62 product_traffic))
          (fresh_wires-Grows 64 t)
          (Grows-trans domain_gf2 product_traffic (times 62 product_traffic)
            (op_mul-Grows domain_gf2 fresh.1 (fresh.0 Fin.zero) (ws Fin.zero))
            (add_rounds-Grows 62 product.1 product.0 (rest fresh.0) (rest ws))))
        (recon_loop-Grows 64 sum.1 (λ j. wrap 0) sum.0)

  mask_wire-Grows :
      (u : ProverTranscript domain_z64) (v : ReconZ64)
      → Grows domain_z64
          (record { recons = 0; corrs = 1; inputs = 0 })
          u
          (mask_wire (prover domain_gf2) (prover domain_z64) u v).1
  unfolding mask_wire
  mask_wire-Grows u v =
      let mask = (prover domain_z64).new_mask u in
      Grows-trans domain_z64 no_traffic (record { recons = 0; corrs = 1; inputs = 0 })
        (new_mask-Grows domain_z64 u)
        (correction-Grows domain_z64 mask.1
          (domain_z64.recon_sub v (domain_z64.reconstruct mask.0)))

  -- What a machine's two transcripts record on the way to another's.
  pub record GrowsBoth (q r : Traffic) (s u : Machines) : Type 0 where
    pub gf2 : Grows domain_gf2 q s.gf2.transcript u.gf2.transcript
    pub z64 : Grows domain_z64 r s.z64.transcript u.z64.transcript

  step_b2a-Grows :
      (s : Machines) (dst src : ℕ) {u : Machines}
      → step_b2a (prover domain_gf2) (prover domain_z64) s dst src ≡ ok u
      → GrowsBoth (traffic_gf2 (b2a dst src)) (traffic_z64 (b2a dst src)) s u
  step_b2a-Grows s dst src e =
      let (ws, e₁, e₂) =
        >>=-eq-ok (wires_from 64 s.gf2.wires src) _
          (sym (step_b2a_lem (prover domain_gf2) (prover domain_z64) s dst src) ∙ e) in
      let (zs, e₃, e₄) = >>=-eq-ok (write s.z64.wires dst _) _ e₂ in
      subst (GrowsBoth (traffic_gf2 (b2a dst src)) (traffic_z64 (b2a dst src)) s) (ok_injective e₄)
        (record {
          gf2 = open_sum-Grows s.gf2.transcript ws;
          z64 =
              mask_wire-Grows s.z64.transcript
                (mask_value (prover domain_gf2) (prover domain_z64) s.gf2.transcript);
        })

  combine_step-Grows :
      (s : Machines) (op : CombineOperation) {u : Machines}
      → combine_step (prover domain_gf2) (prover domain_z64) s op ≡ ok u
      → GrowsBoth (traffic_gf2 op) (traffic_z64 op) s u
  unfolding combine_step
  combine_step-Grows s (size_hint z64 gf2) e =
      subst (GrowsBoth no_traffic no_traffic s) (ok_injective e) (record {
        gf2 = stays domain_gf2 s.gf2.transcript;
        z64 = stays domain_z64 s.z64.transcript;
      })
  combine_step-Grows s (gf2_op op) e =
      let (m, e₁, e₂) = map_ok-eq-ok _ (step domain_gf2 (prover domain_gf2) s.gf2 op) e in
      subst (GrowsBoth (gate_traffic op) no_traffic s) e₂ (record {
        gf2 = step-Grows domain_gf2 s.gf2 op e₁;
        z64 = stays domain_z64 s.z64.transcript;
      })
  combine_step-Grows s (z64_op op) e =
      let (m, e₁, e₂) = map_ok-eq-ok _ (step domain_z64 (prover domain_z64) s.z64 op) e in
      subst (GrowsBoth no_traffic (gate_traffic op) s) e₂ (record {
        gf2 = stays domain_gf2 s.gf2.transcript;
        z64 = step-Grows domain_z64 s.z64 op e₁;
      })
  combine_step-Grows s (b2a dst src) e = step_b2a-Grows s dst src e

  -- What the prover records of a circuit depends on the circuit alone: where a run of a circuit
  -- does not panic, the numbers of opened shares, of corrections and of inputs that it adds to the
  -- transcript of each domain are the sums of those of the operations. A product adds one opened
  -- share and one correction, an input one input, a check for zero one opened share, and a
  -- conversion `B2A` 127 opened shares and 63 corrections over bits and one correction over
  -- integers; nothing else adds any.
  pub run_combined-Grows :
      (circuit : List CombineOperation) (s : Machines) {u : Machines}
      → run_combined (prover domain_gf2) (prover domain_z64) s circuit ≡ ok u
      → GrowsBoth (total_traffic traffic_gf2 circuit) (total_traffic traffic_z64 circuit) s u
  unfolding run_combined
  run_combined-Grows [] s e =
      subst (GrowsBoth no_traffic no_traffic s) (ok_injective e) (record {
        gf2 = stays domain_gf2 s.gf2.transcript;
        z64 = stays domain_z64 s.z64.transcript;
      })
  run_combined-Grows (op ∷ circuit) s e =
      let (m, e₁, e₂) = >>=-eq-ok (combine_step (prover domain_gf2) (prover domain_z64) s op) _ e in
      let first = combine_step-Grows s op e₁ in
      let more = run_combined-Grows circuit m e₂ in
      record {
        gf2 =
            Grows-trans domain_gf2 (traffic_gf2 op) (total_traffic traffic_gf2 circuit) first.gf2
              more.gf2;
        z64 =
            Grows-trans domain_z64 (traffic_z64 op) (total_traffic traffic_z64 circuit) first.z64
              more.z64;
      }
