-- ===== src/Interpreter/Combine/View.antt =====
-- interpreter/combine.rs: one operation of the prover's machine, seen through the values of its
-- wires.
use reverie_ppr.Prelude.{
  ℕ, zero, suc, ◌-◌, ◌≡◌, refl, sym, ◌∙◌, ap, fun_ext, List, ◌++◌, map, length, replicate, Fin,
  Array, push_front, Outcome, ok, panic, ◌>>=◌, read, write, read-map, write-map, map_ok,
  map_ok-bind, map-append, length-map, map-replicate,
}
use reverie_ppr.Crypto.{StreamCipher, Blake3}
use reverie_ppr.Algebra.{Domain, Lanes}
use reverie_ppr.Algebra.Z64.{ReconZ64}
use reverie_ppr.Algebra.Z64.Domain.{domain_z64}
use reverie_ppr.Algebra.Z64.Laws.{lanes_z64}
use reverie_ppr.Algebra.Gf2.{ReconGf2}
use reverie_ppr.Algebra.Gf2.Laws.{domain_gf2, lanes_gf2}
use reverie_ppr.Transcript.{Wire}
use reverie_ppr.Transcript.Prover.{ProverTranscript, prover}
use reverie_ppr.Interpreter.Plain.{put}
use reverie_ppr.Interpreter.Single.{value, default_wire, step}
use reverie_ppr.Interpreter.Single.Prover.{view, draw, step-view, constant_value}
use reverie_ppr.Interpreter.Single.Value.{WireIsValid}
use reverie_ppr.Interpreter.Combine.{
  CombineOperation, size_hint, gf2_op, z64_op, b2a, resize, wires_from, step_b2a, combine_step,
}
use reverie_ppr.Interpreter.Combine.Parts.{open_sum, mask_value, mask_wire, unmasked, step_b2a_lem}
use reverie_ppr.Interpreter.Combine.Wires.{wires_from-valid}
use reverie_ppr.Interpreter.Combine.Value.{unmasked-number_of}
use reverie_ppr.Replay.Combine.{CombineProver, CombineIsValid}
use reverie_ppr.Interpreter.Combine.Plain.{Stores, integer, plain_combine}
use reverie_ppr.Interpreter.Combine.Kept.{open_sum-witness, mask_wire-witness}

map_ok-map_ok {ℓ} :
    {A B C : Type ℓ} (g : B → C) (f : A → B) (m : Outcome A)
    → map_ok g (map_ok f m) ≡ map_ok (λ x. g (f x)) m
map_ok-map_ok g f (ok x) = refl
map_ok-map_ok g f (panic e) = refl

wires_from-map :
    {A B : Type 0} (f : A → B) (n : ℕ) (xs : List A) (k : ℕ)
    → wires_from n (map f xs) k ≡ map_ok (λ a i. f (a i)) (wires_from n xs k)
unfolding wires_from
wires_from-map f zero xs k = ap ok (fun_ext λ i. elim i [ ])
wires_from-map f (suc n) xs k = rw (read-map f xs k) (
    map_ok-bind (read xs k) f _ _ _ λ w e.
      rw (wires_from-map f n xs (suc k))
        (map_ok-bind (wires_from n xs (suc k)) _ _ _ _ λ a e'. ap ok (fun_ext (each f w a))))
  where
    each :
        {A B : Type 0} (f : A → B) {n : ℕ} (w : A) (a : Array A n) (i : Fin (suc n))
        → push_front (f w) (λ i. f (a i)) i ≡ f (push_front w a i)
    each f w a Fin.zero = refl
    each f w a (Fin.suc i) = refl

resize-map :
    {A B : Type 0} (f : A → B) (n : ℕ) (d : A) (xs : List A)
    → map f (resize n d xs) ≡ resize n (f d) (map f xs)
unfolding resize
resize-map f n d xs =
    map-append f xs (replicate (n - length xs) d)
    ∙ ap (λ ys. map f xs ++ ys) (map-replicate f (n - length xs) d)
    ∙ ap (λ m. map f xs ++ replicate (n - m) (f d)) (sym (length-map f xs))

module _ ⦃c : StreamCipher⦄ ⦃b : Blake3⦄ where
  -- The values of a prover's wires, and what it would draw.
  abbrev pub view_both : CombineProver → Stores
  view_both s = record { gf2 = view domain_gf2 s.gf2; z64 = view domain_z64 s.z64 }

  abbrev pub draw_both : CombineProver → ReconGf2 × ReconZ64
  draw_both s = (draw domain_gf2 s.gf2, draw domain_z64 s.z64)

  default_value : (D : Domain) (L : Lanes D) → value D (default_wire D) ≡ D.recon_zero
  unfolding default_wire
  default_value D L = constant_value D L D.recon_zero L.recon_zero-IsValid

  size_hint-view :
      (s : CombineProver) (z64 gf2 : ℕ) (drawn : ReconGf2 × ReconZ64)
      → plain_combine drawn (view_both s) (size_hint z64 gf2)
        ≡ map_ok view_both
            (combine_step (prover domain_gf2) (prover domain_z64) s (size_hint z64 gf2))
  unfolding plain_combine combine_step
  size_hint-view s z64 gf2 drawn = ap ok λ k. record {
    gf2 = record {
      values =
          (sym (
              resize-map (value domain_gf2) gf2 (default_wire domain_gf2) s.gf2.wires
              ∙ ap (λ d. resize gf2 d (map (value domain_gf2) s.gf2.wires))
                  (default_value domain_gf2 lanes_gf2)))
            k;
      witness = s.gf2.transcript.witness;
    };
    z64 = record {
      values =
          (sym (
              resize-map (value domain_z64) z64 (default_wire domain_z64) s.z64.wires
              ∙ ap (λ d. resize z64 d (map (value domain_z64) s.z64.wires))
                  (default_value domain_z64 lanes_z64)))
            k;
      witness = s.z64.transcript.witness;
    };
  }

  -- The result is written to the destination, and the rest is left.
  written :
      (s : CombineProver) (t : ProverTranscript domain_gf2) (u : ProverTranscript domain_z64)
      (m : Outcome (List (Wire domain_z64)))
      → t.witness ≡ s.gf2.transcript.witness
      → u.witness ≡ s.z64.transcript.witness
      → ((map_ok (map (value domain_z64)) m >>= λ values.
            ok (record (view domain_z64 s.z64) { values = values }))
          >>= λ z. ok (record (view_both s) { z64 = z }))
        ≡ map_ok view_both (
            m >>= λ wires. ok (record {
              gf2 = record s.gf2 { transcript = t };
              z64 = record { transcript = u; wires = wires };
            }))
  written s t u (ok wires) e e' = rw (e, e') refl
  written s t u (panic k) e e' = refl

  b2a-view :
      (s : CombineProver) (dst src : ℕ) (drawn : ReconGf2 × ReconZ64)
      → CombineIsValid s
      → plain_combine drawn (view_both s) (b2a dst src)
        ≡ map_ok view_both (step_b2a (prover domain_gf2) (prover domain_z64) s dst src)
  unfolding plain_combine put
  b2a-view s dst src drawn valid =
      rw
        (
          wires_from-map (value domain_gf2) 64 s.gf2.wires src,
          step_b2a_lem (prover domain_gf2) (prover domain_z64) s dst src,
        )
        (map_ok-bind (wires_from 64 s.gf2.wires src) _ view_both _ _ λ ws e.
          let opened = open_sum (prover domain_gf2) (prover domain_z64) s.gf2.transcript ws in
          let masked =
            mask_wire (prover domain_gf2) (prover domain_z64) s.z64.transcript
              (mask_value (prover domain_gf2) (prover domain_z64) s.gf2.transcript) in
          let wire = unmasked (prover domain_gf2) (prover domain_z64) opened.0 masked.0 in
          let same : integer (λ i. value domain_gf2 (ws i)) ≡ value domain_z64 wire = fun_ext λ r.
            sym (
              unmasked-number_of s.gf2.transcript s.z64.transcript ws r (
                wires_from-valid (WireIsValid domain_gf2 lanes_gf2) 64 s.gf2.wires src
                  valid.gf2.wires e)) in
          rw (same, write-map (value domain_z64) s.z64.wires dst wire)
            (written s opened.1 masked.1 (write s.z64.wires dst wire)
              (open_sum-witness s.gf2.transcript ws)
              (mask_wire-witness s.z64.transcript
                (mask_value (prover domain_gf2) (prover domain_z64) s.gf2.transcript))))

  -- One operation: the prover's machine and the machine in the clear do the same, panics included.
  pub combine_step-view :
      (s : CombineProver) (op : CombineOperation)
      → CombineIsValid s
      → plain_combine (draw_both s) (view_both s) op
        ≡ map_ok view_both (combine_step (prover domain_gf2) (prover domain_z64) s op)
  unfolding plain_combine combine_step
  combine_step-view s (size_hint z64 gf2) valid = size_hint-view s z64 gf2 (draw_both s)
  combine_step-view s (gf2_op op) valid =
      ap (map_ok (λ g. record (view_both s) { gf2 = g }))
        (step-view domain_gf2 lanes_gf2 s.gf2 op valid.gf2)
      ∙ map_ok-map_ok _ (view domain_gf2) (step domain_gf2 (prover domain_gf2) s.gf2 op)
      ∙ sym (
          map_ok-map_ok view_both (λ g. record s { gf2 = g })
            (step domain_gf2 (prover domain_gf2) s.gf2 op))
  combine_step-view s (z64_op op) valid =
      ap (map_ok (λ z. record (view_both s) { z64 = z }))
        (step-view domain_z64 lanes_z64 s.z64 op valid.z64)
      ∙ map_ok-map_ok _ (view domain_z64) (step domain_z64 (prover domain_z64) s.z64 op)
      ∙ sym (
          map_ok-map_ok view_both (λ z. record s { z64 = z })
            (step domain_z64 (prover domain_z64) s.z64 op))
  combine_step-view s (b2a dst src) valid = b2a-view s dst src (draw_both s) valid
