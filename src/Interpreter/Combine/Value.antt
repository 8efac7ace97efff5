-- ===== src/Interpreter/Combine/Value.antt =====
-- interpreter/combine.rs: the wire that `B2A` makes on the prover's side.
use reverie_ppr.Prelude.{
  ℕ, zero, suc, ◌+◌, ◌%◌, ◌^◌, ◌≡◌, refl, sym, ◌∙◌, ap, ap₂, arith, Fin, Array, All, ok, ◌>>=◌,
  write,
}
use reverie_ppr.Word.{U64, U64_ext, wrap, wrapping_add, wrapping_sub}
use reverie_ppr.Crypto.{StreamCipher, Blake3}
use reverie_ppr.Algebra.Z64.{ReconZ64, ShareZ64}
use reverie_ppr.Algebra.Z64.Recon
use reverie_ppr.Algebra.Z64.Share
use reverie_ppr.Algebra.Z64.Domain.{domain_z64, reconstruct}
use reverie_ppr.Algebra.Z64.Linear.{reconstruct_lem}
use reverie_ppr.Algebra.Gf2.{ShareGf2}
use reverie_ppr.Algebra.Gf2.Laws.{domain_gf2, lanes_gf2}
use reverie_ppr.Transcript.{Wire}
use reverie_ppr.Transcript.Prover
use reverie_ppr.Transcript.Prover.{ProverTranscript, prover}
use reverie_ppr.Interpreter.Single.{value}
use reverie_ppr.Interpreter.Single.Value.{WireIsValid}
use reverie_ppr.Interpreter.Combine.{
  WireGf2, CombineInstance, wires_from, fresh_wires, combine_step, b2a, recon_gf2_to_z64,
  reconstruct_only, add_64,
}
use reverie_ppr.Interpreter.Combine.Conversion.{number_of, lane, recon_gf2_to_z64-number_of}
use reverie_ppr.Interpreter.Combine.Parts.{open_sum, mask_value, mask_wire, unmasked, step_b2a_lem}
use reverie_ppr.Interpreter.Combine.Wires.{wires_from-valid}
use reverie_ppr.Interpreter.Combine.Adder.{add_64-number_of}

-- The mask is subtracted and added again.
unmask :
    (v s m : U64)
    → wrapping_add (wrapping_sub (wrap 0) m) (wrapping_sub (wrapping_add v s) (wrapping_sub v m))
      ≡ s
unfolding wrapping_add wrapping_sub wrap
unmask v s m = U64_ext _ _ (omega (arith, v.1, s.1, m.1))

wrap-mod_add : (m n : ℕ) → wrap ((m + n) % 2 ^ 64) ≡ wrapping_add (wrap m) (wrap n)
unfolding wrapping_add wrap
wrap-mod_add m n = U64_ext _ _ (omega arith)

reconstruct-zero : (r : Fin 8) → reconstruct Share.share_zero r ≡ wrap 0
unfolding reconstruct Share.share_zero wrapping_add wrap reverie_ppr.Ring.Sum.add_all
reconstruct-zero r = refl

module _ ⦃c : StreamCipher⦄ ⦃b : Blake3⦄ where
  abbrev Valid : WireGf2 → Type 0
  Valid w = WireIsValid domain_gf2 lanes_gf2 w

  fresh_wires-Valid :
      (n : ℕ) (t : ProverTranscript domain_gf2) (i : Fin n)
      → Valid ((fresh_wires (prover domain_gf2) n t).0 i)
  unfolding fresh_wires
  fresh_wires-Valid (suc n) t Fin.zero = lanes_gf2.recon_zero-IsValid
  fresh_wires-Valid (suc n) t (Fin.suc i) = fresh_wires-Valid n ((prover domain_gf2).new_mask t).1 i
  fresh_wires-Valid zero t i = elim i [ ]

  -- A wire whose mask is taken from 0 and whose correction is a sum less the correction of the
  -- mask and a first summand holds the second.
  unmasked_value :
      (mask : ShareZ64) (v x : ReconZ64) (n : U64) (r : Fin 8)
      → x r ≡ wrapping_add (v r) n
      → value domain_z64
          (record {
            mask = Share.sub Share.share_zero mask;
            corr = Recon.sub x (Recon.sub v (reconstruct mask));
          })
          r
        ≡ n
  unfolding value Recon.add Recon.sub
  unmasked_value mask v x n r e =
      let (_, difference, _, _, _) = reconstruct_lem Share.share_zero mask v in
      ap₂ (λ m y. wrapping_add (m r) (wrapping_sub y (wrapping_sub (v r) (reconstruct mask r))))
        difference e
      ∙ ap
          (λ z.
            wrapping_add (wrapping_sub z (reconstruct mask r))
              (wrapping_sub (wrapping_add (v r) n) (wrapping_sub (v r) (reconstruct mask r))))
          (reconstruct-zero r)
      ∙ unmask (v r) n (reconstruct mask r)

  abbrev Machine : Type 0
  Machine = CombineInstance (ProverTranscript domain_gf2) (ProverTranscript domain_z64)

  -- The wire that `B2A` writes holds the integer of the source wires' bits.
  pub unmasked-number_of :
      (t : ProverTranscript domain_gf2) (u : ProverTranscript domain_z64) (ws : Array WireGf2 64)
      (r : Fin 8)
      → ((i : Fin 64) → Valid (ws i))
      → value domain_z64
          (unmasked
            (prover domain_gf2)
            (prover domain_z64)
            (open_sum (prover domain_gf2) (prover domain_z64) t ws).0
            (mask_wire
              (prover domain_gf2)
              (prover domain_z64)
              u
              (mask_value (prover domain_gf2) (prover domain_z64) t)).0)
          r
        ≡ wrap (number_of 64 (λ i. lane (ws i) r))
  unfolding open_sum mask_value mask_wire unmasked reconstruct_only Prover.correction
      Prover.reconstruct
  unmasked-number_of t u ws r valid =
      let fresh = fresh_wires (prover domain_gf2) 64 t in
      let v = (recon_gf2_to_z64 reconstruct_only fresh.1 fresh.0).0 in
      let sum = add_64 (prover domain_gf2) fresh.1 fresh.0 ws in
      let x = (recon_gf2_to_z64 (prover domain_gf2).reconstruct sum.1 sum.0).0 in
      unmasked_value ((prover domain_z64).new_mask u).0 v x
        (wrap (number_of 64 (λ i. lane (ws i) r))) r
        (recon_gf2_to_z64-number_of (prover domain_gf2).reconstruct reconstructs r sum.1 sum.0
          ∙ ap wrap (add_64-number_of r fresh.1 fresh.0 ws (fresh_wires-Valid 64 t) valid)
          ∙ wrap-mod_add (number_of 64 (λ i. lane (fresh.0 i) r))
              (number_of 64 (λ i. lane (ws i) r))
          ∙ ap (λ m. wrapping_add m (wrap (number_of 64 (λ i. lane (ws i) r))))
              (sym
                (recon_gf2_to_z64-number_of reconstruct_only only_reconstructs r fresh.1 fresh.0)))
    where
      reconstructs :
          (t : ProverTranscript domain_gf2) (s : ShareGf2)
          → ((prover domain_gf2).reconstruct t s).0 ≡ domain_gf2.reconstruct s
      reconstructs t s = refl

      only_reconstructs :
          (t : ProverTranscript domain_gf2) (s : ShareGf2)
          → (reconstruct_only t s).0 ≡ domain_gf2.reconstruct s
      only_reconstructs t s = refl

  -- The conversion `B2A` on the prover's transcripts: where the wires over bits have valid
  -- corrections and the 64 source wires exist, the step writes one wire over 64-bit integers, or
  -- panics where the destination does not exist, and leaves the other wires as they are. In every
  -- repetition the value of that wire is the integer whose bits, the lowest first, the source
  -- wires hold, whatever the masks are.
  pub step_b2a-value :
      (s : Machine) (dst src : ℕ) {ws : Array WireGf2 64}
      → All Valid s.gf2.wires
      → wires_from 64 s.gf2.wires src ≡ ok ws
      → (wire : Wire domain_z64) × (t : ProverTranscript domain_gf2) × (u : ProverTranscript
          domain_z64)
        × (combine_step (prover domain_gf2) (prover domain_z64) s (b2a dst src) ≡ (
            write s.z64.wires dst wire >>= λ wires. ok (record {
              gf2 = record s.gf2 { transcript = t };
              z64 = record { transcript = u; wires = wires };
            })))
        × ((r : Fin 8) → value domain_z64 wire r ≡ wrap (number_of 64 (λ i. lane (ws i) r)))
  unfolding combine_step
  step_b2a-value s dst src {ws} valid e =
      let opened = open_sum (prover domain_gf2) (prover domain_z64) s.gf2.transcript ws in
      let masked =
        mask_wire (prover domain_gf2) (prover domain_z64) s.z64.transcript
          (mask_value (prover domain_gf2) (prover domain_z64) s.gf2.transcript) in
      (
        unmasked (prover domain_gf2) (prover domain_z64) opened.0 masked.0,
        opened.1,
        masked.1,
        step_b2a_lem (prover domain_gf2) (prover domain_z64) s dst src ∙ rw e refl,
        λ r.
            unmasked-number_of s.gf2.transcript s.z64.transcript ws r
              (wires_from-valid Valid 64 s.gf2.wires src valid e),
      )
