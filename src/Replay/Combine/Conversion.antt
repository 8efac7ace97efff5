-- ===== src/Replay/Combine/Conversion.antt =====
-- interpreter/combine.rs: `recon_gf2_to_z64` on the online verifier's transcript.
use reverie_ppr.Prelude.{ℕ, zero, suc, ◌≡◌, refl, sym, ◌∙◌, ap, ap₂, Fin, Array}
use reverie_ppr.Ring.Sum.{rest}
use reverie_ppr.Word.{wrap}
use reverie_ppr.Word.Bits.{u64_or, u64_shl}
use reverie_ppr.Crypto.{StreamCipher, Blake3}
use reverie_ppr.Algebra.{players, packed}
use reverie_ppr.Algebra.Z64.{ReconZ64}
use reverie_ppr.Algebra.Gf2.{ReconGf2}
use reverie_ppr.Algebra.Gf2.Recon.{into_bytes}
use reverie_ppr.Algebra.Gf2.Laws.{domain_gf2, lanes_gf2}
use reverie_ppr.Transcript.Prover.{ProverTranscript, prover}
use reverie_ppr.Transcript.Online.{online}
use reverie_ppr.Interpreter.Combine.{WireGf2, shift_in, recon_loop, recon_gf2_to_z64, reverse_bits}
use reverie_ppr.Interpreter.Combine.Conversion.{digit_of, into_bytes-lane}
use reverie_ppr.Replay.{ReconFits}
use reverie_ppr.Replay.Gates.{recon_add-Fits}
use reverie_ppr.Replay.Product.{nothing, join, Records-trans, regroup}
use reverie_ppr.Replay.Machine.{nothing_recorded}
use reverie_ppr.Replay.Combine.Echo.{Echoes, reconstruct-Echoes}
use reverie_ppr.Replay.Combine.Adder.{ArrayFits}

module _ ⦃c : StreamCipher⦄ ⦃b : Blake3⦄ where
  -- The conversion is done in each repetition alone.
  pub shift_in-lanes :
      (x x' : ReconGf2) (z z' : ReconZ64) (i j : Fin packed)
      → lanes_gf2.recon_lane x' j ≡ lanes_gf2.recon_lane x i
      → z' j ≡ z i
      → shift_in (into_bytes x') z' j ≡ shift_in (into_bytes x) z i
  unfolding shift_in lanes_gf2
  shift_in-lanes x x' z z' i j e f =
      ap₂ (λ m y. u64_or (u64_shl y 1) (wrap m))
        (into_bytes-lane x' j ∙ ap digit_of e ∙ sym (into_bytes-lane x i)) f

  module _ (i j : Fin packed) (o : Fin players) where
    abbrev pub LaneFits : ReconZ64 → ReconZ64 → Type 0
    LaneFits z z' = z' j ≡ z i

    recon_loop-Echoes :
        (n : ℕ) (t : ProverTranscript domain_gf2) (z : ReconZ64) (ws : Array WireGf2 n)
        → Echoes domain_gf2 lanes_gf2 i j o LaneFits
            (recon_loop (prover domain_gf2).reconstruct n t z ws)
            {X = ReconZ64 × Array WireGf2 n}
            t
            (λ x. LaneFits z x.0 × ArrayFits i j o ws x.1)
            (λ x t'. recon_loop (online domain_gf2).reconstruct n t' x.0 x.1)
    unfolding recon_loop
    recon_loop-Echoes zero t z ws = record {
      said = nothing domain_gf2;
      records = nothing_recorded domain_gf2 lanes_gf2 i j o t;
      keeps = λ valid. valid;
      echo =
          λ x fits t' l agrees covers. record { value = fits.0; agrees = agrees; covers = covers };
    }
    recon_loop-Echoes (suc n) t z ws =
        let opened = (prover domain_gf2).reconstruct t (ws Fin.zero).mask in
        let x = domain_gf2.recon_add opened.0 (ws Fin.zero).corr in
        let first = reconstruct-Echoes domain_gf2 lanes_gf2 i j o t (ws Fin.zero).mask in
        let more = recon_loop-Echoes n opened.1 (shift_in (into_bytes x) z) (rest ws) in
        record {
          said = join domain_gf2 first.said more.said;
          records = Records-trans domain_gf2 first.said more.said first.records more.records;
          keeps = λ valid. more.keeps (first.keeps valid);
          echo = λ y fits t' l agrees covers.
              let w' = y.1 Fin.zero in
              let p =
                first.echo w'.mask (fits.1 Fin.zero).mask t' (join domain_gf2 more.said l) agrees
                  (regroup domain_gf2 lanes_gf2 i j o first.said more.said l covers) in
              let opened' = (online domain_gf2).reconstruct t' w'.mask in
              let x' = domain_gf2.recon_add opened'.0 w'.corr in
              let value : ReconFits domain_gf2 lanes_gf2 i j o x x' =
                recon_add-Fits domain_gf2 lanes_gf2 i j o _ _ _ _ p.value (fits.1 Fin.zero).corr in
              let q =
                more.echo (shift_in (into_bytes x') y.0, rest y.1)
                  (shift_in-lanes x x' z y.0 i j value.lane fits.0, λ k. fits.1 (Fin.suc k))
                  opened'.1 l p.agrees p.covers in
              record { value = q.value; agrees = q.agrees; covers = q.covers };
        }

    -- The verifier converts the same number.
    pub recon_gf2_to_z64-Echoes :
        (t : ProverTranscript domain_gf2) (ws : Array WireGf2 64)
        → Echoes domain_gf2 lanes_gf2 i j o LaneFits
            (recon_gf2_to_z64 (prover domain_gf2).reconstruct t ws)
            t
            (ArrayFits i j o ws)
            (λ ws' t'. recon_gf2_to_z64 (online domain_gf2).reconstruct t' ws')
    unfolding recon_gf2_to_z64
    recon_gf2_to_z64-Echoes t ws =
        let loop = recon_loop-Echoes 64 t (λ j. wrap 0) ws in
        record {
          said = loop.said;
          records = loop.records;
          keeps = loop.keeps;
          echo = λ ws' fits t' l agrees covers.
              let p = loop.echo ((λ j. wrap 0), ws') (refl, fits) t' l agrees covers in
              record { value = ap reverse_bits p.value; agrees = p.agrees; covers = p.covers };
        }
