-- ===== src/Replay/Combine/Parts.antt =====
-- interpreter/combine.rs: the parts of `B2A` on the online verifier's transcripts.
use reverie_ppr.Prelude.{ℕ, zero, suc, Fin, Array}
use reverie_ppr.Crypto.{StreamCipher, Blake3}
use reverie_ppr.Algebra.{players, packed}
use reverie_ppr.Algebra.Z64.{ReconZ64}
use reverie_ppr.Algebra.Z64.Domain.{domain_z64}
use reverie_ppr.Algebra.Z64.Laws.{lanes_z64}
use reverie_ppr.Algebra.Gf2.Laws.{domain_gf2, lanes_gf2}
use reverie_ppr.Transcript.{Wire}
use reverie_ppr.Transcript.Prover.{ProverTranscript, prover}
use reverie_ppr.Transcript.Online.{online}
use reverie_ppr.Interpreter.Combine.{WireGf2, fresh_wires, add_64}
use reverie_ppr.Interpreter.Combine.Parts.{open_sum, mask_wire, unmasked}
use reverie_ppr.Replay.{WireFits}
use reverie_ppr.Replay.Gates.{recon_zero-Fits, share_zero-Fits, share_sub-Fits, recon_sub-Fits}
use reverie_ppr.Replay.Product.{nothing, join, Records-trans, regroup}
use reverie_ppr.Replay.Machine.{nothing_recorded}
use reverie_ppr.Replay.Combine.Echo.{Echoes, new_mask-Echoes, correction-Echoes}
use reverie_ppr.Replay.Combine.Adder.{ArrayFits, push_front-Fits, add_64-Echoes}
use reverie_ppr.Replay.Combine.Conversion.{LaneFits, recon_gf2_to_z64-Echoes}

module _ ⦃c : StreamCipher⦄ ⦃b : Blake3⦄ (i j : Fin packed) (o : Fin players) where
  fresh_wires-Echoes :
      (n : ℕ) (t : ProverTranscript domain_gf2)
      → Echoes domain_gf2 lanes_gf2 i j o
          (ArrayFits i j o)
          (fresh_wires (prover domain_gf2) n t)
          {X = Unit {0}}
          t
          (λ _. Unit {0})
          (λ _ t'. fresh_wires (online domain_gf2) n t')
  unfolding fresh_wires
  fresh_wires-Echoes zero t = record {
    said = nothing domain_gf2;
    records = nothing_recorded domain_gf2 lanes_gf2 i j o t;
    keeps = λ valid. valid;
    echo = λ _ _ t' l agrees covers. record {
      value = λ k. elim k [ ];
      agrees = agrees;
      covers = covers;
    };
  }
  fresh_wires-Echoes (suc n) t =
      let first = new_mask-Echoes domain_gf2 lanes_gf2 i j o t in
      let more = fresh_wires-Echoes n ((prover domain_gf2).new_mask t).1 in
      record {
        said = join domain_gf2 first.said more.said;
        records = Records-trans domain_gf2 first.said more.said first.records more.records;
        keeps = λ valid. more.keeps (first.keeps valid);
        echo = λ _ _ t' l agrees covers.
            let p =
              first.echo tt tt t' (join domain_gf2 more.said l) agrees
                (regroup domain_gf2 lanes_gf2 i j o first.said more.said l covers) in
            let q = more.echo tt tt ((online domain_gf2).new_mask t').1 l p.agrees p.covers in
            record {
              value =
                  push_front-Fits i j o _ _ _ _
                    (record { mask = p.value; corr = recon_zero-Fits domain_gf2 lanes_gf2 i j o })
                    q.value;
              agrees = q.agrees;
              covers = q.covers;
            };
      }

  pub open_sum-Echoes :
      (t : ProverTranscript domain_gf2) (ws : Array WireGf2 64)
      → Echoes domain_gf2 lanes_gf2 i j o
          (LaneFits i j o)
          (open_sum (prover domain_gf2) (prover domain_z64) t ws)
          t
          (ArrayFits i j o ws)
          (λ ws' t'. open_sum (online domain_gf2) (online domain_z64) t' ws')
  unfolding open_sum
  open_sum-Echoes t ws =
      let fresh = fresh_wires (prover domain_gf2) 64 t in
      let sum = add_64 (prover domain_gf2) fresh.1 fresh.0 ws in
      let first = fresh_wires-Echoes 64 t in
      let second = add_64-Echoes i j o fresh.1 fresh.0 ws in
      let third = recon_gf2_to_z64-Echoes i j o sum.1 sum.0 in
      let later = join domain_gf2 second.said third.said in
      record {
        said = join domain_gf2 first.said later;
        records =
            Records-trans domain_gf2 first.said later first.records
              (Records-trans domain_gf2 second.said third.said second.records third.records);
        keeps = λ valid. third.keeps (second.keeps (first.keeps valid));
        echo = λ ws' fits t' l agrees covers.
            let fresh' = fresh_wires (online domain_gf2) 64 t' in
            let p =
              first.echo tt tt t' (join domain_gf2 later l) agrees
                (regroup domain_gf2 lanes_gf2 i j o first.said later l covers) in
            let q =
              second.echo (fresh'.0, ws') (p.value, fits) fresh'.1 (join domain_gf2 third.said l)
                p.agrees (regroup domain_gf2 lanes_gf2 i j o second.said third.said l p.covers) in
            let sum' = add_64 (online domain_gf2) fresh'.1 fresh'.0 ws' in
            let r = third.echo sum'.0 q.value sum'.1 l q.agrees q.covers in
            record { value = r.value; agrees = r.agrees; covers = r.covers };
      }

  -- The verifier's value of the mask means nothing.
  pub mask_wire-Echoes :
      (u : ProverTranscript domain_z64) (v : ReconZ64)
      → Echoes domain_z64 lanes_z64 i j o
          (WireFits domain_z64 lanes_z64 i j o)
          (mask_wire (prover domain_gf2) (prover domain_z64) u v)
          {X = ReconZ64}
          u
          (λ _. Unit {0})
          (λ v' u'. mask_wire (online domain_gf2) (online domain_z64) u' v')
  unfolding mask_wire lanes_z64
  mask_wire-Echoes u v =
      let mask = (prover domain_z64).new_mask u in
      let first = new_mask-Echoes domain_z64 lanes_z64 i j o u in
      let second =
        correction-Echoes domain_z64 lanes_z64 i j o mask.1
          (domain_z64.recon_sub v (domain_z64.reconstruct mask.0)) tt in
      record {
        said = join domain_z64 first.said second.said;
        records = Records-trans domain_z64 first.said second.said first.records second.records;
        keeps = λ valid. second.keeps (first.keeps valid);
        echo = λ v' _ u' l agrees covers.
            let p =
              first.echo tt tt u' (join domain_z64 second.said l) agrees
                (regroup domain_z64 lanes_z64 i j o first.said second.said l covers) in
            let mask' = (online domain_z64).new_mask u' in
            let q =
              second.echo (domain_z64.recon_sub v' (domain_z64.reconstruct mask'.0)) tt mask'.1 l
                p.agrees p.covers in
            record {
              value = record { mask = p.value; corr = q.value };
              agrees = q.agrees;
              covers = q.covers;
            };
      }

  pub unmasked-Fits :
      (x x' : ReconZ64) (w w' : Wire domain_z64)
      → LaneFits i j o x x'
      → WireFits domain_z64 lanes_z64 i j o w w'
      → WireFits domain_z64 lanes_z64 i j o
          (unmasked (prover domain_gf2) (prover domain_z64) x w)
          (unmasked (online domain_gf2) (online domain_z64) x' w')
  unfolding unmasked lanes_z64
  unmasked-Fits x x' w w' e f = record {
    mask =
        share_sub-Fits domain_z64 lanes_z64 i j o domain_z64.share_zero w.mask domain_z64.share_zero
          w'.mask (share_zero-Fits domain_z64 lanes_z64 i j o) f.mask;
    corr =
        recon_sub-Fits domain_z64 lanes_z64 i j o x w.corr x' w'.corr
          (record { lane = e; valid = tt; valid' = tt }) f.corr;
  }
