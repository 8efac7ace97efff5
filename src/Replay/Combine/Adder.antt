-- ===== src/Replay/Combine/Adder.antt =====
-- interpreter/combine.rs: `add_64` on the online verifier's transcript.
use reverie_ppr.Prelude.{ℕ, zero, suc, Fin, Array, push_front}
use reverie_ppr.Ring.Sum.{rest}
use reverie_ppr.Crypto.{StreamCipher, Blake3}
use reverie_ppr.Algebra.{players, packed}
use reverie_ppr.Algebra.Gf2.Laws.{domain_gf2, lanes_gf2}
use reverie_ppr.Transcript.Prover.{ProverTranscript, prover}
use reverie_ppr.Transcript.Online.{online}
use reverie_ppr.Interpreter.Single.{op_add, op_mul}
use reverie_ppr.Interpreter.Combine.{WireGf2, add_rounds, add_64}
use reverie_ppr.Replay.{WireFits}
use reverie_ppr.Replay.Gates.{op_add-Fits}
use reverie_ppr.Replay.Product.{nothing, join, Records-trans, regroup}
use reverie_ppr.Replay.Machine.{nothing_recorded}
use reverie_ppr.Replay.Combine.Echo.{Echoes, op_mul-Echoes}

module _ ⦃c : StreamCipher⦄ ⦃b : Blake3⦄ (i j : Fin packed) (o : Fin players) where
  abbrev Fits : WireGf2 → WireGf2 → Type 0
  Fits = WireFits domain_gf2 lanes_gf2 i j o

  abbrev pub ArrayFits : {n : ℕ} → Array WireGf2 n → Array WireGf2 n → Type 0
  ArrayFits {n} ws ws' = (k : Fin n) → Fits (ws k) (ws' k)

  pub push_front-Fits :
      {n : ℕ} (w w' : WireGf2) (ws ws' : Array WireGf2 n)
      → Fits w w'
      → ArrayFits ws ws'
      → ArrayFits (push_front w ws) (push_front w' ws')
  push_front-Fits w w' ws ws' f g Fin.zero = f
  push_front-Fits w w' ws ws' f g (Fin.suc k) = g k

  add-Fits :
      {w w' v v' : WireGf2}
      → Fits w w'
      → Fits v v'
      → Fits (op_add domain_gf2 w v) (op_add domain_gf2 w' v')
  add-Fits {w} {w'} {v} {v'} f g = op_add-Fits domain_gf2 lanes_gf2 i j o w w' v v' f g

  -- The carry and the summands on the verifier's side.
  record Summands (n : ℕ) : Type 0 where
    carry : WireGf2
    left : Array WireGf2 n
    right : Array WireGf2 n

  record SummandsFit {n : ℕ} (x x' : Summands n) : Type 0 where
    carry : Fits x.carry x'.carry
    left : ArrayFits x.left x'.left
    right : ArrayFits x.right x'.right

  add_rounds-Echoes :
      (n : ℕ) (t : ProverTranscript domain_gf2) (x : Summands (suc n))
      → Echoes domain_gf2 lanes_gf2 i j o ArrayFits
          (add_rounds (prover domain_gf2) n t x.carry x.left x.right)
          t
          (SummandsFit x)
          (λ x' t'. add_rounds (online domain_gf2) n t' x'.carry x'.left x'.right)
  unfolding add_rounds
  add_rounds-Echoes zero t x = record {
    said = nothing domain_gf2;
    records = nothing_recorded domain_gf2 lanes_gf2 i j o t;
    keeps = λ valid. valid;
    echo = λ x' fits t' l agrees covers. record {
      value = λ k. add-Fits fits.carry (add-Fits (fits.left Fin.zero) (fits.right Fin.zero));
      agrees = agrees;
      covers = covers;
    };
  }
  add_rounds-Echoes (suc n) t x =
      let ac = op_add domain_gf2 (x.left Fin.zero) x.carry in
      let bc = op_add domain_gf2 (x.right Fin.zero) x.carry in
      let product = op_mul domain_gf2 (prover domain_gf2) t ac bc in
      let first = op_mul-Echoes domain_gf2 lanes_gf2 i j o t ac bc in
      let above : Summands (suc n) = record {
        carry = op_add domain_gf2 product.0 x.carry;
        left = rest x.left;
        right = rest x.right;
      } in
      let more = add_rounds-Echoes n product.1 above in
      record {
        said = join domain_gf2 first.said more.said;
        records = Records-trans domain_gf2 first.said more.said first.records more.records;
        keeps = λ valid. more.keeps (first.keeps valid);
        echo = λ x' fits t' l agrees covers.
            let ac' = op_add domain_gf2 (x'.left Fin.zero) x'.carry in
            let bc' = op_add domain_gf2 (x'.right Fin.zero) x'.carry in
            let ac_fits : Fits ac ac' = add-Fits (fits.left Fin.zero) fits.carry in
            let bc_fits : Fits bc bc' = add-Fits (fits.right Fin.zero) fits.carry in
            let p =
              first.echo (ac', bc') (ac_fits, bc_fits) t' (join domain_gf2 more.said l) agrees
                (regroup domain_gf2 lanes_gf2 i j o first.said more.said l covers) in
            let product' = op_mul domain_gf2 (online domain_gf2) t' ac' bc' in
            let q =
              more.echo
                (record {
                  carry = op_add domain_gf2 product'.0 x'.carry;
                  left = rest x'.left;
                  right = rest x'.right;
                })
                (record {
                  carry = add-Fits p.value fits.carry;
                  left = λ k. fits.left (Fin.suc k);
                  right = λ k. fits.right (Fin.suc k);
                })
                product'.1 l p.agrees p.covers in
            record {
              value = push_front-Fits _ _ _ _ (add-Fits ac_fits (fits.right Fin.zero)) q.value;
              agrees = q.agrees;
              covers = q.covers;
            };
      }

  pub add_64-Echoes :
      (t : ProverTranscript domain_gf2) (a b : Array WireGf2 64)
      → Echoes domain_gf2 lanes_gf2 i j o ArrayFits
          (add_64 (prover domain_gf2) t a b)
          {X = Array WireGf2 64 × Array WireGf2 64}
          t
          (λ x. ArrayFits a x.0 × ArrayFits b x.1)
          (λ x t'. add_64 (online domain_gf2) t' x.0 x.1)
  unfolding add_64
  add_64-Echoes t a b =
      let product = op_mul domain_gf2 (prover domain_gf2) t (a Fin.zero) (b Fin.zero) in
      let first = op_mul-Echoes domain_gf2 lanes_gf2 i j o t (a Fin.zero) (b Fin.zero) in
      let above : Summands 63 = record { carry = product.0; left = rest a; right = rest b } in
      let more = add_rounds-Echoes 62 product.1 above in
      record {
        said = join domain_gf2 first.said more.said;
        records = Records-trans domain_gf2 first.said more.said first.records more.records;
        keeps = λ valid. more.keeps (first.keeps valid);
        echo = λ x fits t' l agrees covers.
            let p =
              first.echo (x.0 Fin.zero, x.1 Fin.zero) (fits.0 Fin.zero, fits.1 Fin.zero) t'
                (join domain_gf2 more.said l) agrees
                (regroup domain_gf2 lanes_gf2 i j o first.said more.said l covers) in
            let product' = op_mul domain_gf2 (online domain_gf2) t' (x.0 Fin.zero) (x.1 Fin.zero) in
            let q =
              more.echo (record { carry = product'.0; left = rest x.0; right = rest x.1 })
                (record {
                  carry = p.value;
                  left = λ k. fits.0 (Fin.suc k);
                  right = λ k. fits.1 (Fin.suc k);
                })
                product'.1 l p.agrees p.covers in
            record {
              value =
                  push_front-Fits _ _ _ _ (add-Fits (fits.0 Fin.zero) (fits.1 Fin.zero)) q.value;
              agrees = q.agrees;
              covers = q.covers;
            };
      }
