-- ===== src/Redo/Combine/Adder.antt =====
-- interpreter/combine.rs: `add_64` on the preprocessing verifier's transcript: the masks.
use reverie_ppr.Prelude.{ℕ, zero, suc, Fin, Array, push_front}
use reverie_ppr.Ring.Sum.{rest}
use reverie_ppr.Crypto.{StreamCipher, Blake3}
use reverie_ppr.Algebra.{packed}
use reverie_ppr.Algebra.Gf2.Laws.{domain_gf2, lanes_gf2}
use reverie_ppr.Transcript.Prover.{ProverTranscript, prover}
use reverie_ppr.Transcript.Preprocess.{PreprocessTranscript, preprocess}
use reverie_ppr.Interpreter.Single.{op_add}
use reverie_ppr.Interpreter.Combine.{WireGf2, add_rounds, add_64}
use reverie_ppr.Redo.{SameMask, Follows}
use reverie_ppr.Redo.Gates.{share_add-Same, op_mul-Follows}

module _ ⦃c : StreamCipher⦄ ⦃b : Blake3⦄ (i j : Fin packed) (comms : Array b.Digest packed) where
  abbrev Same : WireGf2 → WireGf2 → Type 0
  Same = SameMask domain_gf2 lanes_gf2 i j comms

  abbrev pub ArraySame : {n : ℕ} → Array WireGf2 n → Array WireGf2 n → Type 0
  ArraySame {n} ws ws' = (k : Fin n) → Same (ws k) (ws' k)

  pub push_front-Same :
      {n : ℕ} (w w' : WireGf2) (ws ws' : Array WireGf2 n)
      → Same w w'
      → ArraySame ws ws'
      → ArraySame (push_front w ws) (push_front w' ws')
  push_front-Same w w' ws ws' f g Fin.zero = f
  push_front-Same w w' ws ws' f g (Fin.suc k) = g k

  add-Same :
      {w w' v v' : WireGf2}
      → Same w w'
      → Same v v'
      → Same (op_add domain_gf2 w v) (op_add domain_gf2 w' v')
  unfolding op_add
  add-Same {w} {w'} {v} {v'} f g = record {
    mask = share_add-Same domain_gf2 lanes_gf2 i j w.mask v.mask w'.mask v'.mask f.mask g.mask;
  }

  add_rounds-Redone :
      (n : ℕ) (t : ProverTranscript domain_gf2) (t' : PreprocessTranscript domain_gf2)
      (carry carry' : WireGf2) (x x' y y' : Array WireGf2 (suc n))
      → Follows domain_gf2 lanes_gf2 i j comms t t'
      → Same carry carry'
      → ArraySame x x'
      → ArraySame y y'
      → ArraySame
          (add_rounds (prover domain_gf2) n t carry x y).0
          (add_rounds (preprocess domain_gf2) n t' carry' x' y').0
        × Follows domain_gf2 lanes_gf2 i j comms
            (add_rounds (prover domain_gf2) n t carry x y).1
            (add_rounds (preprocess domain_gf2) n t' carry' x' y').1
  unfolding add_rounds
  add_rounds-Redone zero t t' carry carry' x x' y y' m f g h =
      ((λ k. add-Same f (add-Same (g Fin.zero) (h Fin.zero))), m)
  add_rounds-Redone (suc n) t t' carry carry' x x' y y' m f g h =
      let ac : Same (op_add domain_gf2 (x Fin.zero) carry)
          (op_add domain_gf2 (x' Fin.zero) carry') =
        add-Same (g Fin.zero) f in
      let bc : Same (op_add domain_gf2 (y Fin.zero) carry)
          (op_add domain_gf2 (y' Fin.zero) carry') =
        add-Same (h Fin.zero) f in
      let (product, m1) = op_mul-Follows domain_gf2 lanes_gf2 i j comms t t' _ _ _ _ m ac bc in
      let (above, m2) =
        add_rounds-Redone n _ _ _ _ (rest x) (rest x') (rest y) (rest y') m1 (add-Same product f)
          (λ k. g (Fin.suc k)) (λ k. h (Fin.suc k)) in
      (push_front-Same _ _ _ _ (add-Same ac (h Fin.zero)) above, m2)

  pub add_64-Redone :
      (t : ProverTranscript domain_gf2) (t' : PreprocessTranscript domain_gf2)
      (x x' y y' : Array WireGf2 64)
      → Follows domain_gf2 lanes_gf2 i j comms t t'
      → ArraySame x x'
      → ArraySame y y'
      → ArraySame (add_64 (prover domain_gf2) t x y).0 (add_64 (preprocess domain_gf2) t' x' y').0
        × Follows domain_gf2 lanes_gf2 i j comms
            (add_64 (prover domain_gf2) t x y).1
            (add_64 (preprocess domain_gf2) t' x' y').1
  unfolding add_64
  add_64-Redone t t' x x' y y' m g h =
      let (product, m1) =
        op_mul-Follows domain_gf2 lanes_gf2 i j comms t t' (x Fin.zero) (y Fin.zero) (x' Fin.zero)
          (y' Fin.zero) m (g Fin.zero) (h Fin.zero) in
      let (above, m2) =
        add_rounds-Redone 62 _ _ _ _ (rest x) (rest x') (rest y) (rest y') m1 product
          (λ k. g (Fin.suc k)) (λ k. h (Fin.suc k)) in
      (push_front-Same _ _ _ _ (add-Same (g Fin.zero) (h Fin.zero)) above, m2)
