-- ===== src/Interpreter/Plain.antt =====
-- What a circuit means: the machine in the clear, on values, with no masks and no transcript.
-- It has no counterpart in the source; `Single/Prover.antt` relates the code to it.
use reverie_ppr.Prelude.{
  ℕ, suc, List, [], ◌∷◌, Outcome, ok, panic, ◌>>=◌, read, write, witness_too_short, witness_invalid,
  if◌then◌else◌,
}
use reverie_ppr.Crypto.{StreamCipher, Blake3}
use reverie_ppr.Algebra.{Domain}
use reverie_ppr.Interpreter.{
  Operation, input, random, add, sub, mul, add_const, sub_const, mul_const, assert_zero, constant,
}

module _ ⦃c : StreamCipher⦄ ⦃b : Blake3⦄ (D : Domain) where
  pub record Store : Type 0 where
    pub values : List D.Recon
    pub witness : List D.Recon

  unfoldable pub put : Store → ℕ → D.Recon → Outcome Store
  put s dst v = do values ← write s.values dst v; ok (record s { values = values })

  unfoldable pub take_input : Store → ℕ → List D.Recon → Outcome Store
  take_input s dst [] = panic witness_too_short
  take_input s dst (v ∷ witness) = put (record s { witness = witness }) dst v

  -- One gate; `draw` is the value that a random gate takes.
  unfoldable pub plain_step : D.Recon → Store → Operation D.Const → Outcome Store
  plain_step draw s (input dst) = take_input s dst s.witness
  plain_step draw s (add dst src1 src2) = do
    v ← read s.values src1
    w ← read s.values src2
    put s dst (D.recon_add v w)
  plain_step draw s (sub dst src1 src2) = do
    v ← read s.values src1
    w ← read s.values src2
    put s dst (D.recon_sub v w)
  plain_step draw s (mul dst src1 src2) = do
    v ← read s.values src1
    w ← read s.values src2
    put s dst (D.recon_mul v w)
  plain_step draw s (add_const dst src k) = do
    v ← read s.values src
    put s dst (D.recon_add v (D.into k))
  plain_step draw s (sub_const dst src k) = do
    v ← read s.values src
    put s dst (D.recon_sub v (D.into k))
  plain_step draw s (mul_const dst src k) = do
    v ← read s.values src
    put s dst (D.recon_mul v (D.into k))
  plain_step draw s (assert_zero src) = do
    v ← read s.values src
    if D.recon_is_zero v then ok s else panic witness_invalid
  plain_step draw s (random dst) = put s dst draw
  plain_step draw s (constant dst k) = put s dst (D.into k)

  -- A circuit; `draws k` is the draw of its gate `k`.
  unfoldable pub plain_run : (ℕ → D.Recon) → Store → List (Operation D.Const) → Outcome Store
  plain_run draws s [] = ok s
  plain_run draws s (op ∷ program) =
      plain_step (draws 0) s op >>= λ s'. plain_run (λ k. draws (suc k)) s' program
