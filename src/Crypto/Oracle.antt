-- ===== src/Crypto/Oracle.antt =====
-- crypto/ro.rs: the random oracle, over blake3's extendable output.
use reverie_ppr.Prelude.{ℕ, List, [], ◌∷◌}
use reverie_ppr.Crypto.{Blake3}

-- `finalize_xof`, and `fill` of the reader that it returns, on a buffer of the given length.
pub record Xof ⦃b : Blake3⦄ : Type 1 where
  pub Reader : Type 0
  pub finalize_xof : b.Hasher → Reader
  pub fill_reader : Reader → ℕ → List ℕ × Reader

module _ ⦃b : Blake3⦄ ⦃x : Xof⦄ where
  abbrev pub RandomOracle : Type 0
  RandomOracle = x.Reader

  unfoldable pub oracle_new : List ℕ → List ℕ → RandomOracle
  oracle_new ctx input = x.finalize_xof (b.update (b.update (b.update b.new ctx) (0 ∷ [])) input)

  unfoldable pub fill : RandomOracle → ℕ → List ℕ × RandomOracle
  fill ro n = x.fill_reader ro n
