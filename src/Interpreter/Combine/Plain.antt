-- ===== src/Interpreter/Combine/Plain.antt =====
-- What a circuit over both domains means: the machine in the clear, on plain bits and integers. It
-- has no counterpart in the source.
use reverie_ppr.Prelude.{ℕ, suc, List, [], ◌∷◌, Array, Outcome, ok, ◌>>=◌, map_ok}
use reverie_ppr.Word.{wrap}
use reverie_ppr.Crypto.{StreamCipher, Blake3}
use reverie_ppr.Algebra.Z64.{ReconZ64}
use reverie_ppr.Algebra.Z64.Domain.{domain_z64}
use reverie_ppr.Algebra.Gf2.{ReconGf2}
use reverie_ppr.Algebra.Gf2.Laws.{recon_lane, domain_gf2}
use reverie_ppr.Interpreter.Plain.{Store, put, plain_step}
use reverie_ppr.Interpreter.Single.Prover.{draw}
use reverie_ppr.Interpreter.Combine.{
  CombineOperation, size_hint, gf2_op, z64_op, b2a, resize, wires_from,
}
use reverie_ppr.Interpreter.Combine.Conversion.{number_of}

module _ ⦃c : StreamCipher⦄ ⦃b : Blake3⦄ where
  -- Plain bits and plain integers.
  pub record Stores : Type 0 where
    pub gf2 : Store domain_gf2
    pub z64 : Store domain_z64

  -- The integers whose bits, the lowest first, some bits are, repetition by repetition.
  abbrev pub integer : Array ReconGf2 64 → ReconZ64
  integer bits r = wrap (number_of 64 (λ i. recon_lane (bits i) r))

  -- What the operations mean; a random gate takes the draw of its domain.
  unfoldable pub plain_combine : ReconGf2 × ReconZ64 → Stores → CombineOperation → Outcome Stores
  unfolding plain_step put wires_from resize
  plain_combine draw s (size_hint z64 gf2) = ok (record {
    gf2 = record s.gf2 { values = resize gf2 domain_gf2.recon_zero s.gf2.values };
    z64 = record s.z64 { values = resize z64 domain_z64.recon_zero s.z64.values };
  })
  plain_combine draw s (gf2_op op) =
      map_ok (λ g. record s { gf2 = g }) (plain_step domain_gf2 draw.0 s.gf2 op)
  plain_combine draw s (z64_op op) =
      map_ok (λ z. record s { z64 = z }) (plain_step domain_z64 draw.1 s.z64 op)
  plain_combine draw s (b2a dst src) = do
    bits ← wires_from 64 s.gf2.values src
    z64 ← put domain_z64 s.z64 dst (integer bits)
    ok (record s { z64 = z64 })

  unfoldable pub plain_run_combined :
      (ℕ → ReconGf2 × ReconZ64) → Stores → List CombineOperation → Outcome Stores
  unfolding plain_combine
  plain_run_combined draws s [] = ok s
  plain_run_combined draws s (op ∷ circuit) =
      plain_combine (draws 0) s op >>= λ s'. plain_run_combined (λ k. draws (suc k)) s' circuit
