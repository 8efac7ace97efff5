-- ===== src/Prelude/Indices.antt =====
-- The number of an index tells it apart.
use Prim.Native.Nat.{ℕ}
use mathlib.Core.Path.{◌≡◌}
use native.Mathlib.Omega.{arith}
use reverie_ppr.Prelude.Arrays.{Fin, val, same}
use reverie_ppr.Prelude.Lists.{◌==◌}

pub val-eqb : {n : ℕ} (i j : Fin n) → (val i == val j) ≡ same i j
val-eqb Fin.zero Fin.zero = ground arith
val-eqb Fin.zero (Fin.suc j) = ground arith
val-eqb (Fin.suc i) Fin.zero = ground arith
val-eqb (Fin.suc i) (Fin.suc j) = ground (arith, val-eqb i j)
