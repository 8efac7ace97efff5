-- ===== src/Algebra/Gf2.antt =====
-- algebra/gf2: packed elements of the field of two elements.
pub mod Bytes
pub mod Boolean
pub mod Recon
pub mod Share
pub mod Transpose
pub mod Registers
pub mod Columns
pub mod Parity
pub mod Domain
pub mod Pack
pub mod Packing
pub mod Laws
pub mod Linear
use reverie_ppr.Prelude.{ℕ, Array}
use reverie_ppr.Word.{U64}

-- `ReconGF2`, `ShareGF2` and `BatchGF2` are their field `pack`.
abbrev pub ReconGf2 : Type 0
ReconGf2 = U64

abbrev pub ShareGf2 : Type 0
ShareGf2 = U64

abbrev pub BatchGf2 : Type 0
BatchGf2 = Array ℕ 16
