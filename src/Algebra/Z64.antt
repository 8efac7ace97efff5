-- ===== src/Algebra/Z64.antt =====
-- algebra/z64: packed elements of the ring of integers modulo 2 ^ 64.
pub mod Bytes
pub mod Recon
pub mod Share
pub mod Domain
pub mod Laws
pub mod Packing
pub mod Linear
use reverie_ppr.Prelude.{Array}
use reverie_ppr.Word.{U64}

-- `ReconZ64`, `ShareZ64` and `BatchZ64` are their field `pack`.
abbrev pub ReconZ64 : Type 0
ReconZ64 = Array U64 8

abbrev pub ShareZ64 : Type 0
ShareZ64 = Array (Array U64 8) 8

abbrev pub BatchZ64 : Type 0
BatchZ64 = Array U64 128
