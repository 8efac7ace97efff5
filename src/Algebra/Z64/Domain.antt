-- ===== src/Algebra/Z64/Domain.antt =====
-- algebra/z64/domain.rs and batch.rs: how shares and reconstructions combine, and the domain.
use reverie_ppr.Prelude.{ℕ, List, Fin, Array}
use reverie_ppr.Word.{U64, wrap, wrapping_add, wrapping_sub, wrapping_mul, u64_ring}
use reverie_ppr.Ring.Sum.{add_all}
use reverie_ppr.Crypto.{StreamCipher, Blake3}
use reverie_ppr.Crypto.Prg.{Prg, gen}
use reverie_ppr.Algebra.{Domain}
use reverie_ppr.Algebra.Z64.{ReconZ64, ShareZ64, BatchZ64}
use reverie_ppr.Algebra.Z64.Bytes.{from_le_bytes, next_chunk}
use reverie_ppr.Algebra.Z64.Recon
use reverie_ppr.Algebra.Z64.Share

-- `Mul<ReconZ64> for ShareZ64`: every player multiplies by the public value.
unfoldable pub share_mul : ShareZ64 → ReconZ64 → ShareZ64
share_mul s x i j = wrapping_mul (s i j) (x i)

-- `Add<ReconZ64>` and `Sub<ReconZ64>`: the first player alone adds the public value.
unfoldable pub share_add_recon : ShareZ64 → ReconZ64 → ShareZ64
share_add_recon s x i Fin.zero = wrapping_add (s i Fin.zero) (x i)
share_add_recon s x i (Fin.suc j) = s i (Fin.suc j)

unfoldable pub share_sub_recon : ShareZ64 → ReconZ64 → ShareZ64
share_sub_recon s x i Fin.zero = wrapping_sub (s i Fin.zero) (x i)
share_sub_recon s x i (Fin.suc j) = s i (Fin.suc j)

unfoldable pub reconstruct : ShareZ64 → ReconZ64
unfolding add_all
reconstruct s i = add_all 8 (wrap 0) (s i)

unfoldable pub batches_to_shares : Array (Array BatchZ64 8) 8 → Array ShareZ64 128
batches_to_shares from i j k = from j k i

unfoldable pub batch_zero : BatchZ64
batch_zero i = wrap 0

unfoldable pub batch_add : BatchZ64 → BatchZ64 → BatchZ64
batch_add x y i = wrapping_add (x i) (y i)

unfoldable pub batch_sub : BatchZ64 → BatchZ64 → BatchZ64
batch_sub x y i = wrapping_sub (x i) (y i)

unfoldable pub batch_mul : BatchZ64 → BatchZ64 → BatchZ64
batch_mul x y i = wrapping_mul (x i) (y i)

-- The words of a buffer of bytes, on a machine that stores them least significant byte first.
unfoldable pub words : (n : ℕ) → List ℕ → Array U64 n
unfolding next_chunk
words ℕ.zero bytes i = elim i [ ]
words (ℕ.suc n) bytes Fin.zero = from_le_bytes (next_chunk bytes).0
words (ℕ.suc n) bytes (Fin.suc i) = words n (next_chunk bytes).1 i

module _ ⦃c : StreamCipher⦄ ⦃b : Blake3⦄ where
  -- `Batch::random` fills the 128 words of the batch with 1024 generated bytes.
  unfoldable pub random : Prg → BatchZ64 × Prg
  unfolding words gen
  random prg = let (bytes, prg') = gen prg 1024 in (words 128 bytes, prg')

  abbrev pub domain_z64 : Domain
  domain_z64 = record {
    Batch = BatchZ64;
    Recon = ReconZ64;
    Share = ShareZ64;
    Const = U64;
    batch_default = batch_zero;
    random = random;
    recon_zero = Recon.recon_zero;
    recon_add = Recon.add;
    recon_sub = Recon.sub;
    recon_mul = Recon.mul;
    recon_is_zero = Recon.is_zero;
    recon_hash = Recon.hash;
    pack = Recon.pack;
    unpack = Recon.unpack;
    share_zero = Share.share_zero;
    share_add = Share.add;
    share_sub = Share.sub;
    share_mul = share_mul;
    share_hash = Share.hash;
    pack_selected = Share.pack_selected;
    unpack_selected = Share.unpack_selected;
    reconstruct = reconstruct;
    batches_to_shares = batches_to_shares;
    into = Recon.from;
  }
