-- ===== src/Algebra.antt =====
-- algebra/mod.rs: the traits `Recon`, `Share`, `Batch`, `Pack`, `PackSelected`, `Hashable` and
-- `Domain` as one record of operations, and the lanes by which a domain is described.
pub mod Codec
pub mod Gf2
pub mod Z64
use reverie_ppr.Prelude.{ℕ, ◌≡◌, ◌↔◌, Bool, true, List, [], ◌++◌, Fin, Array, Outcome}
use reverie_ppr.Ring.{Ring, ◌⊕◌, ◌⊖◌, ◌⊗◌}
use reverie_ppr.Ring.Sum.{total}
use reverie_ppr.Crypto.{StreamCipher, Blake3}
use reverie_ppr.Crypto.Prg.{Prg}
use reverie_ppr.Crypto.Hash.{PackedHasher, absorbed}

-- `PLAYERS`, `PACKED` and `BATCH_SIZE` of lib.rs.
abbrev pub players : ℕ
players = 8

abbrev pub packed : ℕ
packed = 8

abbrev pub batch_size : ℕ
batch_size = 128

module _ ⦃c : StreamCipher⦄ ⦃b : Blake3⦄ where
  pub record Domain : Type 1 where
    pub Batch : Type 0
    pub Recon : Type 0
    pub Share : Type 0
    pub Const : Type 0
    pub batch_default : Batch
    pub random : Prg → Batch × Prg
    pub recon_zero : Recon
    pub recon_add : Recon → Recon → Recon
    pub recon_sub : Recon → Recon → Recon
    pub recon_mul : Recon → Recon → Recon
    pub recon_is_zero : Recon → Bool
    pub recon_hash : Recon → PackedHasher → PackedHasher
    pub pack : Array (List ℕ) packed → List Recon → Array Bool packed → Array (List ℕ) packed
    pub unpack : List Recon → Array (List ℕ) packed → Outcome (List Recon)
    pub share_zero : Share
    pub share_add : Share → Share → Share
    pub share_sub : Share → Share → Share
    pub share_mul : Share → Recon → Share
    pub share_hash : Share → PackedHasher → PackedHasher
    pub pack_selected : Array (List ℕ) packed → List Share → Array ℕ packed → Array (List ℕ) packed
    pub unpack_selected : List Share → Array (List ℕ) packed → Array ℕ packed → Outcome (List Share)
    pub reconstruct : Share → Recon
    pub batches_to_shares : Array (Array Batch players) packed → Array Share batch_size
    pub into : Const → Recon

  -- A domain seen lane by lane: repetition `i` of a packed element is a ring element, or one
  -- for each player, and every operation acts on each repetition by itself. `IsValid` are the
  -- reconstructions that the code produces.
  pub record Lanes (D : Domain) : Type 1 where
    pub Lane : Type 0
    pub ring : Ring Lane
    pub recon_lane : D.Recon → Array Lane packed
    pub share_lane : D.Share → Fin packed → Array Lane players
    pub batch_lane : D.Batch → Array Lane batch_size
    pub const_lane : D.Const → Lane
    pub IsValid : D.Recon → Type 0
    pub recon_zero-lane : (i : Fin packed) → recon_lane D.recon_zero i ≡ ring.zero
    pub recon_add-lane :
        (x y : D.Recon) (i : Fin packed)
        → recon_lane (D.recon_add x y) i ≡ ring.add (recon_lane x i) (recon_lane y i)
    pub recon_sub-lane :
        (x y : D.Recon) (i : Fin packed)
        → recon_lane (D.recon_sub x y) i ≡ ring.sub (recon_lane x i) (recon_lane y i)
    pub recon_mul-lane :
        (x y : D.Recon) (i : Fin packed)
        → recon_lane (D.recon_mul x y) i ≡ ring.mul (recon_lane x i) (recon_lane y i)
    pub recon_ext :
        (x y : D.Recon)
        → IsValid x
        → IsValid y
        → ((i : Fin packed) → recon_lane x i ≡ recon_lane y i)
        → x ≡ y
    pub is_zero_iff :
        (x : D.Recon)
        → IsValid x
        → (D.recon_is_zero x ≡ true) ↔ ((i : Fin packed) → recon_lane x i ≡ ring.zero)
    pub into-lane : (k : D.Const) (i : Fin packed) → recon_lane (D.into k) i ≡ const_lane k
    pub share_zero-lane :
        (i : Fin packed) (p : Fin players) → share_lane D.share_zero i p ≡ ring.zero
    pub share_add-lane :
        (s t : D.Share) (i : Fin packed) (p : Fin players)
        → share_lane (D.share_add s t) i p ≡ ring.add (share_lane s i p) (share_lane t i p)
    pub share_sub-lane :
        (s t : D.Share) (i : Fin packed) (p : Fin players)
        → share_lane (D.share_sub s t) i p ≡ ring.sub (share_lane s i p) (share_lane t i p)
    pub share_mul-lane :
        (s : D.Share) (x : D.Recon)
        → IsValid x
        → (i : Fin packed) (p : Fin players)
        → share_lane (D.share_mul s x) i p ≡ ring.mul (share_lane s i p) (recon_lane x i)
    pub reconstruct-lane :
        (s : D.Share) (i : Fin packed)
        → recon_lane (D.reconstruct s) i ≡ total ⦃r = ring⦄ players (share_lane s i)
    pub batches_to_shares-lane :
        (from : Array (Array D.Batch players) packed) (k : Fin batch_size) (i : Fin packed)
        (p : Fin players)
        → share_lane (D.batches_to_shares from k) i p ≡ batch_lane (from i p) k
    pub batch_default-lane : (k : Fin batch_size) → batch_lane D.batch_default k ≡ ring.zero
    pub recon_zero-IsValid : IsValid D.recon_zero
    pub recon_add-IsValid : (x y : D.Recon) → IsValid x → IsValid y → IsValid (D.recon_add x y)
    pub recon_sub-IsValid : (x y : D.Recon) → IsValid x → IsValid y → IsValid (D.recon_sub x y)
    pub recon_mul-IsValid : (x y : D.Recon) → IsValid x → IsValid y → IsValid (D.recon_mul x y)
    pub reconstruct-IsValid : (s : D.Share) → IsValid (D.reconstruct s)
    pub into-IsValid : (k : D.Const) → IsValid (D.into k)
    -- What an element adds to the hash of repetition `i` depends on that repetition only.
    pub recon_bytes : Lane → List ℕ
    pub share_bytes : Array Lane players → List ℕ
    pub recon_hash-lane :
        (x : D.Recon) (h : PackedHasher) (i : Fin packed)
        → IsValid x
        → absorbed (D.recon_hash x h i) ≡ b.update (absorbed (h i)) (recon_bytes (recon_lane x i))
    pub share_hash-lane :
        (s : D.Share) (h : PackedHasher) (i : Fin packed)
        → absorbed (D.share_hash s h i) ≡ b.update (absorbed (h i)) (share_bytes (share_lane s i))
