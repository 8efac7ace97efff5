-- ===== src/Proof.antt =====
-- proof/mod.rs: which repetitions a challenge opens, and how the verifier puts the hashes back in
-- order. `Proof::new` is in Prove and `Proof::verify` in Verify.
pub mod Challenge
pub mod Order
pub mod Prove
pub mod Format
pub mod Assembled
pub mod Verify
pub mod Ordered
pub mod Complete
use reverie_ppr.Prelude.{
  ℕ, zero, suc, ◌+◌, ◌*◌, ◌-◌, List, [], ◌∷◌, Option, none, some, Bool, true, false, ◌&&◌, ◌==◌,
  if◌then◌else◌, length, Array, val, Outcome, ok, panic, ◌>>=◌, nothing_left,
}
use reverie_ppr.Crypto.{Blake3}
use reverie_ppr.Crypto.Hash.{BufferedHasher, hasher_new, update, finalize}
use reverie_ppr.Algebra.{players, packed}
use reverie_ppr.Transcript.Online.{OpenOnline}
use reverie_ppr.Transcript.Preprocess.{OpenPreprocessing}

abbrev pub online_reps : ℕ
online_reps = 40

abbrev pub total_reps : ℕ
total_reps = 256

abbrev pub preprocessing_reps : ℕ
preprocessing_reps = total_reps - online_reps

abbrev pub packed_reps : ℕ
packed_reps = 32

-- A `HashMap<usize, usize>`, as what its entries are: a repetition and its omitted player.
abbrev pub Openings : Type 0
Openings = List (ℕ × ℕ)

abbrev pub find : Openings → ℕ → Option ℕ
find [] key = none
find ((k, v) ∷ map) key = if k == key then some v else find map key

abbrev pub is_some : Option ℕ → Bool
is_some none = false
is_some (some v) = true

abbrev pub contains_key : Openings → ℕ → Bool
contains_key map key = is_some (find map key)

abbrev pub unwrap_or : ℕ → Option ℕ → ℕ
unwrap_or d none = d
unwrap_or d (some v) = v

-- The players to omit, batch by batch; `players` itself where a repetition is not opened.
unfoldable pub opening_to_packed : Openings → Array (Array ℕ packed) packed_reps
opening_to_packed map i j = unwrap_or players (find map (val i * packed + val j))

module _ ⦃b : Blake3⦄ where
  pub record ProofSingle : Type 0 where
    pub online : List OpenOnline
    pub preprocessing : List OpenPreprocessing

  unfoldable pub check_format : ProofSingle → Bool
  check_format p =
      (length p.online == online_reps) && (length p.preprocessing == preprocessing_reps)

  -- `for hash in hashes { hasher.update(hash.as_bytes()) }`
  unfoldable pub update_hashes : BufferedHasher → List b.Digest → BufferedHasher
  update_hashes h [] = h
  update_hashes h (hash ∷ hashes) = update_hashes (update h (b.as_bytes hash)) hashes

  unfoldable pub combine_hashes : List b.Digest → b.Digest
  unfolding update_hashes hasher_new finalize
  combine_hashes hashes = finalize (update_hashes hasher_new hashes)

module _ {A : Type 0} where
  -- `iter.next().unwrap()`
  unfoldable pub next_hash : List A → Outcome (A × List A)
  next_hash [] = panic nothing_left
  next_hash (x ∷ xs) = ok (x, xs)

  -- The next hash of a repetition that is opened online, or of one that is not.
  unfoldable pub pick_hash : Bool → List A → List A → Outcome (A × List A × List A)
  unfolding next_hash
  pick_hash true online preprocessing =
      next_hash online >>= λ (h, left). ok (h, left, preprocessing)
  pick_hash false online preprocessing =
      next_hash preprocessing >>= λ (h, left). ok (h, online, left)

  -- The loop of `verify` from repetition `i` on, over `n` repetitions.
  unfoldable pub order_hashes : Openings → ℕ → ℕ → List A → List A → Outcome (List A)
  unfolding pick_hash
  order_hashes opened i zero online preprocessing = ok []
  order_hashes opened i (suc n) online preprocessing = do
    (h, online, preprocessing) ← pick_hash (contains_key opened i) online preprocessing
    hashes ← order_hashes opened (i + 1) n online preprocessing
    ok (h ∷ hashes)
