-- ===== src/Crypto/Hash.antt =====
-- crypto/hash.rs: the hasher that buffers what it is given, and the eight of a packed batch.
use reverie_ppr.Prelude.{
  ap, ℕ, ◌^◌, ◌<◌, ◌≡◌, sym, ◌∙◌, List, [], ◌∷◌, ◌++◌, length, length-append, leb, arith, ◌+◌, ◌≤◌,
  if◌then◌else◌, Array, inl, inr, Bool-cases,
}
use reverie_ppr.Crypto.{Blake3}

abbrev pub buffer_size : ℕ
buffer_size = 2 ^ 16

abbrev pub buffer_slack : ℕ
buffer_slack = 128

module _ ⦃b : Blake3⦄ where
  pub record BufferedHasher : Type 0 where
    pub hasher : b.Hasher
    pub buffer : List ℕ

  unfoldable pub hasher_new : BufferedHasher
  hasher_new = record { hasher = b.new; buffer = [] }

  -- The end of `push` and of `update`: a full buffer is fed to the hasher and cleared.
  unfoldable pub flush : BufferedHasher → BufferedHasher
  flush h =
      if leb buffer_size (length h.buffer)
      then record { hasher = b.update h.hasher h.buffer; buffer = [] }
      else h

  unfoldable pub push : BufferedHasher → ℕ → BufferedHasher
  unfolding flush
  push h x = flush (record h { buffer = h.buffer ++ x ∷ [] })

  unfoldable pub update : BufferedHasher → List ℕ → BufferedHasher
  unfolding flush
  update h buf = flush (record h { buffer = h.buffer ++ buf })

  unfoldable pub finalize : BufferedHasher → b.Digest
  finalize h = b.finalize (b.update h.hasher h.buffer)

  abbrev pub PackedHasher : Type 0
  PackedHasher = Array BufferedHasher 8

  unfoldable pub packed_new : PackedHasher
  unfolding hasher_new
  packed_new i = hasher_new

  unfoldable pub packed_finalize : PackedHasher → Array b.Digest 8
  unfolding finalize
  packed_finalize h i = finalize (h i)

  -- The state of the wrapped hasher once the buffer is fed to it.
  abbrev pub absorbed : BufferedHasher → b.Hasher
  absorbed h = b.update h.hasher h.buffer

  absorbed-flush : (h : BufferedHasher) → absorbed (flush h) ≡ absorbed h
  unfolding flush
  absorbed-flush h = elim (Bool-cases (leb buffer_size (length h.buffer))) [
    | inl full ↦ rw full (b.update_nil _)
    | inr room ↦ rw room
  ]

  -- Buffering is invisible: `update` has the effect on the hashed stream that an immediate
  -- `update` of the wrapped hasher has.
  pub absorbed-update :
      (h : BufferedHasher) (buf : List ℕ) → absorbed (update h buf) ≡ b.update (absorbed h) buf
  unfolding update
  absorbed-update h buf =
      absorbed-flush (record h { buffer = h.buffer ++ buf })
      ∙ sym (b.update_append h.hasher h.buffer buf)

  pub absorbed-push :
      (h : BufferedHasher) (x : ℕ) → absorbed (push h x) ≡ b.update (absorbed h) (x ∷ [])
  unfolding push
  absorbed-push h x =
      absorbed-flush (record h { buffer = h.buffer ++ x ∷ [] })
      ∙ sym (b.update_append h.hasher h.buffer (x ∷ []))

  -- `update` for each of a sequence of slices.
  abbrev pub update_each : BufferedHasher → List (List ℕ) → BufferedHasher
  update_each h [] = h
  update_each h (buf ∷ bufs) = update_each (update h buf) bufs

  abbrev pub concat : List (List ℕ) → List ℕ
  concat [] = []
  concat (buf ∷ bufs) = buf ++ concat bufs

  absorbed-update_each :
      (bufs : List (List ℕ)) (h : BufferedHasher)
      → absorbed (update_each h bufs) ≡ b.update (absorbed h) (concat bufs)
  absorbed-update_each [] h = sym (b.update_nil _)
  absorbed-update_each (buf ∷ bufs) h =
      absorbed-update_each bufs (update h buf)
      ∙ ap (λ t. b.update t (concat bufs)) (absorbed-update h buf)
      ∙ b.update_append _ _ _

  -- Buffering is invisible: however a stream is cut into slices, a new buffered hasher that is
  -- updated with the slices in order finalizes to what the wrapped hasher makes of the whole
  -- stream in one update.
  pub finalize-update_each :
      (bufs : List (List ℕ))
      → finalize (update_each hasher_new bufs) ≡ b.finalize (b.update b.new (concat bufs))
  unfolding finalize hasher_new
  finalize-update_each bufs = ap b.finalize (
      absorbed-update_each bufs hasher_new
      ∙ ap (λ t. b.update t (concat bufs)) (b.update_nil b.new))

  flush-Bounded : (h : BufferedHasher) → length (flush h).buffer < buffer_size
  unfolding flush
  flush-Bounded h = elim (Bool-cases (leb buffer_size (length h.buffer))) [
    | inl full ↦ rw full (omega arith)
    | inr room ↦ rw room (ground (arith, room))
  ]

  -- From a buffer below its threshold, an update with at most `buffer_slack` bytes and a push
  -- leave a buffer below the threshold again, and the bytes that are buffered before the threshold
  -- is tested fit the capacity that `new` reserves.
  pub update-Bounded :
      (h : BufferedHasher) (buf : List ℕ) (x : ℕ)
      → length h.buffer < buffer_size
      → length buf ≤ buffer_slack
      → (length (update h buf).buffer < buffer_size)
        × (length (push h x).buffer < buffer_size)
        × (length (h.buffer ++ buf) < buffer_size + buffer_slack)
  unfolding update push
  update-Bounded h buf x below slack = (
    flush-Bounded (record h { buffer = h.buffer ++ buf }),
    flush-Bounded (record h { buffer = h.buffer ++ x ∷ [] }),
    omega (arith, length-append h.buffer buf),
  )
