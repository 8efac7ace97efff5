-- ===== src/Generator.antt =====
-- generator: the players' pseudorandom batches and the shares that they are cut into.
pub mod Omit
pub mod Keys
pub mod Batches
pub mod Redo
use mathlib.Core.Logic.{dite}
use native.Mathlib.Decide.{dec_lt}
use reverie_ppr.Prelude.{
  ℕ, ◌+◌, ◌<◌, Bool, true, false, ◌==◌, if◌then◌else◌, List, Fin, Array, val, fin,
}
use reverie_ppr.Crypto.{StreamCipher, Blake3, Key}
use reverie_ppr.Crypto.Prg.{Prg, prg_new}
use reverie_ppr.Algebra.{Domain, players, packed, batch_size}

module _ ⦃c : StreamCipher⦄ ⦃b : Blake3⦄ (D : Domain) where
  -- The generator of one repetition: a stream for each player but the omitted one, `omit`.
  pub record BatchGen : Type 0 where
    pub omit : ℕ
    pub prgs : Array Prg players

  unfoldable pub batch_gen_new : Array Key players → ℕ → BatchGen
  unfolding prg_new
  batch_gen_new keys omit = record { omit = omit; prgs = λ p. prg_new (keys p) }

  -- `BatchGen::gen`: the batch of the omitted player is left as it is, the others are refilled.
  unfoldable pub batch_gen : BatchGen → Array D.Batch players → BatchGen × Array D.Batch players
  batch_gen g batches = (
    record g { prgs = λ p. if val p == g.omit then g.prgs p else (D.random (g.prgs p)).1 },
    λ p. if val p == g.omit then batches p else (D.random (g.prgs p)).0,
  )

  pub record ShareGen : Type 0 where
    pub next_idx : ℕ
    pub shares : Array D.Share batch_size
    pub batches : Array (Array D.Batch players) packed
    pub gens : Array BatchGen packed

  -- The array of shares is zeroed memory until the first refill, and is not read before it.
  unfoldable pub new_from_batch_gen : Array BatchGen packed → ShareGen
  new_from_batch_gen gens = record {
    next_idx = batch_size;
    shares = λ k. D.share_zero;
    batches = λ i p. D.batch_default;
    gens = gens;
  }

  unfoldable pub share_gen_new : Array (Array Key players) packed → Array ℕ packed → ShareGen
  unfolding batch_gen_new new_from_batch_gen
  share_gen_new keys omit = new_from_batch_gen (λ i. batch_gen_new (keys i) (omit i))

  -- The refill of `ShareGen::next`.
  unfoldable pub refill : ShareGen → ShareGen
  refill g =
      let batches = λ (i : Fin packed). (batch_gen (g.gens i) (g.batches i)).1 in
      record {
        next_idx = 0;
        shares = D.batches_to_shares batches;
        batches = batches;
        gens = λ i. (batch_gen (g.gens i) (g.batches i)).0;
      }

  -- `ShareGen::next`; an index below the batch size needs no refill.
  unfoldable pub next : ShareGen → D.Share × ShareGen
  next g =
      dite (dec_lt g.next_idx batch_size)
        (λ h. (g.shares (fin batch_size g.next_idx h), record g { next_idx = g.next_idx + 1 }))
        (λ _. let g' = refill g in (g'.shares Fin.zero, record g' { next_idx = 1 }))
