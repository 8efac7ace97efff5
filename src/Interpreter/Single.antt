-- ===== src/Interpreter/Single.antt =====
-- interpreter/single.rs: one repetition's machine over a domain, for any transcript.
pub mod Value
pub mod Product
pub mod Prover
pub mod Valid
pub mod Traffic
pub mod Refinement
use reverie_ppr.Prelude.{ℕ, List, [], ◌∷◌, Array, Outcome, ok, panic, ◌>>=◌, read, write, replicate}
use reverie_ppr.Crypto.{StreamCipher, Blake3}
use reverie_ppr.Algebra.{Domain}
use reverie_ppr.Transcript.{Wire, Transcript}
use reverie_ppr.Interpreter.{
  Operation, input, random, add, sub, mul, add_const, sub_const, mul_const, assert_zero, constant,
}

module _ ⦃c : StreamCipher⦄ ⦃b : Blake3⦄ (D : Domain) where
  unfoldable pub default_wire : Wire D
  default_wire = record { mask = D.share_zero; corr = D.recon_zero }

  -- `Wire::value`
  unfoldable pub value : Wire D → D.Recon
  value w = D.recon_add (D.reconstruct w.mask) w.corr

  unfoldable pub op_add : Wire D → Wire D → Wire D
  op_add w v = record { mask = D.share_add w.mask v.mask; corr = D.recon_add w.corr v.corr }

  unfoldable pub op_sub : Wire D → Wire D → Wire D
  op_sub w v = record { mask = D.share_sub w.mask v.mask; corr = D.recon_sub w.corr v.corr }

  unfoldable pub op_add_const : Wire D → D.Recon → Wire D
  op_add_const w k = record w { corr = D.recon_add w.corr k }

  unfoldable pub op_sub_const : Wire D → D.Recon → Wire D
  op_sub_const w k = record w { corr = D.recon_sub w.corr k }

  unfoldable pub op_mul_const : Wire D → D.Recon → Wire D
  op_mul_const w k = record { mask = D.share_mul w.mask k; corr = D.recon_mul w.corr k }

  -- The share that the players broadcast for a product.
  unfoldable pub mul_share : Wire D → Wire D → D.Share → D.Share → D.Share
  mul_share w1 w2 mask_ab mask_new =
      D.share_sub
        (D.share_add (D.share_add (D.share_mul w2.mask w1.corr) (D.share_mul w1.mask w2.corr))
          mask_ab)
        mask_new

  pub record Instance (T : Type 0) : Type 0 where
    pub transcript : T
    pub wires : List (Wire D)

  unfoldable pub instance_new : {T : Type 0} → T → ℕ → Instance T
  unfolding default_wire
  instance_new t cells = record { transcript = t; wires = replicate cells default_wire }

  -- A wire is written and the transcript replaced.
  unfoldable pub assign : {T : Type 0} → Instance T → ℕ → Wire D × T → Outcome (Instance T)
  assign s dst (w, t) = do
    wires ← write s.wires dst w
    ok (record { transcript = t; wires = wires })

  module _ {T : Type 0} (tr : Transcript D T) where
    unfoldable pub op_mul : T → Wire D → Wire D → Wire D × T
    op_mul t w1 w2 =
        let (mask_ab, t1) = tr.new_mask t in
        let (mask_new, t2) = tr.new_mask t1 in
        let a = D.reconstruct w1.mask in
        let b = D.reconstruct w2.mask in
        let ab = D.reconstruct mask_ab in
        let (delta, t3) = tr.correction t2 (D.recon_sub (D.recon_mul a b) ab) in
        let (sum, t4) = tr.reconstruct t3 (mul_share w1 w2 mask_ab mask_new) in
        let recon = D.recon_add sum delta in
        (record { mask = mask_new; corr = D.recon_add recon (D.recon_mul w1.corr w2.corr) }, t4)

    -- `Instance::step`
    unfoldable pub step : Instance T → Operation D.Const → Outcome (Instance T)
    step s (input dst) = do r ← tr.input s.transcript; assign s dst r
    step s (add dst src1 src2) = do
      w1 ← read s.wires src1
      w2 ← read s.wires src2
      assign s dst (op_add w1 w2, s.transcript)
    step s (sub dst src1 src2) = do
      w1 ← read s.wires src1
      w2 ← read s.wires src2
      assign s dst (op_sub w1 w2, s.transcript)
    step s (mul dst src1 src2) = do
      w1 ← read s.wires src1
      w2 ← read s.wires src2
      assign s dst (op_mul s.transcript w1 w2)
    step s (add_const dst src k) = do
      w ← read s.wires src
      assign s dst (op_add_const w (D.into k), s.transcript)
    step s (sub_const dst src k) = do
      w ← read s.wires src
      assign s dst (op_sub_const w (D.into k), s.transcript)
    step s (mul_const dst src k) = do
      w ← read s.wires src
      assign s dst (op_mul_const w (D.into k), s.transcript)
    step s (assert_zero src) = do
      w ← read s.wires src
      let (m, t) = tr.reconstruct s.transcript w.mask
      t' ← tr.zero_check t (D.recon_add w.corr m)
      ok (record s { transcript = t' })
    step s (random dst) =
        let (mask, t) = tr.new_mask s.transcript in
        assign s dst (record { mask = mask; corr = D.recon_zero }, t)
    step s (constant dst k) =
        assign s dst (record { mask = D.share_zero; corr = D.into k }, s.transcript)

    -- `for op in program { instance.step(op) }`
    unfoldable pub run : Instance T → List (Operation D.Const) → Outcome (Instance T)
    run s [] = ok s
    run s (op ∷ program) = step s op >>= λ s'. run s' program
