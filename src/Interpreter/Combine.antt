-- ===== src/Interpreter/Combine.antt =====
-- interpreter/combine.rs: one repetition's machine over both domains, and the conversion between.
pub mod Conversion
pub mod Adder
pub mod Value
pub mod Parts
pub mod Wires
pub mod Traffic
pub mod Plain
pub mod Kept
pub mod View
pub mod Refinement
use reverie_ppr.Prelude.{
  ℕ, zero, suc, ◌+◌, ◌-◌, ◌<◌, Bool, List, [], ◌∷◌, ◌++◌, Fin, Array, push_front, length, replicate,
  Outcome, ok, panic, ◌>>=◌, read, write, map_ok,
}
use reverie_ppr.Ring.Sum.{rest}
use reverie_ppr.Word.{U64, wrap}
use reverie_ppr.Word.Bits.{bit, u64_or, u64_shl}
use reverie_ppr.Crypto.{StreamCipher, Blake3}
use reverie_ppr.Algebra.Z64.{ReconZ64}
use reverie_ppr.Algebra.Z64.Domain.{domain_z64}
use reverie_ppr.Algebra.Gf2.{ReconGf2, ShareGf2}
use reverie_ppr.Algebra.Gf2.Bytes.{from_bits}
use reverie_ppr.Algebra.Gf2.Recon.{into_bytes}
use reverie_ppr.Algebra.Gf2.Laws.{domain_gf2}
use reverie_ppr.Transcript.{Wire, Transcript, transcript_hash}
use reverie_ppr.Interpreter.{Operation}
use reverie_ppr.Interpreter.Single.{Instance, default_wire, op_add, op_mul, step}

-- `z64::BIT_SIZE`
abbrev pub bit_size : ℕ
bit_size = 64

-- `mcircuit::CombineOperation`, with the constructors that `step` matches.
pub data CombineOperation : Type 0 where
  size_hint : ℕ → ℕ → CombineOperation
  gf2_op : Operation Bool → CombineOperation
  z64_op : Operation U64 → CombineOperation
  b2a : ℕ → ℕ → CombineOperation

-- `u64::reverse_bits`
unfoldable pub reverse_bits : U64 → U64
unfolding wrap from_bits
reverse_bits x = wrap (from_bits 64 (λ i. bit (63 - i) x))

-- `z64_value[j] <<= 1; z64_value[j] |= gf2_value[j] as u64`
unfoldable pub shift_in : Array ℕ 8 → ReconZ64 → ReconZ64
unfolding u64_or u64_shl wrap
shift_in bits z j = u64_or (u64_shl (z j) 1) (wrap (bits j))

-- `&wires[k..k + n]`
unfoldable pub wires_from : {A : Type 0} (n : ℕ) → List A → ℕ → Outcome (Array A n)
unfolding read
wires_from zero wires k = ok (λ i. elim i [ ])
wires_from (suc n) wires k = do
  w ← read wires k
  more ← wires_from n wires (suc k)
  ok (push_front w more)

-- `Vec::resize` where that is longer.
unfoldable pub resize : {A : Type 0} → ℕ → A → List A → List A
resize size default wires = wires ++ replicate (size - length wires) default

module _ ⦃c : StreamCipher⦄ ⦃b : Blake3⦄ where
  abbrev pub WireGf2 : Type 0
  WireGf2 = Wire domain_gf2

  -- The loop of `recon_gf2_to_z64`; `recon` has a state.
  unfoldable pub recon_loop :
      {T : Type 0} (recon : T → ShareGf2 → ReconGf2 × T)
      → (n : ℕ) → T
      → ReconZ64
      → Array WireGf2 n
      → ReconZ64 × T
  unfolding shift_in into_bytes
  recon_loop recon zero t z wires = (z, t)
  recon_loop recon (suc n) t z wires =
      let (x, t1) = recon t (wires Fin.zero).mask in
      let bits = into_bytes (domain_gf2.recon_add x (wires Fin.zero).corr) in
      recon_loop recon n t1 (shift_in bits z) (rest wires)

  unfoldable pub recon_gf2_to_z64 :
      {T : Type 0} (recon : T → ShareGf2 → ReconGf2 × T) → T → Array WireGf2 64 → ReconZ64 × T
  unfolding recon_loop reverse_bits wrap
  recon_gf2_to_z64 recon t wires =
      let (z, t1) = recon_loop recon 64 t (λ j. wrap 0) wires in ((λ j. reverse_bits (z j)), t1)

  -- `gf2::Domain::reconstruct` leaves the state alone.
  unfoldable pub reconstruct_only : {T : Type 0} → T → ShareGf2 → ReconGf2 × T
  reconstruct_only t s = (domain_gf2.reconstruct s, t)

  module _ {T : Type 0} (tr : Transcript domain_gf2 T) where
    -- The rounds of `add_64` from the second bit on, with the carry, and its last line.
    unfoldable pub add_rounds :
        (n : ℕ)
        → T
        → WireGf2
        → Array WireGf2 (suc n)
        → Array WireGf2 (suc n)
        → Array WireGf2 (suc n) × T
    unfolding op_add op_mul
    add_rounds zero t carry a b =
        ((λ _. op_add domain_gf2 carry (op_add domain_gf2 (a Fin.zero) (b Fin.zero))), t)
    add_rounds (suc n) t carry a b =
        let ac = op_add domain_gf2 (a Fin.zero) carry in
        let bc = op_add domain_gf2 (b Fin.zero) carry in
        let (ac_bc, t1) = op_mul domain_gf2 tr t ac bc in
        let res = op_add domain_gf2 ac (b Fin.zero) in
        let carry' = op_add domain_gf2 ac_bc carry in
        let (more, t2) = add_rounds n t1 carry' (rest a) (rest b) in (push_front res more, t2)

    unfoldable pub add_64 : T → Array WireGf2 64 → Array WireGf2 64 → Array WireGf2 64 × T
    unfolding add_rounds op_add op_mul
    add_64 t a b =
        let (carry, t1) = op_mul domain_gf2 tr t (a Fin.zero) (b Fin.zero) in
        let res = op_add domain_gf2 (a Fin.zero) (b Fin.zero) in
        let (more, t2) = add_rounds 62 t1 carry (rest a) (rest b) in (push_front res more, t2)

    -- Wires with fresh masks and no corrections.
    unfoldable pub fresh_wires : (n : ℕ) → T → Array WireGf2 n × T
    fresh_wires zero t = ((λ i. elim i [ ]), t)
    fresh_wires (suc n) t =
        let (mask, t1) = tr.new_mask t in
        let (more, t2) = fresh_wires n t1 in
        (push_front (record { mask = mask; corr = domain_gf2.recon_zero }) more, t2)

  pub record CombineInstance (T1 T2 : Type 0) : Type 0 where
    pub gf2 : Instance domain_gf2 T1
    pub z64 : Instance domain_z64 T2

  module _ {T1 T2 : Type 0} where
    unfoldable pub combine_new :
        Instance domain_gf2 T1 → Instance domain_z64 T2 → CombineInstance T1 T2
    combine_new gf2 z64 = record { gf2 = gf2; z64 = z64 }

    unfoldable pub split : CombineInstance T1 T2 → Instance domain_gf2 T1 × Instance domain_z64 T2
    split s = (s.gf2, s.z64)

    module _ (tr1 : Transcript domain_gf2 T1) (tr2 : Transcript domain_z64 T2) where
      unfoldable pub combine_hash : CombineInstance T1 T2 → Array b.Digest 8
      unfolding transcript_hash
      combine_hash s i = b.finalize (
          b.update (b.update b.new (b.as_bytes (transcript_hash tr1 s.gf2.transcript i)))
            (b.as_bytes (transcript_hash tr2 s.z64.transcript i)))

      -- The mask of the result of `B2A` and the part that both sides compute before the addition.
      unfoldable pub share_random :
          CombineInstance T1 T2 → Array WireGf2 64 × Wire domain_z64 × T1 × T2
      unfolding fresh_wires recon_gf2_to_z64 reconstruct_only
      share_random s =
          let (gf2_wires, t1) = fresh_wires tr1 64 s.gf2.transcript in
          let (z64_value, t2) = recon_gf2_to_z64 reconstruct_only t1 gf2_wires in
          let (z64_mask, u1) = tr2.new_mask s.z64.transcript in
          let z64_mask_recon = domain_z64.reconstruct z64_mask in
          let (z64_corr, u2) = tr2.correction u1 (domain_z64.recon_sub z64_value z64_mask_recon) in
          (gf2_wires, record { mask = z64_mask; corr = z64_corr }, t2, u2)

      -- `B2A`: the integer that 64 wires are the bits of.
      unfoldable pub step_b2a : CombineInstance T1 T2 → ℕ → ℕ → Outcome (CombineInstance T1 T2)
      unfolding share_random wires_from add_64 recon_gf2_to_z64 write
      step_b2a s dst src =
          let (gf2_wires, z64_wire, t, u) = share_random s in
          wires_from 64 s.gf2.wires src >>= λ src_wires.
          let (gf2_add_res, t1) = add_64 tr1 t gf2_wires src_wires in
          let (z64_recon, t2) = recon_gf2_to_z64 tr1.reconstruct t1 gf2_add_res in
          let wire : Wire domain_z64 = record {
            mask = domain_z64.share_sub domain_z64.share_zero z64_wire.mask;
            corr = domain_z64.recon_sub z64_recon z64_wire.corr;
          } in
          write s.z64.wires dst wire >>= λ wires. ok (record {
            gf2 = record s.gf2 { transcript = t2 };
            z64 = record { transcript = u; wires = wires };
          })

      -- `CombineInstance::step`
      unfoldable pub combine_step :
          CombineInstance T1 T2 → CombineOperation → Outcome (CombineInstance T1 T2)
      unfolding resize default_wire step step_b2a
      combine_step s (size_hint z64 gf2) = ok (record {
        gf2 = record s.gf2 { wires = resize gf2 (default_wire domain_gf2) s.gf2.wires };
        z64 = record s.z64 { wires = resize z64 (default_wire domain_z64) s.z64.wires };
      })
      combine_step s (gf2_op op) = map_ok (λ g. record s { gf2 = g }) (step domain_gf2 tr1 s.gf2 op)
      combine_step s (z64_op op) = map_ok (λ z. record s { z64 = z }) (step domain_z64 tr2 s.z64 op)
      combine_step s (b2a dst src) = step_b2a s dst src
