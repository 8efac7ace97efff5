-- ===== src/Replay/Combine/Accepts.antt =====
-- proof/mod.rs, `Proof::verify`: the run of a batch of openings of an honest prover.
use reverie_ppr.Prelude.{
  ℕ, ◌≡◌, refl, sym, ◌∙◌, ap, map, All, Bool, Fin, Array, List, [], ◌∷◌, ok, >>=-eq-ok,
  ok_injective, val,
}
use reverie_ppr.Word.{U64}
use reverie_ppr.Crypto.{StreamCipher, Blake3, Key}
use reverie_ppr.Algebra.{Domain, Lanes, players, packed}
use reverie_ppr.Algebra.Z64.Domain.{domain_z64}
use reverie_ppr.Algebra.Z64.Laws.{lanes_z64}
use reverie_ppr.Algebra.Z64.Packing.{codec_z64}
use reverie_ppr.Algebra.Gf2.Laws.{domain_gf2, lanes_gf2}
use reverie_ppr.Algebra.Gf2.Packing.{codec_gf2}
use reverie_ppr.Transcript.Prover.{prover, prover_new}
use reverie_ppr.Transcript.Online.{OpenOnline, online}
use reverie_ppr.Transcript.Extract.{opening}
use reverie_ppr.Interpreter.Single.{instance_new}
use reverie_ppr.Interpreter.Single.Refinement.{start, start-IsValid}
use reverie_ppr.Interpreter.Combine.{CombineOperation, combine_new, combine_hash}
use reverie_ppr.Proof.Prove.{Executed, run_combined, execute}
use reverie_ppr.Proof.Verify.{run_online}
use reverie_ppr.Replay.Product.{nothing}
use reverie_ppr.Replay.Opening.{OneFormat, opened_start}
use reverie_ppr.Replay.Combine.{CombineProver, CombineOnline}
use reverie_ppr.Replay.Combine.Run.{run_combined-Follows, combine_hash-Fits}

module _ ⦃c : StreamCipher⦄ ⦃b : Blake3⦄ where
  pub into-All : (D : Domain) (L : Lanes D) (ks : List D.Const) → All L.IsValid (map D.into ks)
  into-All D L [] = tt
  into-All D L (k ∷ ks) = (L.into-IsValid k, into-All D L ks)

  module _ (circuit : List CombineOperation) (wit_gf2 : List Bool) (wit_z64 : List U64)
      (z64_count gf2_count : ℕ) (keys : Array Key packed) where
    -- The prover's machine over both domains at the start.
    abbrev pub combine_start : CombineProver
    combine_start =
        combine_new (start domain_gf2 (map domain_gf2.into wit_gf2) keys gf2_count)
          (start domain_z64 (map domain_z64.into wit_z64) keys z64_count)

    -- What a batch of repetitions leaves, it leaves of a machine.
    pub execute-eq-ok :
        {executed : Executed}
        → execute circuit wit_gf2 wit_z64 z64_count gf2_count keys ≡ ok executed
        → (u : CombineProver) × (run_combined
              (prover domain_gf2)
              (prover domain_z64)
              combine_start
              circuit
            ≡ ok u)
          × ((
            combine_hash (prover domain_gf2) (prover domain_z64) u,
            u.gf2.transcript,
            u.z64.transcript,
          )
              ≡ executed)
    unfolding execute
    execute-eq-ok e =
        let (u, e₁, e₂) =
          >>=-eq-ok (run_combined (prover domain_gf2) (prover domain_z64) combine_start circuit) _
            e in
        (u, e₁, ok_injective e₂)

    -- Completeness of an opened repetition in both domains: where a run of a circuit, conversions
    -- included, does not panic on the prover's side, where openings `j` of a batch are in both
    -- domains the ones that `extract` makes of the prover's repetition `i` with player `o`
    -- omitted, and where the openings of each domain are of one format, the verifier's run of the
    -- batch does not panic, and returns for repetition `j` the hash that the prover has of
    -- repetition `i`.
    pub run_online-accepts :
        (i j : Fin packed) (o : Fin players) (omits : Array ℕ packed)
        (gf2 z64 : Array OpenOnline packed) {executed : Executed}
        → execute circuit wit_gf2 wit_z64 z64_count gf2_count keys ≡ ok executed
        → omits i ≡ val o
        → gf2 j ≡ opening domain_gf2 executed.1 omits i
        → z64 j ≡ opening domain_z64 executed.2 omits i
        → OneFormat gf2 j
        → OneFormat z64 j
        → (hashes : Array b.Digest 8) × (run_online circuit z64_count gf2_count gf2 z64 ≡ ok hashes)
          × (hashes j ≡ executed.0 i)
    unfolding run_online combine_new prover_new instance_new
    run_online-accepts i j o omits gf2 z64 {executed} e h opened₁ opened₂ format₁ format₂ =
        let (u, e₁, same) = execute-eq-ok e in
        let f = run_combined-Follows i j o circuit combine_start e₁ in
        let valid = f.keeps (record {
          gf2 =
              start-IsValid domain_gf2 lanes_gf2 (map domain_gf2.into wit_gf2) keys gf2_count
                (into-All domain_gf2 lanes_gf2 wit_gf2);
          z64 =
              start-IsValid domain_z64 lanes_z64 (map domain_z64.into wit_z64) keys z64_count
                (into-All domain_z64 lanes_z64 wit_z64);
        }) in
        let (t₁, made₁, fits₁, covers₁) =
          opened_start domain_gf2 lanes_gf2 codec_gf2 i j o (map domain_gf2.into wit_gf2) keys
            gf2_count u.gf2.transcript f.said.gf2 omits gf2 valid.gf2.transcript f.records.gf2 h
            (opened₁ ∙ ap (λ x. opening domain_gf2 x.1 omits i) (sym same)) format₁ in
        let (t₂, made₂, fits₂, covers₂) =
          opened_start domain_z64 lanes_z64 codec_z64 i j o (map domain_z64.into wit_z64) keys
            z64_count u.z64.transcript f.said.z64 omits z64 valid.z64.transcript f.records.z64 h
            (opened₂ ∙ ap (λ x. opening domain_z64 x.2 omits i) (sym same)) format₂ in
        let machine : CombineOnline =
          combine_new (instance_new domain_gf2 t₁ gf2_count)
            (instance_new domain_z64 t₂ z64_count) in
        let p =
          f.replay machine (record { gf2 = nothing domain_gf2; z64 = nothing domain_z64 })
            (record { gf2 = fits₁; z64 = fits₂ }) (record { gf2 = covers₁; z64 = covers₂ }) in
        (
          combine_hash (online domain_gf2) (online domain_z64) p.after,
          rw (made₁, made₂) (rw (p.returns) refl),
          combine_hash-Fits i j o u p.after p.fits ∙ ap (λ x. x.0 i) same,
        )
