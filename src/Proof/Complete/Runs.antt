-- ===== src/Proof/Complete/Runs.antt =====
-- proof/mod.rs, `Proof::verify`: what is run on eight openings that honest runs of the circuit left,
-- whichever batches they come from.
use reverie_ppr.Prelude.{
  ℕ, ◌<◌, ◌≡◌, subst, sym, ◌∙◌, ap, arith, fun_ext, Bool, true, List, map, length, Fin, Array, ltb,
  val, val-lt, ok, ok_injective,
}
use reverie_ppr.Word.{U64}
use reverie_ppr.Crypto.{StreamCipher, Blake3, Key}
use reverie_ppr.Algebra.{Domain, Lanes, players, packed}
use reverie_ppr.Algebra.Codec.{Codec}
use reverie_ppr.Algebra.Z64.Domain.{domain_z64}
use reverie_ppr.Algebra.Z64.Laws.{lanes_z64}
use reverie_ppr.Algebra.Z64.Packing.{codec_z64}
use reverie_ppr.Algebra.Gf2.Laws.{domain_gf2, lanes_gf2}
use reverie_ppr.Algebra.Gf2.Packing.{codec_gf2}
use reverie_ppr.Transcript.Prover.{ProverTranscript, prover_new}
use reverie_ppr.Transcript.Online.{OpenOnline}
use reverie_ppr.Transcript.Preprocess.{OpenPreprocessing}
use reverie_ppr.Transcript.Extract.{opening, preprocessing_opening}
use reverie_ppr.Interpreter.Single.{instance_new}
use reverie_ppr.Interpreter.Single.Traffic.{Traffic, Grows}
use reverie_ppr.Interpreter.Combine.{CombineOperation, combine_new}
use reverie_ppr.Interpreter.Combine.Traffic.{
  traffic_gf2, traffic_z64, total_traffic, run_combined-Grows,
}
use reverie_ppr.Proof.Prove.{Executed, execute}
use reverie_ppr.Proof.Verify.{run_online, run_preprocessing}
use reverie_ppr.Proof.Complete.{Entry}
use reverie_ppr.Replay.Opening.{OneFormat}
use reverie_ppr.Replay.Combine.Accepts.{combine_start, execute-eq-ok, run_online-accepts}
use reverie_ppr.Redo.Combine.Accepts.{run_preprocessing-accepts}

module _ ⦃c : StreamCipher⦄ ⦃b : Blake3⦄ where
  -- The lengths of an opening's streams.
  record IsSized (D : Domain) (L : Lanes D) (K : Codec D L) (q : Traffic) (x : OpenOnline)
      : Type 0 where
    recons : length x.recons ≡ K.stream_size q.recons
    corrs : length x.corrs ≡ K.stream_size q.corrs
    inputs : length x.inputs ≡ K.stream_size q.inputs

  opening-IsSized :
      (D : Domain) (L : Lanes D) (K : Codec D L) (q : Traffic) (wit : List D.Recon)
      (keys : Array Key packed) (t : ProverTranscript D) (omits : Array ℕ packed) (i : Fin packed)
      (o : Fin players)
      → Grows D q (prover_new D wit keys) t
      → omits i ≡ val o
      → IsSized D L K q (opening D t omits i)
  unfolding opening prover_new
  opening-IsSized D L K q wit keys t omits i o g h =
      let selected : ltb (omits i) players ≡ true = rw h (ground (arith, val-lt o)) in
      record {
        recons =
            K.length-pack_selected i o t.reconstructions omits h
            ∙ ap K.stream_size (omega (arith, g.recons));
        corrs =
            K.length-pack i t.corrections (λ r. ltb (omits r) players) selected
            ∙ ap K.stream_size (omega (arith, g.corrs));
        inputs =
            K.length-pack i t.inputs (λ r. ltb (omits r) players) selected
            ∙ ap K.stream_size (omega (arith, g.inputs));
      }

  module _ (circuit : List CombineOperation) (wit_gf2 : List Bool) (wit_z64 : List U64)
      (z64_count gf2_count : ℕ) where
    -- An honest run of the circuit, and repetition `rep` of it without player `omit`.
    pub record IsOpened (e : Entry OpenOnline b.Digest) : Type 0 where
      pub keys : Array Key packed
      pub executed : Executed
      pub ran : execute circuit wit_gf2 wit_z64 z64_count gf2_count keys ≡ ok executed
      pub rep : Fin packed
      pub omit : Fin players
      pub omits : Array ℕ packed
      pub omitted : omits rep ≡ val omit
      pub gf2 : e.gf2 ≡ opening domain_gf2 executed.1 omits rep
      pub z64 : e.z64 ≡ opening domain_z64 executed.2 omits rep
      pub hash : e.hash ≡ executed.0 rep

    pub record IsRevealed (e : Entry OpenPreprocessing b.Digest) : Type 0 where
      pub keys : Array Key packed
      pub executed : Executed
      pub ran : execute circuit wit_gf2 wit_z64 z64_count gf2_count keys ≡ ok executed
      pub rep : Fin packed
      pub gf2 : e.gf2 ≡ preprocessing_opening domain_gf2 executed.1 rep
      pub z64 : e.z64 ≡ preprocessing_opening domain_z64 executed.2 rep
      pub hash : e.hash ≡ executed.0 rep

    IsOpened-IsSized :
        (e : Entry OpenOnline b.Digest)
        → IsOpened e
        → IsSized domain_gf2 lanes_gf2 codec_gf2 (total_traffic traffic_gf2 circuit) e.gf2
          × IsSized domain_z64 lanes_z64 codec_z64 (total_traffic traffic_z64 circuit) e.z64
          × (e.gf2.omit < players)
          × (e.z64.omit < players)
    unfolding instance_new combine_new opening
    IsOpened-IsSized e h =
        let (u, e₁, same) =
          execute-eq-ok circuit wit_gf2 wit_z64 z64_count gf2_count h.keys h.ran in
        let g =
          run_combined-Grows circuit
            (combine_start circuit wit_gf2 wit_z64 z64_count gf2_count h.keys) e₁ in
        let gf2 = h.gf2 ∙ ap (λ x. opening domain_gf2 x.1 h.omits h.rep) (sym same) in
        let z64 = h.z64 ∙ ap (λ x. opening domain_z64 x.2 h.omits h.rep) (sym same) in
        (
          subst (IsSized domain_gf2 lanes_gf2 codec_gf2 (total_traffic traffic_gf2 circuit))
              (sym gf2)
              (opening-IsSized domain_gf2 lanes_gf2 codec_gf2 (total_traffic traffic_gf2 circuit)
                (map domain_gf2.into wit_gf2) h.keys u.gf2.transcript h.omits h.rep h.omit g.gf2
                h.omitted),
          subst (IsSized domain_z64 lanes_z64 codec_z64 (total_traffic traffic_z64 circuit))
              (sym z64)
              (opening-IsSized domain_z64 lanes_z64 codec_z64 (total_traffic traffic_z64 circuit)
                (map domain_z64.into wit_z64) h.keys u.z64.transcript h.omits h.rep h.omit g.z64
                h.omitted),
          omits_player domain_gf2 u.gf2.transcript h.omits h.rep h.omit h.omitted e.gf2 gf2,
          omits_player domain_z64 u.z64.transcript h.omits h.rep h.omit h.omitted e.z64 z64,
        )
      where
        omits_player :
            (D : Domain) (t : ProverTranscript D) (omits : Array ℕ packed) (i : Fin packed)
            (o : Fin players)
            → omits i ≡ val o
            → (x : OpenOnline) → x ≡ opening D t omits i
            → x.omit < players
        omits_player D t omits i o h x e = rw (e, h) (val-lt o)

    IsSized-OneFormat :
        (D : Domain) (L : Lanes D) (K : Codec D L) (q : Traffic) (x : Array OpenOnline packed)
        → ((i : Fin packed) → IsSized D L K q (x i))
        → ((i : Fin packed) → (x i).omit < players)
        → (j : Fin packed) → OneFormat x j
    IsSized-OneFormat D L K q x h omits j = record {
      recons = λ r. (h r).recons ∙ sym (h j).recons;
      corrs = λ r. (h r).corrs ∙ sym (h j).corrs;
      inputs = λ r. (h r).inputs ∙ sym (h j).inputs;
      omits = omits;
    }

    pub run_online-honest :
        (e : Array (Entry OpenOnline b.Digest) packed)
        → ((i : Fin packed) → IsOpened (e i))
        → run_online circuit z64_count gf2_count (λ i. (e i).gf2) (λ i. (e i).z64)
          ≡ ok (λ i. (e i).hash)
    run_online-honest e h =
        let (hashes, returns, _) = each Fin.zero in
        returns
        ∙ ap ok (
            fun_ext λ j.
              let (hashes', returns', same) = each j in
              ap (λ f. f j) (ok_injective (sym returns ∙ returns')) ∙ same ∙ sym (h j).hash)
      where
        gf2_format : (j : Fin packed) → OneFormat (λ i. (e i).gf2) j
        gf2_format =
            IsSized-OneFormat domain_gf2 lanes_gf2 codec_gf2 (total_traffic traffic_gf2 circuit)
              (λ i. (e i).gf2) (λ i. (IsOpened-IsSized (e i) (h i)).0)
              (λ i. (IsOpened-IsSized (e i) (h i)).2)

        z64_format : (j : Fin packed) → OneFormat (λ i. (e i).z64) j
        z64_format =
            IsSized-OneFormat domain_z64 lanes_z64 codec_z64 (total_traffic traffic_z64 circuit)
              (λ i. (e i).z64) (λ i. (IsOpened-IsSized (e i) (h i)).1)
              (λ i. (IsOpened-IsSized (e i) (h i)).3)

        each :
            (j : Fin packed)
            → (hashes : Array b.Digest 8) × (run_online circuit z64_count gf2_count
                  (λ i. (e i).gf2)
                  (λ i. (e i).z64)
                ≡ ok hashes)
              × (hashes j ≡ (h j).executed.0 (h j).rep)
        each j =
            run_online-accepts circuit wit_gf2 wit_z64 z64_count gf2_count (h j).keys (h j).rep j
              (h j).omit (h j).omits (λ i. (e i).gf2) (λ i. (e i).z64) (h j).ran (h j).omitted
              (h j).gf2 (h j).z64 (gf2_format j) (z64_format j)

    pub run_preprocessing-honest :
        (e : Array (Entry OpenPreprocessing b.Digest) packed)
        → ((i : Fin packed) → IsRevealed (e i))
        → run_preprocessing circuit z64_count gf2_count (λ i. (e i).gf2) (λ i. (e i).z64)
          ≡ ok (λ i. (e i).hash)
    run_preprocessing-honest e h =
        let (hashes, returns, _) = each Fin.zero in
        returns
        ∙ ap ok (
            fun_ext λ j.
              let (hashes', returns', same) = each j in
              ap (λ f. f j) (ok_injective (sym returns ∙ returns')) ∙ same ∙ sym (h j).hash)
      where
        each :
            (j : Fin packed)
            → (hashes : Array b.Digest 8) × (run_preprocessing circuit z64_count gf2_count
                  (λ i. (e i).gf2)
                  (λ i. (e i).z64)
                ≡ ok hashes)
              × (hashes j ≡ (h j).executed.0 (h j).rep)
        each j =
            run_preprocessing-accepts circuit wit_gf2 wit_z64 z64_count gf2_count (h j).keys
              (h j).rep j (λ i. (e i).gf2) (λ i. (e i).z64) (h j).ran (h j).gf2 (h j).z64
