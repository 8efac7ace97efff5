-- ===== src/Replay/Opening.antt =====
-- transcript/prover.rs and transcript/verifier/online.rs: a verifier that is given what the
-- prover's `extract` opens.
use reverie_ppr.Prelude.{
  ℕ, ◌≡◌, ◌<◌, ◌∙◌, subst, ap, All, Fin, Array, List, [], ◌∷◌, ok, length, Feeds-map, Bool, true,
  ltb, val, val-lt, val-eqb, arith,
}
use reverie_ppr.Crypto.{StreamCipher, Blake3, Key}
use reverie_ppr.Algebra.{Domain, Lanes, players, packed}
use reverie_ppr.Algebra.Codec.{Codec, Reads, ReadsShare}
use reverie_ppr.Crypto.Hash.{packed_new}
use reverie_ppr.Generator.{share_gen_new}
use reverie_ppr.Transcript.{transcript_hash}
use reverie_ppr.Transcript.Prover.{ProverTranscript, prover, prover_new}
use reverie_ppr.Transcript.Online.{OnlineTranscript, OpenOnline, online, online_new}
use reverie_ppr.Transcript.Extract.{opening}
use reverie_ppr.Interpreter.{Operation}
use reverie_ppr.Interpreter.Single.{run, instance_new}
use reverie_ppr.Interpreter.Single.Prover.{TranscriptIsValid}
use reverie_ppr.Interpreter.Single.Refinement.{start, run-IsValid, start-IsValid}
use reverie_ppr.Replay.{ReconFits, MessageFits}
use reverie_ppr.Replay.Product.{Log, join, nothing, Records, Covers}
use reverie_ppr.Replay.Machine.{ProverMachine, OnlineMachine, MachineFits}
use reverie_ppr.Replay.Run.{run-Follows}
use reverie_ppr.Replay.Start.{Opens, recorded, start-Fits, Covers-said, verifier_replays}

-- Eight openings are of one format when the streams of each have the lengths of those of opening
-- `j`, and each omits a player.
pub record OneFormat (openings : Array OpenOnline packed) (j : Fin packed) : Type 0 where
  pub recons : (r : Fin packed) → length (openings r).recons ≡ length (openings j).recons
  pub corrs : (r : Fin packed) → length (openings r).corrs ≡ length (openings j).corrs
  pub inputs : (r : Fin packed) → length (openings r).inputs ≡ length (openings j).inputs
  pub omits : (r : Fin packed) → (openings r).omit < players

All-trivial : {A : Type 0} (xs : List A) → All (λ _. Unit {0}) xs
All-trivial [] = tt
All-trivial (x ∷ xs) = (tt, All-trivial xs)

module _ ⦃c : StreamCipher⦄ ⦃b : Blake3⦄ (D : Domain) (L : Lanes D) (K : Codec D L)
    (i j : Fin packed) (o : Fin players) where
  module _ (t : ProverTranscript D) (omits : Array ℕ packed) (openings : Array OpenOnline packed)
      (h : omits i ≡ val o) (e : openings j ≡ opening D t omits i) where
    opening-Opens : Opens D (t.seeds i) o (openings j)
    unfolding opening
    opening-Opens = record {
      omit = ap (λ x. x.omit) e ∙ h;
      seeds = λ p opened. rw (e, h, val-eqb p o, opened);
    }

    reads : (x x' : D.Recon) → L.IsValid x → Reads D L i j x x' → ReconFits D L i j o x x'
    reads x x' v f = record { lane = f.lane; valid = v; valid' = f.valid' }

    opening-Covers :
        TranscriptIsValid D L t
        → OneFormat openings j
        → (t' : OnlineTranscript D) × (online_new D openings ≡ ok t')
          × Covers D L i j o (recorded D t) t'
    unfolding opening online_new
    opening-Covers valid format =
        let chosen : ltb (omits i) players ≡ true = rw h (ground (arith, val-lt o)) in
        let selected : Array Bool packed = λ r. ltb (omits r) players in
        let (corrs, e₁, f₁) =
          K.unpack-pack i j t.corrections selected (λ r. (openings r).corrs) valid.corrections
            chosen (ap (λ x. x.corrs) e) format.corrs in
        let (inputs, e₂, f₂) =
          K.unpack-pack i j t.inputs selected (λ r. (openings r).inputs) valid.inputs chosen
            (ap (λ x. x.inputs) e) format.inputs in
        let (recons, e₃, f₃) =
          K.unpack_selected-pack_selected i j o t.reconstructions omits (λ r. (openings r).omit)
            (λ r. (openings r).recons) h (ap (λ x. x.omit) e ∙ h) format.omits
            (ap (λ x. x.recons) e) format.recons in
        (
          record {
            share_gen = share_gen_new D (λ r. (openings r).seeds) (λ r. (openings r).omit);
            hash_online = packed_new;
            hash_preprocess = packed_new;
            recons = recons;
            corrs = corrs;
            inputs = inputs;
            okay = true;
          },
          rw (e₁, e₂, e₃),
          record {
            recons =
                Feeds-map (ReadsShare D L i j o) (MessageFits D L i j o) (λ _. Unit {0})
                  t.reconstructions recons (λ s s' _ f. f.lane) (All-trivial t.reconstructions) f₃;
            corrs =
                Feeds-map (Reads D L i j) (ReconFits D L i j o) L.IsValid t.corrections corrs reads
                  valid.corrections f₁;
            inputs =
                Feeds-map (Reads D L i j) (ReconFits D L i j o) L.IsValid t.inputs inputs reads
                  valid.inputs f₂;
          },
        )

  -- A verifier that has the opening starts its machine, and has what the prover recorded.
  pub opened_start :
      (witness : List D.Recon) (seeds : Array Key packed) (cells : ℕ) (t : ProverTranscript D)
      (said : Log D) (omits : Array ℕ packed) (openings : Array OpenOnline packed)
      → TranscriptIsValid D L t
      → Records D (prover_new D witness seeds) t said
      → omits i ≡ val o
      → openings j ≡ opening D t omits i
      → OneFormat openings j
      → (t' : OnlineTranscript D) × (online_new D openings ≡ ok t')
        × MachineFits D L i j o (start D witness seeds cells) (instance_new D t' cells)
        × Covers D L i j o (join D said (nothing D)) t'
  unfolding prover_new
  opened_start witness seeds cells t said omits openings valid records h opened format =
      let (t', e', covers) = opening-Covers t omits openings h opened valid format in
      let opens =
        subst (λ k. Opens D (k i) o (openings j)) records.seeds
          (opening-Opens t omits openings h opened) in
      (
        t',
        e',
        start-Fits D L i j o witness seeds openings cells e' opens,
        Covers-said D L i j o witness seeds said records covers,
      )

  -- Completeness of an opened repetition: where the prover's run of a program on a valid witness
  -- does not panic, where opening `j` of a verifier's batch is the one that `extract` makes of the
  -- prover's repetition `i` with player `o` omitted, and where the eight openings of the batch are
  -- of one format, the verifier's transcript is made and its run of the program does not panic,
  -- and it ends with the hash of repetition `j` that the prover has of repetition `i`.
  pub verifier_accepts :
      (program : List (Operation D.Const)) (witness : List D.Recon) (seeds : Array Key packed)
      (cells : ℕ) (omits : Array ℕ packed) (openings : Array OpenOnline packed)
      {u : ProverMachine D}
      → All L.IsValid witness
      → run D (prover D) (start D witness seeds cells) program ≡ ok u
      → omits i ≡ val o
      → openings j ≡ opening D u.transcript omits i
      → OneFormat openings j
      → (t' : OnlineTranscript D) × (v : OnlineMachine D) × (online_new D openings ≡ ok t')
        × (run D (online D) (instance_new D t' cells) program ≡ ok v)
        × (transcript_hash (online D) v.transcript j ≡ transcript_hash (prover D) u.transcript i)
  unfolding instance_new prover_new
  verifier_accepts program witness seeds cells omits openings {u} valid e h opened format =
      let machine_valid =
        run-IsValid D L program _ (start-IsValid D L witness seeds cells valid) e in
      let (t', e', covers) =
        opening-Covers u.transcript omits openings h opened machine_valid.transcript format in
      let same_seeds =
        (run-Follows D L i j o program (start D witness seeds cells) u e).records.seeds in
      let opens =
        subst (λ k. Opens D (k i) o (openings j)) same_seeds
          (opening-Opens u.transcript omits openings h opened) in
      let (v, runs, hashes) =
        verifier_replays D L i j o program witness seeds cells openings e e' opens covers in
      (t', v, e', runs, hashes)
