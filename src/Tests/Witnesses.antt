-- ===== src/Tests/Witnesses.antt =====
-- Theorems on the domain over 64-bit words, transcripts and circuits, at inputs where their
-- hypotheses hold.
use reverie_ppr.Prelude.{
  ℕ, ◌≡◌, refl, arith, ◌+◌, ◌*◌, ◌==◌, if◌then◌else◌, same, false, val-eqb, ◌∙◌, map_ok, Feeds,
  List, [], ◌∷◌, replicate, Fin, Array, val, ok, All,
}
use reverie_ppr.Word.{U64, wrap}
use reverie_ppr.Crypto.{Key}
use reverie_ppr.Crypto.Hash.{hasher_new}
use reverie_ppr.Algebra.Z64.{ReconZ64, ShareZ64}
use reverie_ppr.Algebra.Z64.Domain.{domain_z64}
use reverie_ppr.Algebra.Z64.Laws.{lanes_z64}
use reverie_ppr.Algebra.Z64.Packing.{codec_z64, unpack-pack, unpack_selected-pack_selected}
use reverie_ppr.Transcript.{transcript_hash}
use reverie_ppr.Transcript.Prover.{ProverTranscript, prover, prover_new}
use reverie_ppr.Transcript.Online.{OnlineTranscript, OpenOnline, online, online_new}
use reverie_ppr.Transcript.Extract.{opening, preprocessing_opening}
use reverie_ppr.Transcript.Preprocess.{OpenPreprocessing, preprocess, preprocess_new}
use reverie_ppr.Redo.{PreprocessMachine}
use reverie_ppr.Redo.Run.{preprocessing_accepts}
use reverie_ppr.Interpreter.{Operation, input, mul, add, sub_const, assert_zero}
use reverie_ppr.Interpreter.Single.{run, instance_new}
use reverie_ppr.Interpreter.Single.Refinement.{start, draws, prover_refines}
use reverie_ppr.Replay.Machine.{ProverMachine, OnlineMachine}
use reverie_ppr.Replay.Opening.{OneFormat, verifier_accepts}
use native.Mathlib.Decide.{dec_lt}
use reverie_ppr.Prelude.{read, write}
use reverie_ppr.Ring.Sum.{add_all}
use reverie_ppr.Word.{wrapping_add, wrapping_sub, wrapping_mul}
use reverie_ppr.Crypto.Prg.{array_of_bytes, prg_new, gen, xor_bytes}
use reverie_ppr.Crypto.Hash.{packed_new}
use reverie_ppr.Generator.{
  next, refill, batch_gen, batch_gen_new, new_from_batch_gen, share_gen_new,
}
use reverie_ppr.Transcript.Seeds.{share_gen_from_rep_seeds, expand_seed, gen_keys}
use reverie_ppr.Transcript.Prover
use reverie_ppr.Algebra.Z64.Recon
use reverie_ppr.Algebra.Z64.Share
use reverie_ppr.Algebra.Z64.Domain
use reverie_ppr.Algebra.Z64.Bytes.{from_le_bytes, next_chunk}
use reverie_ppr.Interpreter.Single.{
  step, assign, default_wire, op_add, op_mul, op_sub_const, mul_share,
}
use reverie_ppr.Algebra.Z64.Linear.{reconstruct_lem}
use reverie_ppr.Algebra.Codec.{Reads, ReadsShare}
use reverie_ppr.Generator.Omit.{hide}
use reverie_ppr.Generator.Keys.{advance, next-omit}
use reverie_ppr.Generator.Batches.{batch_number, next-batch_number}
use reverie_ppr.Prelude.{fin}
use reverie_ppr.Transcript.{Wire}
use reverie_ppr.Interpreter.Plain.{plain_run}
use reverie_ppr.Interpreter.Single.{value}
use reverie_ppr.Interpreter.Single.Value.{WireIsValid}
use reverie_ppr.Interpreter.Single.Product.{value-op_mul}
use reverie_ppr.Interpreter.Single.Prover.{view}
use reverie_ppr.Tests.Toy.{toy_cipher, toy_hash, key, word, returned}

instance abbrev cipher : reverie_ppr.Crypto.StreamCipher
cipher = toy_cipher

instance abbrev hash : reverie_ppr.Crypto.Blake3
hash = toy_hash

-- x * y + x - 8 is zero for x = 2 and y = 3.
abbrev circuit : List (Operation U64)
circuit = input 0 ∷ input 1 ∷ mul 2 0 1 ∷ add 2 2 0 ∷ sub_const 2 2 (wrap 8) ∷ assert_zero 2 ∷ []

abbrev numbers : List ReconZ64
numbers = word 2 ∷ word 3 ∷ []

abbrev keys : Array Key 8
keys r = key (val r)

abbrev begin : ProverMachine domain_z64
begin = start domain_z64 numbers keys 3

abbrev after : ProverMachine domain_z64
after = returned begin (run domain_z64 (prover domain_z64) begin circuit)

after_run : run domain_z64 (prover domain_z64) begin circuit ≡ ok after
unfolding run step assign read write instance_new default_wire Prover.input Prover.input_from
    Prover.record_input Prover.new_mask Prover.correction Prover.reconstruct Prover.zero_check
    prover_new op_add op_mul op_sub_const mul_share next refill batch_gen batch_gen_new
    new_from_batch_gen share_gen_new share_gen_from_rep_seeds expand_seed gen_keys array_of_bytes
    prg_new gen xor_bytes Domain.random Domain.words Domain.reconstruct Domain.batches_to_shares
    Domain.share_mul add_all Recon.is_zero Recon.add Recon.sub Recon.mul Recon.from Share.add
    Share.sub wrap wrapping_add wrapping_sub wrapping_mul from_le_bytes next_chunk dec_lt packed_new
    hasher_new
after_run = refl

-- Player 3 is omitted in repetition 1, which a verifier checks at position 2 of a batch.
abbrev omitted : Array ℕ 8
omitted _ = 3

abbrev one : Fin 8
one = Fin.suc Fin.zero

abbrev two : Fin 8
two = Fin.suc (Fin.suc Fin.zero)

abbrev three : Fin 8
three = Fin.suc (Fin.suc (Fin.suc Fin.zero))

abbrev opened : Array OpenOnline 8
opened _ = opening domain_z64 after.transcript omitted one

opened-OneFormat : OneFormat opened two
unfolding opening
opened-OneFormat = record {
  recons = λ r. refl;
  corrs = λ r. refl;
  inputs = λ r. refl;
  omits = λ r. omega arith;
}

numbers-IsValid : All lanes_z64.IsValid numbers
unfolding lanes_z64
numbers-IsValid = (tt, (tt, tt))

verifier_accepts_example :
    (t' : OnlineTranscript domain_z64) × (v : OnlineMachine domain_z64) × (online_new domain_z64
        opened
      ≡ ok t')
    × (run domain_z64 (online domain_z64) (instance_new domain_z64 t' 3) circuit ≡ ok v)
    × (transcript_hash (online domain_z64) v.transcript two
        ≡ transcript_hash (prover domain_z64) after.transcript one)
verifier_accepts_example =
    verifier_accepts domain_z64 lanes_z64 codec_z64 one two three circuit numbers keys 3 omitted
      opened numbers-IsValid after_run refl refl opened-OneFormat

prover_refines_example :
    plain_run domain_z64
      (draws domain_z64 (ok begin) circuit)
      (record { values = replicate 3 (word 0); witness = numbers })
      circuit
    ≡ map_ok (view domain_z64) (run domain_z64 (prover domain_z64) begin circuit)
unfolding Recon.recon_zero Recon.from
prover_refines_example = prover_refines domain_z64 lanes_z64 circuit numbers keys 3 numbers-IsValid

abbrev wire : ℕ → Wire domain_z64
wire n = record { mask = λ r p. wrap (val r + val p); corr = word n }

wire-IsValid : (n : ℕ) → WireIsValid domain_z64 lanes_z64 (wire n)
unfolding lanes_z64
wire-IsValid n = tt

value-op_mul_example :
    value domain_z64 (op_mul domain_z64 (prover domain_z64) begin.transcript (wire 5) (wire 7)).0
    ≡ domain_z64.recon_mul (value domain_z64 (wire 5)) (value domain_z64 (wire 7))
value-op_mul_example =
    value-op_mul domain_z64 lanes_z64 begin.transcript (wire 5) (wire 7) (wire-IsValid 5)
      (wire-IsValid 7)

-- The keys of eight repetitions, and the same without that of player 3.
abbrev all_keys : Array (Array Key 8) 8
all_keys r p = key (val r + val p)

abbrev opened_keys : Array (Array Key 8) 8
opened_keys r p = if val p == 3 then key 0 else key (val r + val p)

opened_key : (p : Fin 8) → same p three ≡ false → opened_keys one p ≡ all_keys one p
opened_key p e = let other : (val p == 3) ≡ false = val-eqb p three ∙ e in rw other

next-omit_example :
    lanes_z64.share_lane
      (next domain_z64 (advance domain_z64 200 (share_gen_new domain_z64 opened_keys omitted))).0
      one
    ≡ hide domain_z64 lanes_z64 one one three (
        lanes_z64.share_lane
          (next domain_z64 (advance domain_z64 200 (share_gen_new domain_z64 all_keys (λ r. 8)))).0
          one)
next-omit_example =
    next-omit domain_z64 lanes_z64 one one three all_keys opened_keys omitted refl opened_key 200

-- The sixth share of the third batch, for a player that is opened.
next-batch_number_example :
    lanes_z64.share_lane
      (next domain_z64
        (advance domain_z64 (128 * 2 + 5) (share_gen_new domain_z64 opened_keys omitted))).0
      one
      two
    ≡ lanes_z64.batch_lane
        (batch_number domain_z64 2 (prg_new (opened_keys one two)))
        (fin 128 5 (omega arith))
next-batch_number_example =
    next-batch_number domain_z64 lanes_z64 opened_keys omitted one two refl 2
      (fin 128 5 (omega arith))

abbrev packs : Array (List ℕ) 8
packs _ = Recon.pack (λ _. []) numbers (λ r. val r == 1) one

unpack-pack_example :
    (xs : List ReconZ64) × (Recon.unpack [] packs ≡ ok xs)
    × Feeds (Reads domain_z64 lanes_z64 one two) numbers xs
unpack-pack_example = unpack-pack one two numbers (λ r. val r == 1) packs refl refl refl

abbrev shares : List ShareZ64
shares = (wire 5).mask ∷ (λ r p. wrap (val r * 8 + val p)) ∷ []

abbrev share_packs : Array (List ℕ) 8
share_packs _ = Share.pack_selected (λ _. []) shares omitted one

unpack_selected-pack_selected_example :
    (xs : List ShareZ64) × (Share.unpack_selected [] share_packs omitted ≡ ok xs)
    × Feeds (ReadsShare domain_z64 lanes_z64 one two three) shares xs
unpack_selected-pack_selected_example =
    unpack_selected-pack_selected one two three omitted refl shares omitted share_packs refl
      (λ r. omega arith) refl refl

abbrev redone : Array OpenPreprocessing 8
redone _ = preprocessing_opening domain_z64 after.transcript one

preprocessing_accepts_example :
    (v : PreprocessMachine domain_z64) × (run domain_z64
        (preprocess domain_z64)
        (instance_new domain_z64 (preprocess_new domain_z64 redone) 3)
        circuit
      ≡ ok v)
    × (transcript_hash (preprocess domain_z64) v.transcript two
        ≡ transcript_hash (prover domain_z64) after.transcript one)
preprocessing_accepts_example =
    preprocessing_accepts domain_z64 lanes_z64 one two circuit numbers keys 3 redone after_run refl

abbrev five : ShareZ64
five = (wire 5).mask

abbrev shifted : ShareZ64
shifted r p = wrap (val r * 8 + val p)

reconstruct_lem_example :
    (Domain.reconstruct (Share.add five shifted)
      ≡ Recon.add (Domain.reconstruct five) (Domain.reconstruct shifted))
    × (Domain.reconstruct (Share.sub five shifted)
        ≡ Recon.sub (Domain.reconstruct five) (Domain.reconstruct shifted))
    × (Domain.reconstruct (Domain.share_mul five (word 9))
        ≡ Recon.mul (Domain.reconstruct five) (word 9))
    × (Domain.reconstruct (Domain.share_add_recon five (word 9))
        ≡ Recon.add (Domain.reconstruct five) (word 9))
    × (Domain.reconstruct (Domain.share_sub_recon five (word 9))
        ≡ Recon.sub (Domain.reconstruct five) (word 9))
reconstruct_lem_example = reconstruct_lem five shifted (word 9)
