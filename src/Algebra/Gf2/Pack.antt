-- ===== src/Algebra/Gf2/Pack.antt =====
-- algebra/gf2: `Pack` of recon.rs and `PackSelected` of share.rs, a bit for each element.
use Prim.Native.Nat.{bit_or}
use reverie_ppr.Prelude.{
  ℕ, zero, suc, ◌+◌, ◌-◌, ◌*◌, ◌/◌, ◌%◌, ◌^◌, ◌==◌, Bool, true, false, List, [], ◌∷◌, ◌++◌, Fin,
  Array, val, same, drop, literal, to_list, all, length, ltb, not, if◌then◌else◌, Outcome, ok,
  panic, out_of_bounds, unequal_lengths, undefined,
}
use reverie_ppr.Ring.Sum.{rest}
use reverie_ppr.Word.{U64, number, wrap}
use reverie_ppr.Word.Bits.{u64_and, u64_shr}
use reverie_ppr.Algebra.Gf2.{ReconGf2, ShareGf2}
use reverie_ppr.Algebra.Z64.Bytes.{from_le_bytes}
use reverie_ppr.Algebra.Gf2.Recon.{recon_zero}
use reverie_ppr.Algebra.Gf2.Share.{share_zero}
use reverie_ppr.Algebra.Gf2.Transpose.{byte_to_shares_avx2}
use reverie_ppr.Algebra.Gf2.Domain.{eighth}

-- `(x.pack >> shift) & 1`
unfoldable pub digit : ℕ → U64 → ℕ
unfolding u64_and u64_shr wrap
digit shift x = number (u64_and (u64_shr x shift) (wrap 1))

-- The remaining lines `res <<= 1; res |= ..` of `pack`, on a result of `w` bits.
unfoldable pub pack_lines : ℕ → (n : ℕ) → ℕ → Array U64 n → ℕ → ℕ
unfolding digit
pack_lines w zero shift src res = res
pack_lines w (suc n) shift src res =
    pack_lines w n shift (rest src) (bit_or (res * 2 % 2 ^ w) (digit shift (src Fin.zero)))

-- `pack` of recon.rs: the first bit is taken one place up, and the second is put below it.
unfoldable pub pack_recons : ℕ → Array ReconGf2 8 → ℕ
unfolding pack_lines digit u64_and u64_shr wrap
pack_recons shift src =
    let res = number (u64_and (u64_shr (src Fin.zero) shift) (wrap 2)) in
    pack_lines 8 6 shift (rest (rest src)) (bit_or res (digit shift (src (Fin.suc Fin.zero))))

-- `pack` of share.rs, on a `u64` that is cut to a byte in the end.
unfoldable pub pack_shares : ℕ → Array ShareGf2 8 → ℕ
unfolding pack_lines digit
pack_shares shift src =
    pack_lines 64 7 shift (rest src) (bit_or 0 (digit shift (src Fin.zero))) % 256

-- The arrays `shifts` and `ext`, up to the first entry that is not used.
unfoldable pub shifts_of : List (Fin 8) → Array Bool 8 → Array ℕ 8 → List (Fin 8 × ℕ)
shifts_of [] selected shift = []
shifts_of (i ∷ is) selected shift =
    if selected i then (i, shift i) ∷ shifts_of is selected shift else shifts_of is selected shift

module _ (pack : ℕ → Array U64 8 → ℕ) where
  -- `pack_all` and `extract`
  unfoldable pub pack_all : Array (List ℕ) 8 → Array U64 8 → List (Fin 8 × ℕ) → Array (List ℕ) 8
  pack_all dst src [] = dst
  pack_all dst src ((i, shift) ∷ shifts) =
      pack_all (λ r. if same r i then dst r ++ pack shift src ∷ [] else dst r) src shifts

  -- The loop over the exact chunks of eight, and the remainder filled with defaults.
  unfoldable pub pack_chunks :
      ℕ → U64 → Array (List ℕ) 8 → List U64 → List (Fin 8 × ℕ) → Array (List ℕ) 8
  unfolding pack_all
  pack_chunks zero default dst src shifts = pack_all dst (literal 8 default src) shifts
  pack_chunks (suc n) default dst src shifts =
      pack_chunks n default (pack_all dst (literal 8 default src) shifts) (drop 8 src) shifts

abbrev pub repetitions : List (Fin 8)
repetitions = to_list 8 (λ i. i)

-- `Pack::pack`
unfoldable pub pack : Array (List ℕ) 8 → List ReconGf2 → Array Bool 8 → Array (List ℕ) 8
unfolding pack_recons shifts_of pack_chunks recon_zero
pack dst src selected =
    if all 8 not selected
    then dst
    else let shifts = shifts_of repetitions selected (λ i. 64 - (val i + 1) * 8) in
      pack_chunks pack_recons (length src / 8) recon_zero dst src shifts

-- `PackSelected::pack_selected`
unfoldable pub pack_selected : Array (List ℕ) 8 → List ShareGf2 → Array ℕ 8 → Array (List ℕ) 8
unfolding pack_shares shifts_of pack_chunks share_zero
pack_selected dst src selected =
    let chosen = λ (i : Fin 8). ltb (selected i) 8 in
    let ext = shifts_of repetitions chosen (λ i. (7 - val i) * 8 + (7 - selected i)) in
    if all 8 not chosen
    then dst
    else pack_chunks pack_shares (length src / 8) share_zero dst src ext

-- `UNPACK_TABLE`
unfoldable pub unpack_table : ℕ → Array ℕ 8
unpack_table byte k = if byte / 2 ^ (7 - val k) % 2 == 0 then 0x00 else 0xff

-- `unpack` of recon.rs: eight elements from a byte of each stream.
unfoldable pub unpack_byte : Array ℕ 8 → Array ReconGf2 8
unfolding unpack_table from_le_bytes
unpack_byte src k = from_le_bytes (to_list 8 (λ q. unpack_table (src (eighth (7 - val q))) k))

abbrev pub head : List ℕ → ℕ
head [] = 0
head (x ∷ xs) = x

abbrev pub is_empty : List ℕ → Bool
is_empty [] = true
is_empty (x ∷ xs) = false

-- The loop of `Pack::unpack`: a stream that is shorter than the first is indexed out of bounds.
unfoldable pub unpack_loop : ℕ → List ReconGf2 → Array (List ℕ) 8 → Outcome (List ReconGf2)
unfolding unpack_byte
unpack_loop zero dst src = ok dst
unpack_loop (suc n) dst src =
    let more =
      unpack_loop n (dst ++ to_list 8 (unpack_byte (λ r. head (src r)))) (λ r. drop 1 (src r)) in
    if all 8 (λ s. not (is_empty s)) src then more else panic out_of_bounds

unfoldable pub unpack : List ReconGf2 → Array (List ℕ) 8 → Outcome (List ReconGf2)
unfolding unpack_loop
unpack dst src = unpack_loop (length (src Fin.zero)) dst src

-- The writes `tmp_src[idx[j]] = src[j][i]` of one round.
unfoldable pub copy_shares : (n : ℕ) → Array ℕ n → Array ℕ n → (ℕ → ℕ) → ℕ → ℕ
copy_shares zero idx bytes tmp = tmp
copy_shares (suc n) idx bytes tmp =
    copy_shares n (rest idx) (rest bytes) (λ k. if k == idx Fin.zero then bytes Fin.zero else tmp k)

-- The rounds of `unpack_selected`, where all writes of a round are inside the array.
unfoldable pub unpack_selected_loop :
    ℕ → List ShareGf2 → Array (List ℕ) 8 → Array ℕ 8 → (ℕ → ℕ) → List ShareGf2
unfolding copy_shares byte_to_shares_avx2
unpack_selected_loop zero dst src idx tmp = dst
unpack_selected_loop (suc n) dst src idx tmp =
    let tmp_src = copy_shares 8 idx (λ j. head (src j)) tmp in
    unpack_selected_loop n (dst ++ to_list 8 (byte_to_shares_avx2 tmp_src)) (λ j. drop 1 (src j))
      idx tmp_src

-- `PackSelected::unpack_selected`
unfoldable pub unpack_selected :
    List ShareGf2 → Array (List ℕ) 8 → Array ℕ 8 → Outcome (List ShareGf2)
unfolding unpack_selected_loop
unpack_selected dst src selected =
    let size = length (src Fin.zero) in
    let idx = λ (j : Fin 8). selected j + val j * 8 in
    if all 8 (λ s. size == length s) src
    then if size == 0
      then ok dst
      else if all 8 (λ k. ltb k 64) idx
      then ok (unpack_selected_loop size dst src idx (λ _. 0))
      else panic undefined
    else panic unequal_lengths
