-- ===== src/Algebra/Z64/Share.antt =====
-- algebra/z64/share.rs: `ShareZ64`, a word for each player of each repetition.
use reverie_ppr.Prelude.{
  ℕ, ◌/◌, zero, suc, List, [], ◌∷◌, ◌++◌, Fin, Array, length, ltb, ◌==◌, val, if◌then◌else◌,
  Outcome, ok, panic, out_of_bounds, all,
}
use native.Mathlib.Decide.{dec_lt}
use reverie_ppr.Prelude.{fin}
use mathlib.Core.Logic.{dite}
use reverie_ppr.Word.{wrap, wrapping_add, wrapping_sub}
use reverie_ppr.Crypto.{Blake3}
use reverie_ppr.Crypto.Hash.{PackedHasher, BufferedHasher, update}
use reverie_ppr.Algebra.Z64.{ShareZ64}
use reverie_ppr.Algebra.Z64.Bytes.{to_le_bytes, from_le_bytes, next_chunk}

unfoldable pub share_zero : ShareZ64
share_zero i j = wrap 0

unfoldable pub add : ShareZ64 → ShareZ64 → ShareZ64
add s t i j = wrapping_add (s i j) (t i j)

unfoldable pub sub : ShareZ64 → ShareZ64 → ShareZ64
sub s t i j = wrapping_sub (s i j) (t i j)

-- `for j in 0..PLAYERS { hashers[i].update(..) }`
unfoldable pub update_all :
    ⦃b : Blake3⦄ → (n : ℕ) → Array (List ℕ) n → BufferedHasher → BufferedHasher
update_all ℕ.zero words h = h
update_all (ℕ.suc n) words h = update_all n (λ j. words (Fin.suc j)) (update h (words Fin.zero))

unfoldable pub hash : ⦃b : Blake3⦄ → ShareZ64 → PackedHasher → PackedHasher
unfolding update_all
hash s h i = update_all 8 (λ j. to_le_bytes (s i j)) (h i)

-- `PackSelected::pack_selected`: the word of player `selected[i]`, where that is a player.
unfoldable pub pack_elem : ShareZ64 → Array ℕ 8 → Array (List ℕ) 8 → Array (List ℕ) 8
pack_elem elem selected dst i =
    dite (dec_lt (selected i) 8) (λ h. dst i ++ to_le_bytes (elem i (fin 8 (selected i) h)))
      (λ _. dst i)

unfoldable pub pack_selected : Array (List ℕ) 8 → List ShareZ64 → Array ℕ 8 → Array (List ℕ) 8
unfolding pack_elem
pack_selected dst [] selected = dst
pack_selected dst (elem ∷ src) selected = pack_selected (pack_elem elem selected dst) src selected

-- One round of `unpack_selected`: zero but for the chunk that player `selected[j]` is given.
unfoldable pub unpack_elem : Array (List ℕ) 8 → Array ℕ 8 → ShareZ64
unfolding next_chunk
unpack_elem chunks selected j p =
    if val p == selected j then from_le_bytes (next_chunk (chunks j)).0 else wrap 0

unfoldable pub unpack_loop : ℕ → List ShareZ64 → Array (List ℕ) 8 → Array ℕ 8 → List ShareZ64
unfolding unpack_elem
unpack_loop zero dst chunks selected = dst
unpack_loop (suc n) dst chunks selected =
    unpack_loop n (dst ++ unpack_elem chunks selected ∷ []) (λ j. (next_chunk (chunks j)).1)
      selected

-- `val.pack[j][p]` is out of bounds in the first round where some `selected[j]` is no player.
unfoldable pub unpack_selected :
    List ShareZ64 → Array (List ℕ) 8 → Array ℕ 8 → Outcome (List ShareZ64)
unfolding unpack_loop
unpack_selected dst src selected =
    let rounds = length (src Fin.zero) / 8 in
    if rounds == 0
    then ok dst
    else if all 8 (λ p. ltb p 8) selected
    then ok (unpack_loop rounds dst src selected)
    else panic out_of_bounds
