-- ===== src/Algebra/Gf2/Packing.antt =====
-- algebra/gf2: what is packed of a repetition is unpacked.
pub mod Digits
pub mod Streams
pub mod Recons
pub mod Shares
pub mod Lengths
use reverie_ppr.Prelude.{suc, ◌/◌, refl, val, val-lt}
use reverie_ppr.Crypto.{StreamCipher, Blake3}
use reverie_ppr.Algebra.Codec.{Codec}
use reverie_ppr.Algebra.Gf2.Laws.{domain_gf2, lanes_gf2}

abbrev pub codec_gf2 : ⦃c : StreamCipher⦄ → ⦃b : Blake3⦄ → Codec domain_gf2 lanes_gf2
unfolding lanes_gf2
codec_gf2 = record {
  unpack-pack = λ i j src selected bytes valid h e same.
      Recons.unpack-pack_gf2 i j src selected bytes valid h e same;
  unpack_selected-pack_selected = λ i j o src omits omits' bytes h h' below e same.
      Shares.unpack_selected-pack_selected_gf2 i j o omits omits' h h' below src bytes e same;
  stream_size = λ n. suc (n / 8);
  length-pack = λ i src selected h. Recons.length-pack_gf2 i i src selected h;
  length-pack_selected = λ i o src omits h.
      Shares.length-pack_selected_gf2 i i o omits (λ _. val o) h refl (λ _. val-lt o) src;
}
