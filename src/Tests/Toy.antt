-- ===== src/Tests/Toy.antt =====
-- A stream cipher that adds a counter, and a hash that keeps its input.
use reverie_ppr.Prelude.{
  ◌∷◌, ℕ, suc, ◌+◌, ◌%◌, List, [], ◌++◌, map, append-nil, append_assoc, Fin, Outcome, ok, panic,
}
use reverie_ppr.Word.{wrap}
use reverie_ppr.Crypto.{StreamCipher, Blake3, Key}
use reverie_ppr.Crypto.Oracle.{Xof}
use reverie_ppr.Algebra.Z64.{ReconZ64}
use reverie_ppr.Algebra.Z64.Recon

abbrev pub toy_cipher : StreamCipher
toy_cipher = record {
  Cipher = ℕ;
  init = λ key. key Fin.zero;
  apply_keystream = λ n bytes. (map (λ x. (x + n) % 256) bytes, suc n);
}

abbrev pub toy_hash : Blake3
toy_hash = record {
  Hasher = List ℕ;
  Digest = List ℕ;
  new = [];
  update = λ h a. h ++ a;
  finalize = λ h. h;
  as_bytes = λ d. d;
  update_nil = append-nil;
  update_append = append_assoc;
}

-- The key of a seed or of a player.
abbrev pub key : ℕ → Key
key n _ = n

abbrev pub word : ℕ → ReconZ64
word n = Recon.from (wrap n)

abbrev pub returned : {A : Type 0} → A → Outcome A → A
returned d (ok a) = a
returned d (panic e) = d

-- An output that counts.
abbrev pub toy_xof : Xof ⦃b = toy_hash⦄
toy_xof = record { Reader = ℕ; finalize_xof = λ _. 0; fill_reader = λ r n. ((r % 256) ∷ [], suc r) }
