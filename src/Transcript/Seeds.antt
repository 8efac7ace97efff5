-- ===== src/Transcript/Seeds.antt =====
-- transcript/mod.rs: the players' keys of a repetition, expanded from its seed.
use reverie_ppr.Prelude.{ℕ, Fin, Array}
use reverie_ppr.Crypto.{StreamCipher, Blake3, Key}
use reverie_ppr.Crypto.Prg.{array_of_bytes, Prg, prg_new, gen}
use reverie_ppr.Algebra.{Domain, players, packed}
use reverie_ppr.Generator.{ShareGen, share_gen_new}

module _ ⦃c : StreamCipher⦄ where
  -- `for key in keys.iter_mut() { prg.gen(key) }`
  unfoldable pub gen_keys : (n : ℕ) → Prg → Array Key n
  unfolding gen array_of_bytes
  gen_keys ℕ.zero prg i = elim i [ ]
  gen_keys (ℕ.suc n) prg Fin.zero = array_of_bytes 16 (gen prg 16).0
  gen_keys (ℕ.suc n) prg (Fin.suc i) = gen_keys n (gen prg 16).1 i

  unfoldable pub expand_seed : Key → Array Key players
  unfolding gen_keys prg_new
  expand_seed seed = gen_keys players (prg_new seed)

module _ ⦃c : StreamCipher⦄ ⦃b : Blake3⦄ (D : Domain) where
  unfoldable pub share_gen_from_rep_seeds : Array Key packed → ShareGen D
  unfolding expand_seed share_gen_new
  share_gen_from_rep_seeds seeds = share_gen_new D (λ i. expand_seed (seeds i)) (λ i. players)
