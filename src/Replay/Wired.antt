-- ===== src/Replay/Wired.antt =====
-- interpreter/single.rs: the gates of a circuit that read wires and write one, on the prover's
-- machine and on the verifier's.
use reverie_ppr.Prelude.{ℕ, ◌≡◌, sym, subst, Fin, ok, ◌>>=◌, >>=-eq-ok, read, AllPairs-read}
use reverie_ppr.Crypto.{StreamCipher, Blake3}
use reverie_ppr.Algebra.{Domain, Lanes, players, packed}
use reverie_ppr.Transcript.{Wire}
use reverie_ppr.Transcript.Prover.{ProverTranscript, prover}
use reverie_ppr.Transcript.Online.{online}
use reverie_ppr.Interpreter.{mul}
use reverie_ppr.Interpreter.Single.{assign, step}
use reverie_ppr.Replay.{WireFits}
use reverie_ppr.Replay.Product.{Log, nothing, Records, product_log, op_mul-Records, op_mul-Fits}
use reverie_ppr.Replay.Machine.{ProverMachine, Follows, nothing_recorded, assign-Fits, assigned}

module _ ⦃c : StreamCipher⦄ ⦃b : Blake3⦄ (D : Domain) (L : Lanes D) (i j : Fin packed)
    (o : Fin players) (s : ProverMachine D) where
  pub recorded :
      (dst : ℕ) (w : Wire D) (t : ProverTranscript D) (d : Log D) {u : ProverMachine D}
      → assign D s dst (w, t) ≡ ok u
      → Records D s.transcript t d
      → Records D s.transcript u.transcript d
  recorded dst w t d e r =
      subst (λ t. Records D s.transcript t d) (sym (assigned D L i j o s dst w t e)) r

  pub unary-Follows :
      (dst src : ℕ) (op : Wire D → Wire D) {u : ProverMachine D}
      → ((w w' : Wire D) → WireFits D L i j o w w' → WireFits D L i j o (op w) (op w'))
      → (read s.wires src >>= λ w. assign D s dst (op w, s.transcript)) ≡ ok u
      → Follows D L i j o s u
          (λ s'. read s'.wires src >>= λ w. assign D s' dst (op w, s'.transcript))
  unary-Follows dst src op {u} h e =
      let (w, e₁, e₂) = >>=-eq-ok (read s.wires src) _ e in
      record {
        said = nothing D;
        records =
            recorded dst (op w) s.transcript (nothing D) e₂
              (nothing_recorded D L i j o s.transcript);
        replay = λ s' l fits covers.
            let (w', e₃, f) =
              AllPairs-read (WireFits D L i j o) s.wires s'.wires src fits.wires e₁ in
            rw e₃ (
              assign-Fits D L i j o s u s' dst (op w) (op w') s.transcript s'.transcript l e₂
                fits.wires (h w w' f) fits.transcript covers);
      }

  pub binary-Follows :
      (dst src1 src2 : ℕ) (op : Wire D → Wire D → Wire D) {u : ProverMachine D}
      → ((w w' v v' : Wire D)
          → WireFits D L i j o w w'
          → WireFits D L i j o v v'
          → WireFits D L i j o (op w v) (op w' v'))
      → (read s.wires src1 >>= λ w.
          read s.wires src2 >>= λ v. assign D s dst (op w v, s.transcript))
        ≡ ok u
      → Follows D L i j o s u (λ s'. read s'.wires src1 >>= λ w.
          read s'.wires src2 >>= λ v. assign D s' dst (op w v, s'.transcript))
  binary-Follows dst src1 src2 op {u} h e =
      let (w, e₁, e₂) = >>=-eq-ok (read s.wires src1) _ e in
      let (v, e₃, e₄) = >>=-eq-ok (read s.wires src2) _ e₂ in
      record {
        said = nothing D;
        records =
            recorded dst (op w v) s.transcript (nothing D) e₄
              (nothing_recorded D L i j o s.transcript);
        replay = λ s' l fits covers.
            let (w', e₅, f) =
              AllPairs-read (WireFits D L i j o) s.wires s'.wires src1 fits.wires e₁ in
            let (v', e₆, g) =
              AllPairs-read (WireFits D L i j o) s.wires s'.wires src2 fits.wires e₃ in
            rw (e₅, e₆)
              (assign-Fits D L i j o s u s' dst (op w v) (op w' v') s.transcript s'.transcript l e₄
                fits.wires (h w w' v v' f g) fits.transcript covers);
      }

  pub mul-Follows :
      (dst src1 src2 : ℕ) {u : ProverMachine D}
      → step D (prover D) s (mul dst src1 src2) ≡ ok u
      → Follows D L i j o s u (λ s'. step D (online D) s' (mul dst src1 src2))
  unfolding step
  mul-Follows dst src1 src2 {u} e =
      let (w, e₁, e₂) = >>=-eq-ok (read s.wires src1) _ e in
      let (v, e₃, e₄) = >>=-eq-ok (read s.wires src2) _ e₂ in
      record {
        said = product_log D s.transcript w v;
        records = recorded dst _ _ _ e₄ (op_mul-Records D s.transcript w v);
        replay = λ s' l fits covers.
            let (w', e₅, f) =
              AllPairs-read (WireFits D L i j o) s.wires s'.wires src1 fits.wires e₁ in
            let (v', e₆, g) =
              AllPairs-read (WireFits D L i j o) s.wires s'.wires src2 fits.wires e₃ in
            let (product, agree, rest) =
              op_mul-Fits D L i j o s.transcript s'.transcript w w' v v' fits.transcript f g l
                covers in
            rw (e₅, e₆)
              (assign-Fits D L i j o s u s' dst _ _ _ _ l e₄ fits.wires product agree rest);
      }
