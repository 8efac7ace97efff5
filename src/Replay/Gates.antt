-- ===== src/Replay/Gates.antt =====
-- The gates keep wires fitting: an operation on the verifier's side is the prover's without the
-- omitted player.
use reverie_ppr.Prelude.{
  ◌≡◌, refl, sym, ap, ap₂, ◌∙◌, fun_ext, Fin, same, Bool, true, false, if◌then◌else◌,
}
use reverie_ppr.Ring.{zero-mul, sub_self}
use reverie_ppr.Crypto.{StreamCipher, Blake3}
use reverie_ppr.Algebra.{Domain, Lanes, players, packed}
use reverie_ppr.Transcript.{Wire}
use reverie_ppr.Interpreter.Single.{op_add, op_sub, op_add_const, op_sub_const, op_mul_const}
use reverie_ppr.Replay.{ShareFits, ReconFits, WireFits}

module _ ⦃c : StreamCipher⦄ ⦃b : Blake3⦄ (D : Domain) (L : Lanes D) (i j : Fin packed)
    (o : Fin players) where
  open L use {Lane, share_lane, recon_lane}

  -- Hiding a player commutes with an operation that sends zeros to zero.
  hide_both :
      (f : Lane → Lane → Lane)
      → f L.ring.zero L.ring.zero ≡ L.ring.zero
      → (test : Bool) (x y : Lane)
      → f (if test then L.ring.zero else x) (if test then L.ring.zero else y)
        ≡ (if test then L.ring.zero else f x y)
  hide_both f z true x y = z
  hide_both f z false x y = refl

  hide_one :
      (f : Lane → Lane)
      → f L.ring.zero ≡ L.ring.zero
      → (test : Bool) (x : Lane)
      → f (if test then L.ring.zero else x) ≡ (if test then L.ring.zero else f x)
  hide_one f z true x = z
  hide_one f z false x = refl

  module _ (s t s' t' : D.Share) (h : ShareFits D L i j o s s') (k : ShareFits D L i j o t t') where
    pub share_add-Fits : ShareFits D L i j o (D.share_add s t) (D.share_add s' t')
    share_add-Fits = fun_ext λ p.
        L.share_add-lane s' t' j p
        ∙ ap₂ L.ring.add (λ e. h e p) (λ e. k e p)
        ∙ hide_both L.ring.add (L.ring.zero-add _) (same p o) (share_lane s i p) (share_lane t i p)
        ∙ ap (λ x. if same p o then L.ring.zero else x) (sym (L.share_add-lane s t i p))

    pub share_sub-Fits : ShareFits D L i j o (D.share_sub s t) (D.share_sub s' t')
    share_sub-Fits = fun_ext λ p.
        L.share_sub-lane s' t' j p
        ∙ ap₂ L.ring.sub (λ e. h e p) (λ e. k e p)
        ∙ hide_both L.ring.sub (sub_self ⦃s = L.ring⦄ _) (same p o) (share_lane s i p)
            (share_lane t i p)
        ∙ ap (λ x. if same p o then L.ring.zero else x) (sym (L.share_sub-lane s t i p))

  pub share_mul-Fits :
      (s s' : D.Share) (x x' : D.Recon)
      → ShareFits D L i j o s s'
      → ReconFits D L i j o x x'
      → ShareFits D L i j o (D.share_mul s x) (D.share_mul s' x')
  share_mul-Fits s s' x x' h r = fun_ext λ p.
      L.share_mul-lane s' x' r.valid' j p
      ∙ ap₂ L.ring.mul (λ e. h e p) r.lane
      ∙ hide_one (λ y. L.ring.mul y (recon_lane x i)) (zero-mul ⦃s = L.ring⦄ _) (same p o)
          (share_lane s i p)
      ∙ ap (λ y. if same p o then L.ring.zero else y) (sym (L.share_mul-lane s x r.valid i p))

  pub share_zero-Fits : ShareFits D L i j o D.share_zero D.share_zero
  share_zero-Fits = fun_ext λ p.
      L.share_zero-lane j p ∙ blank (same p o) (share_lane D.share_zero i p) (L.share_zero-lane i p)
    where
      blank :
          (test : Bool) (x : Lane)
          → x ≡ L.ring.zero
          → L.ring.zero ≡ (if test then L.ring.zero else x)
      blank true x e = refl
      blank false x e = sym e

  module _ (x y x' y' : D.Recon) (r : ReconFits D L i j o x x') (q : ReconFits D L i j o y y') where
    pub recon_add-Fits : ReconFits D L i j o (D.recon_add x y) (D.recon_add x' y')
    recon_add-Fits = record {
      lane = L.recon_add-lane x' y' j ∙ ap₂ L.ring.add r.lane q.lane ∙ sym (L.recon_add-lane x y i);
      valid = L.recon_add-IsValid x y r.valid q.valid;
      valid' = L.recon_add-IsValid x' y' r.valid' q.valid';
    }

    pub recon_sub-Fits : ReconFits D L i j o (D.recon_sub x y) (D.recon_sub x' y')
    recon_sub-Fits = record {
      lane = L.recon_sub-lane x' y' j ∙ ap₂ L.ring.sub r.lane q.lane ∙ sym (L.recon_sub-lane x y i);
      valid = L.recon_sub-IsValid x y r.valid q.valid;
      valid' = L.recon_sub-IsValid x' y' r.valid' q.valid';
    }

    pub recon_mul-Fits : ReconFits D L i j o (D.recon_mul x y) (D.recon_mul x' y')
    recon_mul-Fits = record {
      lane = L.recon_mul-lane x' y' j ∙ ap₂ L.ring.mul r.lane q.lane ∙ sym (L.recon_mul-lane x y i);
      valid = L.recon_mul-IsValid x y r.valid q.valid;
      valid' = L.recon_mul-IsValid x' y' r.valid' q.valid';
    }

  pub recon_zero-Fits : ReconFits D L i j o D.recon_zero D.recon_zero
  recon_zero-Fits = record {
    lane = L.recon_zero-lane j ∙ sym (L.recon_zero-lane i);
    valid = L.recon_zero-IsValid;
    valid' = L.recon_zero-IsValid;
  }

  pub into-Fits : (k : D.Const) → ReconFits D L i j o (D.into k) (D.into k)
  into-Fits k = record {
    lane = L.into-lane k j ∙ sym (L.into-lane k i);
    valid = L.into-IsValid k;
    valid' = L.into-IsValid k;
  }

  module _ (w w' v v' : Wire D) (f : WireFits D L i j o w w') (g : WireFits D L i j o v v') where
    pub op_add-Fits : WireFits D L i j o (op_add D w v) (op_add D w' v')
    unfolding op_add
    op_add-Fits = record {
      mask = share_add-Fits _ _ _ _ f.mask g.mask;
      corr = recon_add-Fits _ _ _ _ f.corr g.corr;
    }

    pub op_sub-Fits : WireFits D L i j o (op_sub D w v) (op_sub D w' v')
    unfolding op_sub
    op_sub-Fits = record {
      mask = share_sub-Fits _ _ _ _ f.mask g.mask;
      corr = recon_sub-Fits _ _ _ _ f.corr g.corr;
    }

  module _ (w w' : Wire D) (k : D.Const) (f : WireFits D L i j o w w') where
    pub op_add_const-Fits :
        WireFits D L i j o (op_add_const D w (D.into k)) (op_add_const D w' (D.into k))
    unfolding op_add_const
    op_add_const-Fits = record { mask = f.mask; corr = recon_add-Fits _ _ _ _ f.corr (into-Fits k) }

    pub op_sub_const-Fits :
        WireFits D L i j o (op_sub_const D w (D.into k)) (op_sub_const D w' (D.into k))
    unfolding op_sub_const
    op_sub_const-Fits = record { mask = f.mask; corr = recon_sub-Fits _ _ _ _ f.corr (into-Fits k) }

    pub op_mul_const-Fits :
        WireFits D L i j o (op_mul_const D w (D.into k)) (op_mul_const D w' (D.into k))
    unfolding op_mul_const
    op_mul_const-Fits = record {
      mask = share_mul-Fits _ _ _ _ f.mask (into-Fits k);
      corr = recon_mul-Fits _ _ _ _ f.corr (into-Fits k);
    }
