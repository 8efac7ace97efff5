-- ===== src/Proof/Ordered.antt =====
-- proof/mod.rs: the loop of `Proof::verify` that orders the hashes does not run out of them.
use reverie_ppr.Prelude.{
  ℕ, zero, suc, ◌+◌, ◌≤◌, ◌≡◌, refl, sym, ◌∙◌, ap, arith, Bool, true, false, List, [], ◌∷◌, length,
  some, ok, ◌>>=◌, if◌then◌else◌,
}
use reverie_ppr.Crypto.{Blake3}
use reverie_ppr.Proof.{Openings, total_reps, combine_hashes, contains_key, pick_hash, order_hashes}
use reverie_ppr.Proof.Format.{count, count-contains_key}
use reverie_ppr.Proof.Assembled.{IsChallenge, All-left}
use reverie_ppr.Proof.Verify.{compare_hashes, same_bytes}

plus_one : (i : ℕ) → i + 1 ≡ suc i
plus_one i = omega arith

count-le : (n s : ℕ) (f : ℕ → Bool) → count n s f ≤ n
unfolding count
count-le zero s f = omega arith
count-le (suc n) s f = step (f s) (count n (suc s) f) n (count-le n (suc s) f)
  where
    step : (b : Bool) (k n : ℕ) → k ≤ n → (if b then 1 else 0) + k ≤ suc n
    step true k n h = omega arith
    step false k n h = omega arith

module _ {A : Type 0} (opened : Openings) where
  order_hashes-returns :
      (n i : ℕ) (online preprocessing : List A)
      → length online ≡ count n i (contains_key opened)
      → length preprocessing + count n i (contains_key opened) ≡ n
      → (hashes : List A) × (order_hashes opened i n online preprocessing ≡ ok hashes)
  unfolding order_hashes pick_hash count
  order_hashes-returns zero i online preprocessing h h' = ([], refl)
  order_hashes-returns (suc n) i online preprocessing h h' =
      go (contains_key opened i) refl online preprocessing h h' λ on pre e e'.
        order_hashes-returns n (i + 1) on pre
          (e ∙ ap (λ k. count n k (contains_key opened)) (sym (plus_one i)))
          (ap (λ k. length pre + count n k (contains_key opened)) (plus_one i) ∙ e')
    where
      go :
          (b : Bool)
          → contains_key opened i ≡ b
          → (online preprocessing : List A)
          → length online ≡ (if b then 1 else 0) + count n (suc i) (contains_key opened)
          → length preprocessing + ((if b then 1 else 0) + count n (suc i) (contains_key opened))
            ≡ suc n
          → ((on pre : List A)
              → length on ≡ count n (suc i) (contains_key opened)
              → length pre + count n (suc i) (contains_key opened) ≡ n
              → (hashes : List A) × (order_hashes opened (i + 1) n on pre ≡ ok hashes))
          → (hashes : List A) × ((pick_hash b online preprocessing >>= λ (h, on, pre).
                order_hashes opened (i + 1) n on pre >>= λ hashes. ok (h ∷ hashes))
              ≡ ok hashes)
      go true e [] pre h h' again = absurd (omega (arith, h))
      go true e (x ∷ on) pre h h' again =
          let (hashes, e') = again on pre (omega (arith, h)) (omega (arith, h')) in
          (x ∷ hashes, rw e' refl)
      go false e on [] h h' again =
          absurd (omega (arith, h', count-le n (suc i) (contains_key opened)))
      go false e on (x ∷ pre) h h' again =
          let (hashes, e') = again on pre (omega (arith, h)) (omega (arith, h')) in
          (x ∷ hashes, rw e' refl)

module _ ⦃b : Blake3⦄ where
  -- Where a challenge opens 40 different repetitions, and there are as many hashes of online runs
  -- and 216 others, `verify` orders them without running out, and comes to a verdict.
  pub compare_hashes-returns :
      (comm : List ℕ) (opened : Openings) (online preprocessing : List b.Digest)
      → IsChallenge opened
      → length online ≡ 40
      → length preprocessing ≡ 216
      → (verdict : Bool) × (compare_hashes comm (online, preprocessing) (some opened)
          ≡ ok (some verdict))
  unfolding compare_hashes
  compare_hashes-returns comm opened online preprocessing h on pre =
      let all = count-contains_key opened h.unique (All-left opened h.entries) ∙ h.size in
      let (hashes, e) =
        order_hashes-returns opened total_reps 0 online preprocessing (on ∙ sym all)
          (omega (arith, all, pre)) in
      (same_bytes (b.as_bytes (combine_hashes hashes)) comm, rw e refl)
