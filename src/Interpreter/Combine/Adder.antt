-- ===== src/Interpreter/Combine/Adder.antt =====
-- interpreter/combine.rs: the ripple-carry adder `add_64` on the prover's transcript.
use reverie_ppr.Prelude.{
  ℕ, zero, suc, ◌+◌, ◌*◌, ◌/◌, ◌%◌, ◌^◌, ◌<◌, ◌≡◌, refl, sym, ◌∙◌, ap, ap₂, arith, Bool, true,
  false, ◌&&◌, Fin, Array,
}
use reverie_ppr.Ring.Sum.{rest}
use reverie_ppr.Bits.{xor, halved}
use reverie_ppr.Crypto.{StreamCipher, Blake3}
use reverie_ppr.Algebra.Gf2.Laws.{recon_lane, domain_gf2, lanes_gf2}
use reverie_ppr.Transcript.Prover.{ProverTranscript, prover}
use reverie_ppr.Interpreter.Single.{value, op_add, op_mul}
use reverie_ppr.Interpreter.Single.Value.{WireIsValid, value-op_add, op_add-IsValid}
use reverie_ppr.Interpreter.Single.Product.{value-op_mul, op_mul-IsValid}
use reverie_ppr.Interpreter.Combine.{WireGf2, add_rounds, add_64}
use reverie_ppr.Interpreter.Combine.Conversion.{digit_of, number_of, lane}

-- One column: the sum bit and the carry of three bits.
sum_bit : Bool → Bool → Bool → Bool
sum_bit a b c = xor (xor a c) b

carry_bit : Bool → Bool → Bool → Bool
carry_bit a b c = xor (xor a c && xor b c) c

full_adder :
    (a b c : Bool)
    → digit_of a + digit_of b + digit_of c
      ≡ digit_of (sum_bit a b c) + 2 * digit_of (carry_bit a b c)
unfolding sum_bit carry_bit
full_adder false false false = refl
full_adder false false true = refl
full_adder false true false = refl
full_adder false true true = refl
full_adder true false false = refl
full_adder true false true = refl
full_adder true true false = refl
full_adder true true true = refl

last_column :
    (a b c : Bool)
    → digit_of (xor c (xor a b)) + 2 * 0
      ≡ ((digit_of a + 2 * 0) + (digit_of b + 2 * 0) + digit_of c) % 2 ^ 1
last_column false false false = refl
last_column false false true = refl
last_column false true false = refl
last_column false true true = refl
last_column true false false = refl
last_column true false true = refl
last_column true true false = refl
last_column true true true = refl

digit_of-lt : (b : Bool) → digit_of b < 2
digit_of-lt true = omega arith
digit_of-lt false = omega arith

-- The columns above are added with the carry of the lowest.
add_column :
    (n : ℕ) (a b c : Bool) (x y : ℕ)
    → digit_of (sum_bit a b c) + 2 * ((x + y + digit_of (carry_bit a b c)) % 2 ^ n)
      ≡ ((digit_of a + 2 * x) + (digit_of b + 2 * y) + digit_of c) % 2 ^ suc n
add_column n a b c x y = sym (
    halved n ((digit_of a + 2 * x) + (digit_of b + 2 * y) + digit_of c)
    ∙ ap₂ (λ q d. q % 2 ^ n * 2 + d) above lowest
    ∙ omega arith)
  where
    above :
        ((digit_of a + 2 * x) + (digit_of b + 2 * y) + digit_of c) / 2
        ≡ x + y + digit_of (carry_bit a b c)
    above = omega (arith, full_adder a b c, digit_of-lt (sum_bit a b c))

    lowest :
        ((digit_of a + 2 * x) + (digit_of b + 2 * y) + digit_of c) % 2 ≡ digit_of (sum_bit a b c)
    lowest = omega (arith, full_adder a b c, digit_of-lt (sum_bit a b c))

module _ ⦃c : StreamCipher⦄ ⦃b : Blake3⦄ where
  abbrev Valid : WireGf2 → Type 0
  Valid w = WireIsValid domain_gf2 lanes_gf2 w

  lane-op_add :
      (w v : WireGf2) (r : Fin 8)
      → Valid w
      → Valid v
      → lane (op_add domain_gf2 w v) r ≡ xor (lane w r) (lane v r)
  unfolding lanes_gf2
  lane-op_add w v r hw hv =
      ap (λ x. recon_lane x r) (value-op_add domain_gf2 lanes_gf2 w v hw hv)
      ∙ lanes_gf2.recon_add-lane (value domain_gf2 w) (value domain_gf2 v) r

  lane-op_mul :
      (t : ProverTranscript domain_gf2) (w v : WireGf2) (r : Fin 8)
      → Valid w
      → Valid v
      → lane (op_mul domain_gf2 (prover domain_gf2) t w v).0 r ≡ (lane w r && lane v r)
  unfolding lanes_gf2
  lane-op_mul t w v r hw hv =
      ap (λ x. recon_lane x r) (value-op_mul domain_gf2 lanes_gf2 t w v hw hv)
      ∙ lanes_gf2.recon_mul-lane (value domain_gf2 w) (value domain_gf2 v) r

  module _ (r : Fin 8) where
    lanes : {n : ℕ} → Array WireGf2 n → Array Bool n
    lanes wires i = lane (wires i) r

    add_rounds-number_of :
        (n : ℕ) (t : ProverTranscript domain_gf2) (carry : WireGf2) (x y : Array WireGf2 (suc n))
        → Valid carry
        → ((i : Fin (suc n)) → Valid (x i))
        → ((i : Fin (suc n)) → Valid (y i))
        → number_of (suc n) (lanes (add_rounds (prover domain_gf2) n t carry x y).0)
          ≡ (number_of (suc n) (lanes x) + number_of (suc n) (lanes y) + digit_of (lane carry r))
            % 2 ^ suc n
    unfolding add_rounds lanes number_of carry_bit sum_bit
    add_rounds-number_of zero t carry x y hc hx hy =
        let sum = op_add domain_gf2 (x Fin.zero) (y Fin.zero) in
        let valid =
          op_add-IsValid domain_gf2 lanes_gf2 (x Fin.zero) (y Fin.zero) (hx Fin.zero)
            (hy Fin.zero) in
        ap (λ d. digit_of d + 2 * 0)
          (lane-op_add carry sum r hc valid
            ∙ ap (xor (lane carry r))
                (lane-op_add (x Fin.zero) (y Fin.zero) r (hx Fin.zero) (hy Fin.zero)))
        ∙ last_column (lane (x Fin.zero) r) (lane (y Fin.zero) r) (lane carry r)
    add_rounds-number_of (suc n) t carry x y hc hx hy =
        let a = x Fin.zero in
        let b = y Fin.zero in
        let ac = op_add domain_gf2 a carry in
        let bc = op_add domain_gf2 b carry in
        let product = op_mul domain_gf2 (prover domain_gf2) t ac bc in
        let carry' = op_add domain_gf2 product.0 carry in
        let h_ac : Valid ac = op_add-IsValid domain_gf2 lanes_gf2 a carry (hx Fin.zero) hc in
        let h_bc : Valid bc = op_add-IsValid domain_gf2 lanes_gf2 b carry (hy Fin.zero) hc in
        let h_product : Valid product.0 = op_mul-IsValid domain_gf2 lanes_gf2 t ac bc h_ac h_bc in
        let h_carry : Valid carry' =
          op_add-IsValid domain_gf2 lanes_gf2 product.0 carry h_product hc in
        let lane_ac = lane-op_add a carry r (hx Fin.zero) hc in
        let lane_bc = lane-op_add b carry r (hy Fin.zero) hc in
        let lane_carry : lane carry' r ≡ carry_bit (lane a r) (lane b r) (lane carry r) =
          lane-op_add product.0 carry r h_product hc
          ∙ ap (λ d. xor d (lane carry r))
              (lane-op_mul t ac bc r h_ac h_bc ∙ ap₂ ◌&&◌ lane_ac lane_bc) in
        let lane_sum : lane (op_add domain_gf2 ac b) r
            ≡ sum_bit (lane a r) (lane b r) (lane carry r) =
          lane-op_add ac b r h_ac (hy Fin.zero) ∙ ap (λ d. xor d (lane b r)) lane_ac in
        let above = number_of (suc n) (lanes (rest x)) in
        let above' = number_of (suc n) (lanes (rest y)) in
        ap₂ (λ d m. digit_of d + 2 * m) lane_sum
          (add_rounds-number_of n product.1 carry' (rest x) (rest y) h_carry (λ i. hx (Fin.suc i))
              (λ i. hy (Fin.suc i))
            ∙ ap (λ d. (above + above' + digit_of d) % 2 ^ suc n) lane_carry)
        ∙ add_column (suc n) (lane a r) (lane b r) (lane carry r) above above'

    first_column :
        (a b : Bool)
        → (digit_of (xor a b) ≡ digit_of (sum_bit a b false))
          × (digit_of (a && b) ≡ digit_of (carry_bit a b false))
    unfolding sum_bit carry_bit
    first_column false false = (refl, refl)
    first_column false true = (refl, refl)
    first_column true false = (refl, refl)
    first_column true true = (refl, refl)

    -- On the prover's transcript and wires with valid corrections, the numbers that the two
    -- operands of `add_64` hold in a repetition are added modulo 2 ^ 64, whatever the masks are.
    pub add_64-number_of :
        (t : ProverTranscript domain_gf2) (x y : Array WireGf2 64)
        → ((i : Fin 64) → Valid (x i))
        → ((i : Fin 64) → Valid (y i))
        → number_of 64 (λ i. lane ((add_64 (prover domain_gf2) t x y).0 i) r)
          ≡ (number_of 64 (λ i. lane (x i) r) + number_of 64 (λ i. lane (y i) r)) % 2 ^ 64
    unfolding add_64 lanes number_of sum_bit carry_bit
    add_64-number_of t x y hx hy =
        let a = x Fin.zero in
        let b = y Fin.zero in
        let product = op_mul domain_gf2 (prover domain_gf2) t a b in
        let h_product : Valid product.0 =
          op_mul-IsValid domain_gf2 lanes_gf2 t a b (hx Fin.zero) (hy Fin.zero) in
        let above = number_of 63 (lanes (rest x)) in
        let above' = number_of 63 (lanes (rest y)) in
        ap₂ (λ d m. d + 2 * m)
          (ap digit_of (lane-op_add a b r (hx Fin.zero) (hy Fin.zero))
            ∙ (first_column (lane a r) (lane b r)).0)
          (add_rounds-number_of 62 product.1 product.0 (rest x) (rest y) h_product
              (λ i. hx (Fin.suc i)) (λ i. hy (Fin.suc i))
            ∙ ap (λ d. (above + above' + d) % 2 ^ 63)
                (ap digit_of (lane-op_mul t a b r (hx Fin.zero) (hy Fin.zero))
                  ∙ (first_column (lane a r) (lane b r)).1))
        ∙ add_column 63 (lane a r) (lane b r) false above above'
        ∙ no_carry (digit_of (lane a r) + 2 * above) (digit_of (lane b r) + 2 * above')
      where
        no_carry : (m k : ℕ) → (m + k + 0) % 2 ^ 64 ≡ (m + k) % 2 ^ 64
        no_carry m k = omega arith
