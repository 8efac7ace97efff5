-- ===== src/Proof/Complete/Chunks.antt =====
-- proof/mod.rs, `Proof::verify`: the openings of both domains in chunks of eight, and what is run
-- on each pair of chunks.
use reverie_ppr.Prelude.{
  ℕ, zero, suc, ◌+◌, ◌*◌, ◌≡◌, refl, sym, ◌∙◌, ap, ap₂, arith, fun_ext, List, [], ◌∷◌, ◌++◌, map,
  drop, length, Fin, Array, push_front, to_list, All, Outcome, ok, ◌>>=◌, read, subst,
}
use reverie_ppr.Ring.Sum.{rest}
use reverie_ppr.Crypto.{StreamCipher, Blake3}
use reverie_ppr.Algebra.{packed}
use reverie_ppr.Interpreter.Combine.{wires_from}
use reverie_ppr.Proof.Prove.{flatten}
use reverie_ppr.Proof.Verify.{chunks, map_zip}
use reverie_ppr.Proof.Complete.{Entry}

wires_from-tail :
    {A : Type 0} (n : ℕ) (x : A) (xs : List A) (k : ℕ)
    → wires_from n (x ∷ xs) (suc k) ≡ wires_from n xs k
unfolding wires_from read
wires_from-tail zero x xs k = refl
wires_from-tail (suc n) x xs k =
    ap (λ m. read xs k >>= λ w. m >>= λ more. ok (push_front w more))
      (wires_from-tail n x xs (suc k))

push_front-map :
    {A B : Type 0} (f : A → B) {n : ℕ} (x : A) (a : Array A n)
    → push_front (f x) (λ i. f (a i)) ≡ (λ i. f (push_front x a i))
push_front-map f {n} x a = fun_ext (each f x a)
  where
    each :
        {A B : Type 0} (f : A → B) {n : ℕ} (x : A) (a : Array A n) (i : Fin (suc n))
        → push_front (f x) (λ i. f (a i)) i ≡ f (push_front x a i)
    each f x a Fin.zero = refl
    each f x a (Fin.suc i) = refl

-- The first of a list that is long enough, and what is left.
take_front :
    {A : Type 0} (n m : ℕ) (xs : List A)
    → length xs ≡ n + m
    → (a : Array A n) × (xs ≡ to_list n a ++ drop n xs) × (length (drop n xs) ≡ m)
take_front zero m xs h = ((λ i. elim i [ ]), refl, omega (arith, h))
take_front (suc n) m [] h = absurd (omega (arith, h))
take_front (suc n) m (x ∷ xs) h =
    let (a, e, h') = take_front n m xs (omega (arith, h)) in (push_front x a, ap (λ l. x ∷ l) e, h')

-- They are read from a list that starts with them.
wires_from-front :
    {A B : Type 0} (f : A → B) (n : ℕ) (a : Array A n) (xs : List A)
    → wires_from n (map f (to_list n a ++ xs)) 0 ≡ ok (λ i. f (a i))
unfolding wires_from read
wires_from-front f zero a xs = ap ok (fun_ext λ i. elim i [ ])
wires_from-front f (suc n) a xs =
    ap (λ m. m >>= λ more. ok (push_front (f (a Fin.zero)) more))
      (wires_from-tail n (f (a Fin.zero)) (map f (to_list n (rest a) ++ xs)) 0
        ∙ wires_from-front f n (rest a) xs)
    ∙ ap ok (fun_ext (each f a))
  where
    each :
        {A B : Type 0} (f : A → B) {n : ℕ} (a : Array A (suc n)) (i : Fin (suc n))
        → push_front (f (a Fin.zero)) (λ i. f (rest a i)) i ≡ f (a i)
    each f a Fin.zero = refl
    each f a (Fin.suc i) = refl

drop-front :
    {A B : Type 0} (f : A → B) (n : ℕ) (a : Array A n) (xs : List A)
    → drop n (map f (to_list n a ++ xs)) ≡ map f xs
drop-front f zero a xs = refl
drop-front f (suc n) a xs = drop-front f n (rest a) xs

map-front :
    {A B : Type 0} (f : A → B) (n : ℕ) (a : Array A n) (xs : List A)
    → map f (to_list n a ++ xs) ≡ to_list n (λ i. f (a i)) ++ map f xs
map-front f zero a xs = refl
map-front f (suc n) a xs = ap (λ l. f (a Fin.zero) ∷ l) (map-front f n (rest a) xs)

All-front :
    {A : Type 0} (P : A → Type 0) (n : ℕ) (a : Array A n) (xs : List A)
    → All P (to_list n a ++ xs)
    → ((i : Fin n) → P (a i)) × All P xs
All-front P zero a xs h = ((λ i. elim i [ ]), h)
All-front P (suc n) a xs h =
    let (each, more) = All-front P n (rest a) xs h.1 in (go P a h.0 each, more)
  where
    go :
        {A : Type 0} (P : A → Type 0) {n : ℕ} (a : Array A (suc n))
        → P (a Fin.zero)
        → ((i : Fin n) → P (rest a i))
        → (i : Fin (suc n)) → P (a i)
    go P a p h Fin.zero = p
    go P a p h (Fin.suc i) = h i

module _ ⦃c : StreamCipher⦄ ⦃b : Blake3⦄ {A : Type 0}
    (f : Array A packed → Array A packed → Outcome (Array b.Digest 8))
    (P : Entry A b.Digest → Type 0)
    (runs : (e : Array (Entry A b.Digest) packed)
      → ((i : Fin packed) → P (e i))
      → f (λ i. (e i).gf2) (λ i. (e i).z64) ≡ ok (λ i. (e i).hash)) where
  -- Where each chunk of good entries is run to the entries' hashes, so is a list of chunks.
  pub chunks-flatten :
      (n : ℕ) (entries : List (Entry A b.Digest))
      → length entries ≡ 8 * n
      → All P entries
      → (gf2 : List (Array A packed)) × (z64 : List (Array A packed)) × (hashes : List
          (Array b.Digest 8))
        × (chunks n (map (λ e. e.gf2) entries) ≡ ok gf2)
        × (chunks n (map (λ e. e.z64) entries) ≡ ok z64)
        × (map_zip f gf2 z64 ≡ ok hashes)
        × (flatten hashes ≡ map (λ e. e.hash) entries)
  unfolding chunks map_zip
  chunks-flatten zero [] h good = ([], [], [], refl, refl, refl, refl)
  chunks-flatten zero (e ∷ entries) h good = absurd (omega (arith, h))
  chunks-flatten (suc n) entries h good =
      let (a, e, h') = take_front 8 (8 * n) entries (omega (arith, h)) in
      let (each, more_good) = All-front P 8 a (drop 8 entries) (subst (All P) e good) in
      let (gf2, z64, hashes, e₁, e₂, e₃, e₄) = chunks-flatten n (drop 8 entries) h' more_good in
      (
        (λ i. (a i).gf2) ∷ gf2,
        (λ i. (a i).z64) ∷ z64,
        (λ i. (a i).hash) ∷ hashes,
        chunk (λ e. e.gf2) n a entries e gf2 e₁,
        chunk (λ e. e.z64) n a entries e z64 e₂,
        rw (runs a each, e₃) refl,
        ap (λ l. to_list 8 (λ i. (a i).hash) ++ l) e₄
            ∙ sym (ap (map (λ e. e.hash)) e ∙ map-front (λ e. e.hash) 8 a (drop 8 entries)),
      )
    where
      chunk :
          (g : Entry A b.Digest → A) (n : ℕ) (a : Array (Entry A b.Digest) 8)
          (entries : List (Entry A b.Digest))
          → entries ≡ to_list 8 a ++ drop 8 entries
          → (cs : List (Array A packed)) → chunks n (map g (drop 8 entries)) ≡ ok cs
          → chunks (suc n) (map g entries) ≡ ok ((λ i. g (a i)) ∷ cs)
      chunk g n a entries e cs e' =
          ap (λ l. chunks (suc n) (map g l)) e
          ∙ ap₂ (λ first later. first >>= λ c. chunks n later >>= λ more. ok (c ∷ more))
              (wires_from-front g 8 a (drop 8 entries)) (drop-front g 8 a (drop 8 entries))
          ∙ ap (λ m. m >>= λ more. ok ((λ i. g (a i)) ∷ more)) e'
