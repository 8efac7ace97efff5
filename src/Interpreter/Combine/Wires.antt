-- ===== src/Interpreter/Combine/Wires.antt =====
-- interpreter/combine.rs: the wires that `step` reads and the ones that it adds.
use reverie_ppr.Prelude.{
  ℕ, zero, suc, ◌-◌, ◌≡◌, refl, subst, Fin, Array, List, ◌++◌, length, replicate, push_front, ok,
  >>=-eq-ok, ok_injective, read, All, All-read, All-append, All-replicate, AllPairs, AllPairs-read,
  AllPairs-append, AllPairs-replicate, AllPairs-length,
}
use reverie_ppr.Interpreter.Combine.{wires_from, resize}

pub wires_from-valid :
    {A : Type 0} (P : A → Type 0) (n : ℕ) (wires : List A) (k : ℕ) {ws : Array A n}
    → All P wires
    → wires_from n wires k ≡ ok ws
    → (i : Fin n) → P (ws i)
unfolding wires_from
wires_from-valid P zero wires k h e i = elim i [ ]
wires_from-valid P (suc n) wires k {ws} h e i =
    let (w, e1, e2) = >>=-eq-ok (read wires k) _ e in
    let (more, e3, e4) = >>=-eq-ok (wires_from n wires (suc k)) _ e2 in
    let first : P w = All-read P wires k h e1 in
    let others = wires_from-valid P n wires (suc k) h e3 in
    subst (λ ws. P (ws i)) (ok_injective e4) (each P w more first others i)
  where
    each :
        {A : Type 0} (P : A → Type 0) {n : ℕ} (w : A) (more : Array A n)
        → P w
        → ((i : Fin n) → P (more i))
        → (i : Fin (suc n)) → P (push_front w more i)
    each P w more p h Fin.zero = p
    each P w more p h (Fin.suc i) = h i

pub wires_from-pairs :
    {A B : Type 0} (R : A → B → Type 0) (n : ℕ) (xs : List A) (ys : List B) (k : ℕ) {ws : Array A n}
    → AllPairs R xs ys
    → wires_from n xs k ≡ ok ws
    → (vs : Array B n) × (wires_from n ys k ≡ ok vs) × ((i : Fin n) → R (ws i) (vs i))
unfolding wires_from
wires_from-pairs R zero xs ys k h e = ((λ i. elim i [ ]), refl, λ i. elim i [ ])
wires_from-pairs R (suc n) xs ys k {ws} h e =
    let (w, e1, e2) = >>=-eq-ok (read xs k) _ e in
    let (more, e3, e4) = >>=-eq-ok (wires_from n xs (suc k)) _ e2 in
    let (v, e5, first) = AllPairs-read R xs ys k h e1 in
    let (others, e6, fits) = wires_from-pairs R n xs ys (suc k) h e3 in
    (
      push_front v others,
      rw (e5, e6) refl,
      λ i.
          subst (λ ws. R (ws i) (push_front v others i)) (ok_injective e4)
            (each R w v more others first fits i),
    )
  where
    each :
        {A B : Type 0} (R : A → B → Type 0) {n : ℕ} (w : A) (v : B) (more : Array A n)
        (others : Array B n)
        → R w v
        → ((i : Fin n) → R (more i) (others i))
        → (i : Fin (suc n)) → R (push_front w more i) (push_front v others i)
    each R w v more others p h Fin.zero = p
    each R w v more others p h (Fin.suc i) = h i

pub resize-All :
    {A : Type 0} (P : A → Type 0) (size : ℕ) (default : A) (xs : List A)
    → P default
    → All P xs
    → All P (resize size default xs)
unfolding resize
resize-All P size default xs p h = All-append P xs _ h (All-replicate P (size - length xs) p)

pub resize-pairs :
    {A B : Type 0} (R : A → B → Type 0) (size : ℕ) (x : A) (y : B) (xs : List A) (ys : List B)
    → R x y
    → AllPairs R xs ys
    → AllPairs R (resize size x xs) (resize size y ys)
unfolding resize
resize-pairs R size x y xs ys r h =
    subst (λ n. AllPairs R (xs ++ replicate (size - length xs) x) (ys ++ replicate (size - n) y))
      (AllPairs-length R xs ys h)
      (AllPairs-append R xs _ ys _ h (AllPairs-replicate R (size - length xs) x y r))
