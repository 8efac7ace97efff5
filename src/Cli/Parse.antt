-- ===== src/Cli/Parse.antt =====
-- main.rs, `FileStreamer::new` with the parsers of witness.rs: a file is parsed to its end.
use reverie_ppr.Prelude.{
  ℕ, zero, suc, ◌≤◌, ◌≡◌, refl, ◌∙◌, ap, arith, List, [], ◌∷◌, map, length, Option, none, some,
  Bool,
}
use reverie_ppr.Witness.{bit_of, next_bit, next_recon, or_skip, next_recon-next_bit}
use reverie_ppr.Algebra.Gf2.Recon.{from}
use mathlib.Core.Option

-- The element is pushed before those that are parsed later; at the end of the file there is none.
abbrev pub push : {A : Type 0} → Option A → List A → List A
push none rest = []
push (some x) rest = x ∷ rest

-- `while let Some(elem) = parser.next()? { contents.push(elem) }`, for so many elements at most.
unfoldable pub parse_all : {A : Type 0} → (List ℕ → Option A × List ℕ) → ℕ → List ℕ → List A
parse_all next zero bytes = []
parse_all next (suc n) bytes = let (elem, left) = next bytes in push elem (parse_all next n left)

-- Each element takes a byte or more, so there are no more of them than bytes.
unfoldable pub parse_file : {A : Type 0} → (List ℕ → Option A × List ℕ) → List ℕ → List A
unfolding parse_all
parse_file next bytes = parse_all next (suc (length bytes)) bytes

abbrev keep : Option Bool → List Bool → List Bool
keep none bits = bits
keep (some bit) bits = bit ∷ bits

-- The bits that the characters of a file stand for.
abbrev pub bits_of : List ℕ → List Bool
bits_of [] = []
bits_of (c ∷ bytes) = keep (bit_of c) (bits_of bytes)

parse_all-or_skip :
    (o : Option Bool) (n : ℕ) (bytes : List ℕ)
    → parse_all next_bit (suc n) bytes ≡ bits_of bytes
    → parse_all next_bit n bytes ≡ bits_of bytes
    → push
        (or_skip o bytes (next_bit bytes)).0
        (parse_all next_bit n (or_skip o bytes (next_bit bytes)).1)
      ≡ keep o (bits_of bytes)
unfolding parse_all or_skip
parse_all-or_skip none n bytes h k = h
parse_all-or_skip (some bit) n bytes h k = ap (λ l. bit ∷ l) k

parse_all-bits_of :
    (bytes : List ℕ) (n : ℕ) → suc (length bytes) ≤ n → parse_all next_bit n bytes ≡ bits_of bytes
unfolding parse_all next_bit
parse_all-bits_of bytes zero enough = absurd (omega arith)
parse_all-bits_of [] (suc n) enough = refl
parse_all-bits_of (c ∷ bytes) (suc n) enough =
    parse_all-or_skip (bit_of c) n bytes (parse_all-bits_of bytes (suc n) (omega arith))
      (parse_all-bits_of bytes n (omega arith))

push-map :
    {A B : Type 0} (f : A → B) (o : Option A) (rest : List A)
    → push (Option.map f o) (map f rest) ≡ map f (push o rest)
push-map f none rest = refl
push-map f (some x) rest = refl

parse_all-next_recon :
    (n : ℕ) (bytes : List ℕ) → parse_all next_recon n bytes ≡ map from (parse_all next_bit n bytes)
unfolding parse_all
parse_all-next_recon zero bytes = refl
parse_all-next_recon (suc n) bytes =
    ap (λ r. push r.0 (parse_all next_recon n r.1)) (next_recon-next_bit bytes)
    ∙ ap (push (Option.map from (next_bit bytes).0)) (parse_all-next_recon n (next_bit bytes).1)
    ∙ push-map from (next_bit bytes).0 (parse_all next_bit n (next_bit bytes).1)

-- A file is parsed to its end: the parser of bits makes of it the bits of the characters that it
-- does not skip, in order, and the parser of packed bits makes of it the same, packed.
pub parse_file-bits_of :
    (bytes : List ℕ)
    → (parse_file next_bit bytes ≡ bits_of bytes)
      × (parse_file next_recon bytes ≡ map from (bits_of bytes))
unfolding parse_file
parse_file-bits_of bytes =
    let parsed = parse_all-bits_of bytes (suc (length bytes)) (omega arith) in
    (parsed, parse_all-next_recon (suc (length bytes)) bytes ∙ ap (map from) parsed)
