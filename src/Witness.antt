-- ===== src/Witness.antt =====
-- witness.rs: the parsers of a file of bits, as `Parser<bool>` and as `Parser<gf2::Recon>`. A reader is the bytes that it has
-- left; errors of the file system are not modelled.
use reverie_ppr.Prelude.{
  ℕ, ◌≡◌, refl, List, [], ◌∷◌, ◌++◌, Option, none, some, Bool, true, false, ◌==◌, if◌then◌else◌,
  All, ap, ◌∙◌,
}
use mathlib.Core.Option
use reverie_ppr.Algebra.Gf2.{ReconGf2}
use reverie_ppr.Algebra.Gf2.Recon.{from}

-- The arms of the `match`: a bit, or a character that is skipped.
unfoldable pub bit_of : ℕ → Option Bool
bit_of c = if c == 48 then some false else (if c == 49 then some true else none)

unfoldable pub or_skip : {A : Type 0} → Option A → List ℕ → Option A × List ℕ → Option A × List ℕ
or_skip none left rest = rest
or_skip (some bit) left rest = (some bit, left)

-- `WitParser::next`, with the bytes after it.
unfoldable pub next_bit : List ℕ → Option Bool × List ℕ
unfolding bit_of or_skip
next_bit [] = (none, [])
next_bit (c ∷ left) = or_skip (bit_of c) left (next_bit left)

-- The character of a bit.
abbrev pub digit : Bool → ℕ
digit false = 48
digit true = 49

bit_of-digit : (bit : Bool) → bit_of (digit bit) ≡ some bit
unfolding bit_of
bit_of-digit false = refl
bit_of-digit true = refl

-- Where all characters before a digit are ones that the parser skips, it returns the digit's bit
-- and leaves the bytes after it; and on such characters alone it comes to the end of the file.
pub next_bit-digit :
    (noise left : List ℕ) (bit : Bool)
    → All (λ c. bit_of c ≡ none) noise
    → (next_bit (noise ++ digit bit ∷ left) ≡ (some bit, left)) × (next_bit noise ≡ (none, []))
unfolding next_bit or_skip
next_bit-digit [] left bit h = (rw (bit_of-digit bit) refl, refl)
next_bit-digit (c ∷ noise) left bit h =
    let (found, nothing) = next_bit-digit noise left bit h.1 in (rw (h.0) found, rw (h.0) nothing)

-- `WitParser::next` of the other parser, whose arms convert the bit.
unfoldable pub recon_of : ℕ → Option ReconGf2
unfolding from
recon_of c = if c == 48 then some (from false) else (if c == 49 then some (from true) else none)

unfoldable pub next_recon : List ℕ → Option ReconGf2 × List ℕ
unfolding recon_of or_skip
next_recon [] = (none, [])
next_recon (c ∷ left) = or_skip (recon_of c) left (next_recon left)

recon_of-bit_of : (c : ℕ) → recon_of c ≡ Option.map from (bit_of c)
unfolding recon_of bit_of
recon_of-bit_of c = tests (c == 48) (c == 49)
  where
    tests :
        (x y : Bool)
        → (if x then some (from false) else (if y then some (from true) else none))
          ≡ Option.map from (if x then some false else (if y then some true else none))
    tests true y = refl
    tests false true = refl
    tests false false = refl

-- On any bytes, the parser of packed bits returns what the parser of bits does, converted, and
-- leaves the same bytes.
pub next_recon-next_bit :
    (bytes : List ℕ) → next_recon bytes ≡ (Option.map from (next_bit bytes).0, (next_bit bytes).1)
unfolding next_recon next_bit or_skip
next_recon-next_bit [] = refl
next_recon-next_bit (c ∷ left) =
    ap (λ o. or_skip o left (next_recon left)) (recon_of-bit_of c)
    ∙ arms left (bit_of c) (next_recon left) (next_bit left) (next_recon-next_bit left)
  where
    arms :
        (left : List ℕ) (o : Option Bool) (r : Option ReconGf2 × List ℕ) (s : Option Bool × List ℕ)
        → r ≡ (Option.map from s.0, s.1)
        → or_skip (Option.map from o) left r
          ≡ (Option.map from (or_skip o left s).0, (or_skip o left s).1)
    arms left none r s e = e
    arms left (some bit) r s e = refl
