-- ===== src/Algebra/Gf2/Boolean.antt =====
-- The field of two elements as a ring, and equations between Boolean functions by evaluation.
use reverie_ppr.Prelude.{◌≡◌, refl, Bool, true, false, ◌&&◌, ◌||◌}
use reverie_ppr.Bits.{xor}
use reverie_ppr.Ring.{Ring}

pub xor_assoc : (x y z : Bool) → xor (xor x y) z ≡ xor x (xor y z)
xor_assoc false y z = refl
xor_assoc true false z = refl
xor_assoc true true false = refl
xor_assoc true true true = refl

pub xor_comm : (x y : Bool) → xor x y ≡ xor y x
xor_comm false false = refl
xor_comm false true = refl
xor_comm true false = refl
xor_comm true true = refl

pub xor_cancel : (x y : Bool) → xor (xor x y) y ≡ x
xor_cancel false false = refl
xor_cancel false true = refl
xor_cancel true false = refl
xor_cancel true true = refl

pub and_comm : (x y : Bool) → (x && y) ≡ (y && x)
and_comm false false = refl
and_comm false true = refl
and_comm true false = refl
and_comm true true = refl

pub and-xor : (x y z : Bool) → (x && xor y z) ≡ xor (x && y) (x && z)
and-xor false y z = refl
and-xor true y z = refl

pub or-false : (x : Bool) → (x || false) ≡ x
or-false false = refl
or-false true = refl

pub and-false : (x : Bool) → (x && false) ≡ false
and-false false = refl
and-false true = refl

pub and-true : (x : Bool) → (x && true) ≡ x
and-true false = refl
and-true true = refl

pub and_left : (x y : Bool) → (x && y) ≡ true → x ≡ true
and_left true y e = refl
and_left false y e = cc

pub and_right : (x y : Bool) → (x && y) ≡ true → y ≡ true
and_right true y e = e
and_right false y e = cc

-- Subtraction is addition.
instance abbrev pub bool_ring : Ring Bool
bool_ring = record {
  zero = false;
  add = xor;
  sub = xor;
  mul = ◌&&◌;
  sub-add = xor_cancel;
  add-sub = xor_cancel;
  zero-add = λ x. refl;
  add_comm = xor_comm;
  add_assoc = xor_assoc;
  mul_comm = and_comm;
  mul-add = and-xor;
}
