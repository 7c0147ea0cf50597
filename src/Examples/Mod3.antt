-- ===== src/Examples/Mod3.antt =====
-- Exact arithmetic in a finite ring, where all laws are checked by cases.
use geoml.Common.{◌≡◌, refl}
use geoml.Common.Ring.{Ring, IsRing}

-- The integers modulo 3, a ring to run the geometry in.
pub data Mod3 : Type 0 where
  zero3 : Mod3
  one3 : Mod3
  two3 : Mod3

abbrev pub add3 : Mod3 → Mod3 → Mod3
add3 zero3 zero3 = zero3
add3 zero3 one3 = one3
add3 zero3 two3 = two3
add3 one3 zero3 = one3
add3 one3 one3 = two3
add3 one3 two3 = zero3
add3 two3 zero3 = two3
add3 two3 one3 = zero3
add3 two3 two3 = one3

abbrev pub mul3 : Mod3 → Mod3 → Mod3
mul3 zero3 zero3 = zero3
mul3 zero3 one3 = zero3
mul3 zero3 two3 = zero3
mul3 one3 zero3 = zero3
mul3 one3 one3 = one3
mul3 one3 two3 = two3
mul3 two3 zero3 = zero3
mul3 two3 one3 = two3
mul3 two3 two3 = one3

abbrev pub neg3 : Mod3 → Mod3
neg3 zero3 = zero3
neg3 one3 = two3
neg3 two3 = one3

abbrev pub mod3 : Ring Mod3
mod3 = record { zero = zero3; one = one3; add = add3; mul = mul3; neg = neg3 }

add3_assoc : (a b c : Mod3) → add3 (add3 a b) c ≡ add3 a (add3 b c)
add3_assoc zero3 zero3 zero3 = refl
add3_assoc zero3 zero3 one3 = refl
add3_assoc zero3 zero3 two3 = refl
add3_assoc zero3 one3 zero3 = refl
add3_assoc zero3 one3 one3 = refl
add3_assoc zero3 one3 two3 = refl
add3_assoc zero3 two3 zero3 = refl
add3_assoc zero3 two3 one3 = refl
add3_assoc zero3 two3 two3 = refl
add3_assoc one3 zero3 zero3 = refl
add3_assoc one3 zero3 one3 = refl
add3_assoc one3 zero3 two3 = refl
add3_assoc one3 one3 zero3 = refl
add3_assoc one3 one3 one3 = refl
add3_assoc one3 one3 two3 = refl
add3_assoc one3 two3 zero3 = refl
add3_assoc one3 two3 one3 = refl
add3_assoc one3 two3 two3 = refl
add3_assoc two3 zero3 zero3 = refl
add3_assoc two3 zero3 one3 = refl
add3_assoc two3 zero3 two3 = refl
add3_assoc two3 one3 zero3 = refl
add3_assoc two3 one3 one3 = refl
add3_assoc two3 one3 two3 = refl
add3_assoc two3 two3 zero3 = refl
add3_assoc two3 two3 one3 = refl
add3_assoc two3 two3 two3 = refl

add3_comm : (a b : Mod3) → add3 a b ≡ add3 b a
add3_comm zero3 zero3 = refl
add3_comm zero3 one3 = refl
add3_comm zero3 two3 = refl
add3_comm one3 zero3 = refl
add3_comm one3 one3 = refl
add3_comm one3 two3 = refl
add3_comm two3 zero3 = refl
add3_comm two3 one3 = refl
add3_comm two3 two3 = refl

add3_zero : (a : Mod3) → add3 a zero3 ≡ a
add3_zero zero3 = refl
add3_zero one3 = refl
add3_zero two3 = refl

add3_neg : (a : Mod3) → add3 a (neg3 a) ≡ zero3
add3_neg zero3 = refl
add3_neg one3 = refl
add3_neg two3 = refl

mul3_assoc : (a b c : Mod3) → mul3 (mul3 a b) c ≡ mul3 a (mul3 b c)
mul3_assoc zero3 zero3 zero3 = refl
mul3_assoc zero3 zero3 one3 = refl
mul3_assoc zero3 zero3 two3 = refl
mul3_assoc zero3 one3 zero3 = refl
mul3_assoc zero3 one3 one3 = refl
mul3_assoc zero3 one3 two3 = refl
mul3_assoc zero3 two3 zero3 = refl
mul3_assoc zero3 two3 one3 = refl
mul3_assoc zero3 two3 two3 = refl
mul3_assoc one3 zero3 zero3 = refl
mul3_assoc one3 zero3 one3 = refl
mul3_assoc one3 zero3 two3 = refl
mul3_assoc one3 one3 zero3 = refl
mul3_assoc one3 one3 one3 = refl
mul3_assoc one3 one3 two3 = refl
mul3_assoc one3 two3 zero3 = refl
mul3_assoc one3 two3 one3 = refl
mul3_assoc one3 two3 two3 = refl
mul3_assoc two3 zero3 zero3 = refl
mul3_assoc two3 zero3 one3 = refl
mul3_assoc two3 zero3 two3 = refl
mul3_assoc two3 one3 zero3 = refl
mul3_assoc two3 one3 one3 = refl
mul3_assoc two3 one3 two3 = refl
mul3_assoc two3 two3 zero3 = refl
mul3_assoc two3 two3 one3 = refl
mul3_assoc two3 two3 two3 = refl

mul3_comm : (a b : Mod3) → mul3 a b ≡ mul3 b a
mul3_comm zero3 zero3 = refl
mul3_comm zero3 one3 = refl
mul3_comm zero3 two3 = refl
mul3_comm one3 zero3 = refl
mul3_comm one3 one3 = refl
mul3_comm one3 two3 = refl
mul3_comm two3 zero3 = refl
mul3_comm two3 one3 = refl
mul3_comm two3 two3 = refl

mul3_one : (a : Mod3) → mul3 a one3 ≡ a
mul3_one zero3 = refl
mul3_one one3 = refl
mul3_one two3 = refl

mul3_add : (a b c : Mod3) → mul3 a (add3 b c) ≡ add3 (mul3 a b) (mul3 a c)
mul3_add zero3 zero3 zero3 = refl
mul3_add zero3 zero3 one3 = refl
mul3_add zero3 zero3 two3 = refl
mul3_add zero3 one3 zero3 = refl
mul3_add zero3 one3 one3 = refl
mul3_add zero3 one3 two3 = refl
mul3_add zero3 two3 zero3 = refl
mul3_add zero3 two3 one3 = refl
mul3_add zero3 two3 two3 = refl
mul3_add one3 zero3 zero3 = refl
mul3_add one3 zero3 one3 = refl
mul3_add one3 zero3 two3 = refl
mul3_add one3 one3 zero3 = refl
mul3_add one3 one3 one3 = refl
mul3_add one3 one3 two3 = refl
mul3_add one3 two3 zero3 = refl
mul3_add one3 two3 one3 = refl
mul3_add one3 two3 two3 = refl
mul3_add two3 zero3 zero3 = refl
mul3_add two3 zero3 one3 = refl
mul3_add two3 zero3 two3 = refl
mul3_add two3 one3 zero3 = refl
mul3_add two3 one3 one3 = refl
mul3_add two3 one3 two3 = refl
mul3_add two3 two3 zero3 = refl
mul3_add two3 two3 one3 = refl
mul3_add two3 two3 two3 = refl

pub mod3-IsRing : IsRing mod3
mod3-IsRing = record {
  add_assoc = add3_assoc;
  add_comm = add3_comm;
  add_zero = add3_zero;
  add_neg = add3_neg;
  mul_assoc = mul3_assoc;
  mul_comm = mul3_comm;
  mul_one = mul3_one;
  mul_add = mul3_add;
}
