-- ===== src/Examples/Numerics.antt =====
-- A binomial coefficient, and a table over the integers modulo 3 in the order 0, 1, 2, where every quotient is exact.
use geoml.Common.{ℕ, zero, suc, ◌≤◌, ◌≡◌, ◌≢◌, refl, some, Bool, true, false, arith}
use geoml.Common.Real.{Real, IsOrder}
use geoml.Numerics.{interpolate}
use geoml.Numerics.Table.{Ascends, interpolate-node}
use geoml.Numerics.Binom.{binom, times, choose, binom-choose}
use geoml.Numerics.Cst.{Doubles, cstcurve}
use geoml.Numerics.Cst.Ends.{cstcurve_ends}
use geoml.Examples.Mod3.{Mod3, zero3, one3, two3, add3, mul3, neg3, mod3, mod3-IsRing}

abbrev gt3 : Mod3 → Mod3 → Bool
gt3 zero3 zero3 = false
gt3 zero3 one3 = false
gt3 zero3 two3 = false
gt3 one3 zero3 = true
gt3 one3 one3 = false
gt3 one3 two3 = false
gt3 two3 zero3 = true
gt3 two3 one3 = true
gt3 two3 two3 = false

abbrev pub order : Real Mod3
order = record { gt = gt3; dbl_min = one3; dbl_max = two3; add = add3; neg = neg3 }

gt3_asymm : (a b : Mod3) → gt3 a b ≡ true → gt3 b a ≡ false
gt3_asymm zero3 zero3 h = refl
gt3_asymm zero3 one3 h = absurd cc
gt3_asymm zero3 two3 h = absurd cc
gt3_asymm one3 zero3 h = refl
gt3_asymm one3 one3 h = refl
gt3_asymm one3 two3 h = absurd cc
gt3_asymm two3 zero3 h = refl
gt3_asymm two3 one3 h = refl
gt3_asymm two3 two3 h = refl

gt3_trans : (a b c : Mod3) → gt3 a b ≡ false → gt3 b c ≡ false → gt3 a c ≡ false
gt3_trans zero3 zero3 zero3 h k = refl
gt3_trans zero3 zero3 one3 h k = refl
gt3_trans zero3 zero3 two3 h k = refl
gt3_trans zero3 one3 zero3 h k = refl
gt3_trans zero3 one3 one3 h k = refl
gt3_trans zero3 one3 two3 h k = refl
gt3_trans zero3 two3 zero3 h k = refl
gt3_trans zero3 two3 one3 h k = refl
gt3_trans zero3 two3 two3 h k = refl
gt3_trans one3 zero3 zero3 h k = absurd cc
gt3_trans one3 zero3 one3 h k = refl
gt3_trans one3 zero3 two3 h k = refl
gt3_trans one3 one3 zero3 h k = absurd cc
gt3_trans one3 one3 one3 h k = refl
gt3_trans one3 one3 two3 h k = refl
gt3_trans one3 two3 zero3 h k = absurd cc
gt3_trans one3 two3 one3 h k = refl
gt3_trans one3 two3 two3 h k = refl
gt3_trans two3 zero3 zero3 h k = absurd cc
gt3_trans two3 zero3 one3 h k = absurd cc
gt3_trans two3 zero3 two3 h k = refl
gt3_trans two3 one3 zero3 h k = absurd cc
gt3_trans two3 one3 one3 h k = absurd cc
gt3_trans two3 one3 two3 h k = refl
gt3_trans two3 two3 zero3 h k = absurd cc
gt3_trans two3 two3 one3 h k = absurd cc
gt3_trans two3 two3 two3 h k = refl

order-IsOrder : IsOrder order
order-IsOrder = record { asymm = gt3_asymm; le_trans = gt3_trans }

-- Every number but 0 is its own inverse.
quotient : (a b : Mod3) → b ≢ zero3 → mul3 (mul3 a b) b ≡ a
quotient zero3 zero3 h = absurd (h refl)
quotient zero3 one3 h = refl
quotient zero3 two3 h = refl
quotient one3 zero3 h = absurd (h refl)
quotient one3 one3 h = refl
quotient one3 two3 h = refl
quotient two3 zero3 h = absurd (h refl)
quotient two3 one3 h = refl
quotient two3 two3 h = refl

abbrev xs : ℕ → Mod3
xs zero = zero3
xs (suc zero) = one3
xs (suc (suc k)) = two3

abbrev ys : ℕ → Mod3
ys zero = one3
ys (suc zero) = zero3
ys (suc (suc k)) = two3

ascends : Ascends order order-IsOrder mod3 mod3-IsRing 3 xs
ascends zero zero h k = absurd (omega arith)
ascends zero (suc zero) h k = refl
ascends zero (suc (suc j)) h k = refl
ascends (suc i) zero h k = absurd (omega arith)
ascends (suc zero) (suc zero) h k = absurd (omega arith)
ascends (suc zero) (suc (suc j)) h k = refl
ascends (suc (suc i)) (suc zero) h k = absurd (omega arith)
ascends (suc (suc i)) (suc (suc j)) h k = absurd (omega arith)

interpolate-node_example : interpolate order mod3 mul3 3 xs ys two3 ≡ two3
interpolate-node_example =
    interpolate-node order order-IsOrder mod3 mod3-IsRing mul3 3 xs ys 2 quotient ascends
      (omega arith)

binom-choose_example : binom 2 10 7 ≡ some (choose 7 3)
unfolding choose
binom-choose_example = binom-choose 0 10 7 (omega arith) (omega arith) (omega arith)

-- The number of an `int`, and a power with a positive exponent.
abbrev number3 : ℕ → Mod3
number3 zero = zero3
number3 (suc zero) = one3
number3 (suc (suc zero)) = two3
number3 (suc (suc (suc n))) = number3 n

abbrev power3 : Mod3 → Mod3 → Mod3
power3 zero3 zero3 = one3
power3 zero3 one3 = zero3
power3 zero3 two3 = zero3
power3 one3 y = one3
power3 two3 zero3 = one3
power3 two3 one3 = two3
power3 two3 two3 = one3

abbrev doubles3 : Doubles Mod3
doubles3 = record {
  of_int = number3;
  pow = power3;
  fabs = λ x. x;
  truncated = λ x. x;
  gt = gt3;
  eps = one3;
}

fits3 : (i : ℕ) → i ≤ 2 → (k : ℕ) × (binom 2 2 i ≡ some k)
unfolding binom times
fits3 zero h = (1, refl)
fits3 (suc zero) h = (2, refl)
fits3 (suc (suc zero)) h = (1, refl)
fits3 (suc (suc (suc i))) h = absurd (omega arith)

cstcurve_ends_example :
    (cstcurve mod3 doubles3 one3 two3 ys 3 two3 zero3 ≡ some zero3)
    × (cstcurve mod3 doubles3 one3 two3 ys 3 two3 one3 ≡ some two3)
cstcurve_ends_example =
    cstcurve_ends mod3 mod3-IsRing doubles3 one3 two3 two3 ys 2 refl refl refl fits3
