-- ===== src/Common/Real.antt =====
-- What the code does with a `double`, over an abstract type: comparisons, sums and the constants of
-- <cfloat>. NaN is left out by the laws of `IsOrder`; rounding is not described.
use geoml.Common.Int.{ℤ, pos, ltb_ℤ, ◌+ℤ◌, neg_ℤ, +ℤ_parts, neg_ℤ_parts}
use mathlib.Core.Path.{◌≡◌}
use mathlib.Core.Bool.{Bool, true, false}
use native.Mathlib.Omega.{arith}

-- `gt a b` is the test `a > b`, which is also the code's `b < a`.
pub record Real {ℓ} (W : Type ℓ) : Type ℓ where
  pub gt : W → W → Bool
  pub dbl_min : W
  pub dbl_max : W
  pub add : W → W → W
  pub neg : W → W

-- The test of doubles away from NaN: a strict weak order.
pub record IsOrder {ℓ} {W : Type ℓ} (o : Real W) : Type ℓ where
  pub asymm : (a b : W) → o.gt a b ≡ true → o.gt b a ≡ false
  pub le_trans : (a b c : W) → o.gt a b ≡ false → o.gt b c ≡ false → o.gt a c ≡ false

-- `≤` as the code can test it: not `>`.
abbrev pub Le {ℓ} : {W : Type ℓ} → Real W → W → W → Type 0
Le o a b = o.gt a b ≡ false

module _ {ℓ} {W : Type ℓ} (o : Real W) (laws : IsOrder o) where
  pub Le-refl : (a : W) → Le o a a
  Le-refl a = ground (arith, laws.asymm a a)

-- The laws can be met: integers as doubles, where 1 is the least positive one.
abbrev pub int_real : Real ℤ
int_real = record {
  gt = λ a b. ltb_ℤ b a;
  dbl_min = pos 1;
  dbl_max = pos 1000;
  add = λ a b. a +ℤ b;
  neg = neg_ℤ;
}

pub int_real-IsOrder : IsOrder int_real
int_real-IsOrder = record { asymm = λ a b h. ground arith; le_trans = λ a b c h k. ground arith }

-- Reversal of a parameter turns the order round.
pub int_real_anti :
    (first last a b : ℤ)
    → int_real.gt (neg_ℤ a +ℤ first +ℤ last) (neg_ℤ b +ℤ first +ℤ last) ≡ int_real.gt b a
int_real_anti first last a b = ground (
  arith,
  neg_ℤ_parts a,
  neg_ℤ_parts b,
  +ℤ_parts (neg_ℤ a) first,
  +ℤ_parts (neg_ℤ b) first,
  +ℤ_parts (neg_ℤ a +ℤ first) last,
  +ℤ_parts (neg_ℤ b +ℤ first) last,
)
