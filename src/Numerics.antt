-- ===== src/Numerics.antt =====
-- src/math/MathFunctions.cpp: the search and the linear interpolation in a table of values. A table
-- of `n` values is a function of the index, read below `n`; `a <= b` is the negation of `a > b`, so
-- NaN is left out.
pub mod Table
pub mod Binom
pub mod Chebyshev
pub mod Cst
use geoml.Common.{
  ℕ, zero, suc, ◌+◌, ◌-◌, ◌/◌, ◌≤◌, ◌<◌, ◌≡◌, Bool, true, false, not, ◌&&◌, ◌||◌, if◌then◌else◌,
  leb, ◌==◌,
}
use geoml.Common.Real.{Real}
use geoml.Common.Ring.{Ring}

module _ {ℓ} {W : Type ℓ} (o : Real W) where
  -- The `while` loop on fuel; the distance of the two ends shrinks, so `n` rounds are enough. `n`
  -- is returned where neither half has `x`.
  unfoldable pub search : (n : ℕ) → (ℕ → W) → W → (fuel ilow ihigh : ℕ) → ℕ
  search n xdata x zero ilow ihigh = ilow
  search n xdata x (suc fuel) ilow ihigh =
      let imid = (ilow + ihigh) / 2 in
      let left = search n xdata x fuel ilow imid in
      let right = search n xdata x fuel imid ihigh in
      if leb ihigh (ilow + 1)
      then ilow
      else if not (o.gt (xdata ilow) x) && o.gt (xdata imid) x
      then left
      else if not (o.gt (xdata imid) x) && o.gt (xdata ihigh) x
      then right
      else n

  unfoldable pub find_position : (n : ℕ) → (ℕ → W) → W → ℕ
  unfolding search
  find_position n xdata x =
      if o.gt (xdata 0) x
      then 0
      else if not (o.gt (xdata (n - 1)) x)
      then n - 1 - 1
      else search n xdata x n 0 (n - 1)

  -- The warning of an extrapolation is left out.
  unfoldable pub interpolate :
      (r : Ring W) (div : W → W → W) (n : ℕ) → (xdata ydata : ℕ → W) → W → W
  unfolding find_position
  interpolate r div n xdata ydata x =
      let pos = find_position n xdata x in
      let dy = r.add (ydata (pos + 1)) (r.neg (ydata pos)) in
      let dx = r.add (xdata (pos + 1)) (r.neg (xdata pos)) in
      if n == 0
      then r.zero
      else if n == 1
      then ydata 0
      else r.add (r.mul (div dy dx) (r.add x (r.neg (xdata pos)))) (ydata pos)
