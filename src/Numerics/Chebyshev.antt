-- ===== src/Numerics/Chebyshev.antt =====
-- `pow_int` and `cheb_to_monomial` of src/math/MathFunctions.cpp: the coefficients of the Chebyshev
-- polynomials on the unit interval. A `math_Matrix` is a function of its indices, from 0.
pub mod Columns
use geoml.Common.{ℕ, zero, suc, ◌+◌, ◌&&◌, if◌then◌else◌, ◌==◌, Option, none, some}
use geoml.Common.Ring.{Ring}

module _ {ℓ} {W : Type ℓ} (r : Ring W) where
  unfoldable pub pow_int : W → ℕ → W
  pow_int x zero = r.one
  pow_int x (suc n) = r.mul (pow_int x n) x

  abbrev pub two : W
  two = r.add r.one r.one

  abbrev pub four : W
  four = r.add two two

  -- `matrix(i, j) = value`
  unfoldable pub put : (ℕ → ℕ → W) → (i j : ℕ) → W → ℕ → ℕ → W
  put m i j value = λ p q. if (p == i) && (q == j) then value else m p q

  -- `val` after the `if (i > 0)`
  unfoldable pub lead : (ℕ → W) → ℕ → W
  lead c zero = r.zero
  lead c (suc i) = r.add r.zero (r.mul four (c i))

  -- `val` at the end of the inner loop's body; `c` is column `j - 1` and `d` is column `j - 2`.
  unfoldable pub column_value : (c d : ℕ → W) → ℕ → W
  unfolding lead
  column_value c d i = r.add (lead c i) (r.neg (r.add (r.mul two (c i)) (d i)))

  -- `n` rounds of the inner loop; `j` is `k + 2`.
  unfoldable pub fill_column : (ℕ → ℕ → W) → (k n : ℕ) → ℕ → ℕ → W
  unfolding put column_value
  fill_column m k zero = m
  fill_column m k (suc i) =
      let done = fill_column m k i in
      put done i (suc (suc k)) (column_value (λ p. done p (suc k)) (λ p. done p k) i)

  -- The matrix before the loops.
  unfoldable pub first_columns : ℕ → ℕ → W
  unfolding put
  first_columns = put (put (put (λ p q. r.zero) 0 0 r.one) 0 1 (r.neg r.one)) 1 1 two

  -- `k` rounds of the outer loop.
  unfoldable pub fill_columns : ℕ → ℕ → ℕ → W
  unfolding fill_column first_columns
  fill_columns zero = first_columns
  fill_columns (suc k) = fill_column (fill_columns k) k (k + 3)

  -- A matrix of fewer than two columns is written outside its range.
  unfoldable pub cheb_to_monomial : ℕ → Option (ℕ → ℕ → W)
  unfolding fill_columns
  cheb_to_monomial zero = none
  cheb_to_monomial (suc zero) = none
  cheb_to_monomial (suc (suc k)) = some (fill_columns k)

  -- The Chebyshev polynomials at `2 x - 1`, by their recurrence.
  unfoldable pub chebyshev : ℕ → W → W
  chebyshev zero x = r.one
  chebyshev (suc zero) x = r.add (r.mul two x) (r.neg r.one)
  chebyshev (suc (suc j)) x =
      r.add (r.mul four (r.mul x (chebyshev (suc j) x)))
        (r.neg (r.add (r.mul two (chebyshev (suc j) x)) (chebyshev j x)))
