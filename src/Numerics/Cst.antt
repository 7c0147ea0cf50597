-- ===== src/Numerics/Cst.antt =====
-- src/math/MathFunctions.cpp: factorials, Bernstein polynomials and the CST profile curve. An `int`
-- that overflows is none; the `double` of an `int`, `pow`, `fabs` and the truncation are parameters.
pub mod Ends
use geoml.Common.{
  ℕ, zero, suc, ◌+◌, ◌-◌, ◌/◌, Bool, ◌&&◌, if◌then◌else◌, ltb, ◌==◌, Option, none, some,
}
use geoml.Common.Ring.{Ring}
use geoml.Numerics.Binom.{times, binom, ◌>>=◌}
use geoml.Numerics.Chebyshev.{pow_int}

-- `for (i = 2; i <= n; ++i) result *= i;` with `r` rounds to go
unfoldable pub factorial_loop : (r i result : ℕ) → Option ℕ
unfolding times
factorial_loop zero i result = some result
factorial_loop (suc r) i result = do p ← times result i; factorial_loop r (i + 1) p

unfoldable pub factorial : ℕ → Option ℕ
unfolding factorial_loop
factorial n = factorial_loop (n - 1) 2 1

-- What the functions ask of <cmath> and of the conversions; `gt a b` is `a > b`.
pub record Doubles {ℓ} (W : Type ℓ) : Type ℓ where
  pub of_int : ℕ → W
  pub pow : W → W → W
  pub fabs : W → W
  pub truncated : W → W
  pub gt : W → W → Bool
  pub eps : W

module _ {ℓ} {W : Type ℓ} (r : Ring W) (d : Doubles W) where
  -- `res = 0.; for (i = 0; i < n; i++) res += f(i);`, where a term may overflow
  unfoldable pub total : ℕ → (ℕ → Option W) → Option W
  total zero f = some r.zero
  total (suc n) f = do s ← total n f; v ← f n; some (r.add s v)

  abbrev pub one_minus : W → W
  one_minus x = r.add r.one (r.neg x)

  -- The assertion is `i ≤ n`.
  unfoldable pub bernstein_poly : (i n : ℕ) → W → Option W
  unfolding binom pow_int
  bernstein_poly i n x = do
    b ← binom 2 n i
    some (r.mul (r.mul (d.of_int b) (pow_int r x i)) (pow_int r (one_minus x) (n - i)))

  -- A term of the sum in `bernstein_poly_deriv`.
  unfoldable pub deriv_term : (k i n : ℕ) → W → ℕ → Option W
  unfolding bernstein_poly
  deriv_term k i n x j = do
    b ← binom 2 k j
    p ← bernstein_poly (i - j) (n - k) x
    some (r.mul (r.mul (pow_int r (r.neg r.one) (j + k)) (d.of_int b)) p)

  unfoldable pub bernstein_poly_deriv : (k i n : ℕ) → W → Option W
  unfolding deriv_term factorial total
  bernstein_poly_deriv k i n x =
      let jmin = i + k - n in
      let jmax = if ltb k i then k else i in
      if k == 0 then bernstein_poly i n x else if ltb n k then some r.zero else do
        s ← total (jmax + 1 - jmin) (λ j. deriv_term k i n x (jmin + j))
        f ← factorial n
        g ← factorial (n - k)
        some (r.mul s (d.of_int (f / g)))

  -- `fact *= (k - i)` in `n` rounds
  unfoldable pub falling : W → ℕ → W
  falling k zero = r.one
  falling k (suc i) = r.mul (falling k i) (r.add k (r.neg (d.of_int i)))

  unfoldable pub pow_deriv : (x k : W) → ℕ → W
  unfolding falling
  pow_deriv x k n =
      if n == 0
      then d.pow x k
      else if d.gt d.eps (d.fabs (r.add k (r.neg (d.truncated k)))) && d.gt (d.of_int n) k
      then r.zero
      else r.mul (falling k n) (d.pow x (r.add k (r.neg (d.of_int n))))

  unfoldable pub class_function : (n1 n2 x : W) → W
  class_function n1 n2 x = r.mul (d.pow x n1) (d.pow (one_minus x) n2)

  unfoldable pub class_function_deriv : (n1 n2 : W) → ℕ → W → Option W
  unfolding total pow_deriv binom pow_int
  class_function_deriv n1 n2 n x = total (n + 1) (λ i. do
    b ← binom 2 n i
    some (
        r.mul (r.mul (r.mul (d.of_int b) (pow_deriv x n1 i)) (pow_deriv (one_minus x) n2 (n - i)))
          (pow_int r (r.neg r.one) (n - i))))

  -- `B` has `size` elements.
  unfoldable pub shape_function : (ℕ → W) → ℕ → W → Option W
  unfolding total bernstein_poly
  shape_function b size x =
      total size (λ i. do p ← bernstein_poly i (size - 1) x; some (r.mul (b i) p))

  unfoldable pub shape_function_deriv : (ℕ → W) → (size n : ℕ) → W → Option W
  unfolding total bernstein_poly_deriv
  shape_function_deriv b size n x =
      total size (λ i. do p ← bernstein_poly_deriv n i (size - 1) x; some (r.mul (b i) p))

  unfoldable pub cstcurve : (n1 n2 : W) → (ℕ → W) → ℕ → (t x : W) → Option W
  unfolding class_function shape_function
  cstcurve n1 n2 b size t x = do
    s ← shape_function b size x
    some (r.add (r.mul (class_function n1 n2 x) s) (r.mul x t))

  unfoldable pub cstcurve_deriv : (n1 n2 : W) → (ℕ → W) → ℕ → W → ℕ → W → Option W
  unfolding class_function_deriv shape_function_deriv
  cstcurve_deriv n1 n2 b size t n x = do
    res ← total (n + 1) (λ i. do
      k ← binom 2 n i
      c ← class_function_deriv n1 n2 i x
      s ← shape_function_deriv b size (n - i) x
      some (r.mul (r.mul (d.of_int k) c) s))
    some (if n == 1 then r.add res t else res)
