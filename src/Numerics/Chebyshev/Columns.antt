-- ===== src/Numerics/Chebyshev/Columns.antt =====
-- `cheb_to_monomial`: its columns hold the coefficients of the Chebyshev polynomials.
use geoml.Common.{ℕ, zero, suc}
use geoml.Common.Ring.{Ring, sum}
use geoml.Numerics.Chebyshev.{pow_int, column_value, first_columns}

module _ {ℓ} {W : Type ℓ} (r : Ring W) where
  -- The polynomial of `n` coefficients.
  unfoldable pub polynomial : ℕ → (ℕ → W) → W → W
  unfolding sum pow_int
  polynomial n c x = sum r n (λ i. r.mul (c i) (pow_int r x i))

  -- The columns by themselves.
  unfoldable coefficient : ℕ → ℕ → W
  unfolding first_columns column_value
  coefficient zero i = first_columns r i 0
  coefficient (suc zero) i = first_columns r i 1
  coefficient (suc (suc j)) i = column_value r (coefficient (suc j)) (coefficient j) i
