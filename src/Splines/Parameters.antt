-- ===== src/Splines/Parameters.antt =====
-- `computeParamsBSplineCurve` and `computeParamsBSplineSurf`: parameters from the distances of
-- points.
use geoml.Common.{
  ℕ, zero, suc, ◌+◌, ◌-◌, ◌≤◌, ◌≡◌, ◌≢◌, ◌⊎◌, inl, inr, refl, ◌∙◌, ap, true, false, not,
  if◌then◌else◌, ◌==◌, arith, Bool-cases,
}
use geoml.Common.Real.{Real}
use geoml.Common.Ring.{Ring, IsRing, zero_add, mul_zero}
use geoml.Common.Result.{Result, ok, err, ◌>>=◌}
use geoml.Splines.{SplineError, bad_range, out_of_range, minus}

-- What the code calls on points and on doubles: `square_distance`, `pow`, quotients and the double
-- of a size; `eps` is 1e-10.
pub record Metric {ℓ} (W P : Type ℓ) : Type ℓ where
  pub square_distance : P → P → W
  pub pow : W → W → W
  pub div : W → W → W
  pub of_nat : ℕ → W
  pub eps : W

module _ {ℓ} {W P : Type ℓ} (o : Real W) (r : Ring W) (m : Metric W P) where
  -- The lengths added up, before they are scaled.
  unfoldable pub raw_parameter : (points : ℕ → P) → (alpha : W) → ℕ → W
  raw_parameter points alpha zero = r.zero
  raw_parameter points alpha (suc i) =
      r.add (raw_parameter points alpha i)
        (m.pow (m.square_distance (points (i + 1)) (points i)) (m.div alpha (m.of_nat 2)))

  unfoldable pub ratio : (points : ℕ → P) → (size : ℕ) → (alpha : W) → ℕ → W
  unfolding raw_parameter
  ratio points size alpha i =
      let total = raw_parameter points alpha (size - 1) in
      if o.gt m.eps total
      then m.div (m.of_nat i) (m.of_nat (size - 1))
      else m.div (raw_parameter points alpha i) total

  unfoldable pub compute_params_curve :
      (points : ℕ → P) → (size : ℕ) → (umin umax alpha : W) → Result SplineError (ℕ → W)
  unfolding ratio
  compute_params_curve points size umin umax alpha =
      if not (o.gt umax umin)
      then err bad_range
      else if size == 0
      then err out_of_range
      else ok (λ i. r.add (r.mul (minus r umax umin) (ratio points size alpha i)) umin)

  -- The loop over the `n` lines from `v` on, of `count` lines; the range is from 0 to 1.
  unfoldable pub average_lines :
      (line : ℕ → ℕ → P)
      → (size count : ℕ) → (alpha : W) → (n v : ℕ) → (ℕ → W)
      → Result SplineError (ℕ → W)
  unfolding compute_params_curve
  average_lines line size count alpha zero v params = ok params
  average_lines line size count alpha (suc n) v params =
      compute_params_curve (line v) size r.zero r.one alpha >>= (λ p.
        average_lines line size count alpha n (v + 1)
          (λ u. r.add (params u) (m.div (p u) (m.of_nat count))))

  unfoldable pub compute_params_surf :
      (points : ℕ → ℕ → P) → (rows cols : ℕ) → (alpha : W) → Result SplineError ((ℕ → W) × (ℕ → W))
  unfolding average_lines
  compute_params_surf points rows cols alpha = do
    params_u ← average_lines (λ v u. points u v) rows cols alpha cols 0 (λ u. r.zero)
    params_v ← average_lines (λ u v. points u v) cols rows alpha rows 0 (λ v. r.zero)
    ok (params_u, params_v)

  -- The quotients behave: of zero, and of a number by itself; sizes above 0 are not 0, nor is a
  -- length that the code takes for one.
  pub record IsMetric : Type ℓ where
    pub div_zero : (a : W) → a ≢ r.zero → m.div r.zero a ≡ r.zero
    pub div_self : (a : W) → a ≢ r.zero → m.div a a ≡ r.one
    pub of_zero : m.of_nat 0 ≡ r.zero
    pub of_suc : (k : ℕ) → m.of_nat (suc k) ≢ r.zero
    pub eps_positive : o.gt m.eps r.zero ≡ true

  module _ (laws : IsRing r) (metric : IsMetric) (points : ℕ → P) (size : ℕ) (alpha : W) where
    abbrev total : W
    total = raw_parameter points alpha (size - 1)

    total_positive : o.gt m.eps total ≡ false → total ≢ r.zero
    total_positive h e =
        absurd (ground (arith, metric.eps_positive, ap (λ (x : W). o.gt m.eps x) e))

    ratio_ends :
        2 ≤ size
        → (ratio points size alpha 0 ≡ r.zero) × (ratio points size alpha (size - 1) ≡ r.one)
    unfolding ratio raw_parameter
    ratio_ends h =
        let n : suc (size - 2) ≡ size - 1 = omega arith in
        elim (Bool-cases (o.gt m.eps total)) [
          | inl e ↦ rw e (
            ap (λ (x : W). m.div x (m.of_nat (size - 1))) metric.of_zero
                ∙ metric.div_zero (m.of_nat (size - 1))
                    (λ z. metric.of_suc (size - 2) (ap m.of_nat n ∙ z)),
            metric.div_self (m.of_nat (size - 1))
                (λ z. metric.of_suc (size - 2) (ap m.of_nat n ∙ z)),
          )
          | inr e ↦
              rw e
                (metric.div_zero total (total_positive e), metric.div_self total (total_positive e))
        ]

    -- Where the start parameter is less than the end parameter and there are two points at least,
    -- `computeParamsBSplineCurve` gives the first point the start parameter and the last point the end
    -- parameter, whether or not the points have any distance; it throws where the range is empty.
    pub compute_params_curve-ends :
        (umin umax : W)
        → 2 ≤ size
        → ((o.gt umax umin ≡ true)
            × (p : ℕ → W) × (compute_params_curve points size umin umax alpha ≡ ok p)
            × (p 0 ≡ umin)
            × (p (size - 1) ≡ umax))
          ⊎ ((o.gt umax umin ≡ false)
              × (compute_params_curve points size umin umax alpha ≡ err bad_range))
    unfolding compute_params_curve
    compute_params_curve-ends umin umax h =
        let z : (size == 0) ≡ false = ground arith in
        elim (Bool-cases (o.gt umax umin)) [
          | inr e ↦ inr (e, rw e refl)
          | inl e ↦ inl (
            e,
            λ i. r.add (r.mul (minus r umax umin) (ratio points size alpha i)) umin,
            rw (e, z) refl,
            ap (λ (x : W). r.add (r.mul (minus r umax umin) x) umin) (ratio_ends h).0
                ∙ ap (λ (x : W). r.add x umin) (mul_zero laws (minus r umax umin))
                ∙ zero_add laws umin,
            ap (λ (x : W). r.add (r.mul (minus r umax umin) x) umin) (ratio_ends h).1
                ∙ ap (λ (x : W). r.add x umin) (laws.mul_one (minus r umax umin))
                ∙ laws.add_assoc umax (r.neg umin) umin
                ∙ ap (r.add umax) (laws.add_comm (r.neg umin) umin ∙ laws.add_neg umin)
                ∙ laws.add_zero umax,
          )
        ]
