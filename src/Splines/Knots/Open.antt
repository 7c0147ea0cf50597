-- ===== src/Splines/Knots/Open.antt =====
-- `knotsFromCurveParameters` for an open curve: its ends and its averages.
use geoml.Common.{
  ℕ, ◌+◌, ◌-◌, ◌≤◌, ◌<◌, ◌≡◌, refl, ◌∙◌, ap, true, false, ltb, ◌==◌, ◌&&◌, List, some, get_elem?,
  arith, dec_lt, ℕ_discrete,
}
use geoml.Common.Ring.{Ring, sum}
use geoml.Common.Result.{ok}
use geoml.Splines.{inner_open, open_knots, knots_from_curve_parameters}
use geoml.Splines.Knots.{three, three_first, three_second, three_third}

module _ {ℓ} {W : Type ℓ} (r : Ring W) (div : W → W → W) (of_nat : ℕ → W) where
  -- An open curve with more parameters than its degree: the first and the last `degree + 1` knots are
  -- the first and the last parameter, and each knot between them is the average of as many
  -- consecutive parameters as the degree says.
  pub knots_open_clamped :
      (params : ℕ → W) (n degree : ℕ)
      → 1 ≤ degree
      → degree < n
      → (knots : List W) × (knots_from_curve_parameters r div of_nat params n degree false
          ≡ ok (knots, params))
        × ((i : ℕ) → i ≤ degree → get_elem? knots i ≡ some (params 0))
        × ((i : ℕ) → i ≤ degree → get_elem? knots (n + i) ≡ some (params (n - 1)))
        × ((j : ℕ)
            → 0 < j
            → j + degree < n
            → get_elem? knots (degree + j)
              ≡ some (div (sum r degree (λ i. params (j + i))) (of_nat degree)))
  unfolding knots_from_curve_parameters open_knots
  knots_open_clamped params n degree h k =
      let a : ltb n 2 ≡ false = ground arith in
      let b : ltb (n + 1) degree ≡ false = ground arith in
      let c : (n + 1 == degree) ≡ false = ground arith in
      (
        open_knots inner (n - degree + 1) degree,
        rw (a, b, c) refl,
        λ i p. elim (dec_lt i degree) [
          | yes lt ↦
              three_first first inner last degree (n - degree + 1) degree i lt ∙ ap some first_value
          | no ge ↦
              at i (degree + 0) (omega arith)
              ∙ three_second first inner last degree (n - degree + 1) degree 0 (omega arith)
              ∙ ap some first_value
        ],
        λ i p. elim (ℕ_discrete i 0) [
          | yes e ↦
              at (n + i) (degree + (n - degree)) (omega arith)
              ∙ three_second first inner last degree (n - degree + 1) degree (n - degree)
                  (omega arith)
              ∙ ap some last_value
          | no ne ↦
              at (n + i) (degree + (n - degree + 1) + (i - 1)) (omega arith)
              ∙ three_third first inner last degree (n - degree + 1) degree (i - 1) (omega arith)
              ∙ ap some (same_last ∙ last_value)
        ],
        λ j p q.
            three_second first inner last degree (n - degree + 1) degree j (omega arith)
            ∙ ap some (average j p q),
      )
    where
      inner : ℕ → W
      inner = inner_open r div of_nat params n degree

      first : ℕ → W
      first i = inner 0

      last : ℕ → W
      last i = inner (n - degree + 1 - 1)

      at :
          (p q : ℕ)
          → p ≡ q
          → get_elem? (three first inner last degree (n - degree + 1) degree) p
            ≡ get_elem? (three first inner last degree (n - degree + 1) degree) q
      at p q e = ap (get_elem? (three first inner last degree (n - degree + 1) degree)) e

      first_value : inner 0 ≡ params 0
      first_value =
          let e : (0 == n - degree) ≡ false = ground arith in unfold inner_open in (rw e refl)

      same_last : inner (n - degree + 1 - 1) ≡ inner (n - degree)
      same_last = let e : n - degree + 1 - 1 ≡ n - degree = omega arith in ap inner e

      last_value : inner (n - degree) ≡ params (n - 1)
      last_value =
          let e : ltb (n - degree) (n - degree) ≡ false = ground arith in
          let f : (n - degree == n - degree) ≡ true = ground arith in
          let g : (ltb 0 (n - degree) && ltb (n - degree) (n - degree)) ≡ false = ground arith in
          unfold inner_open in (rw (g, f) refl)

      average :
          (j : ℕ)
          → 0 < j
          → j + degree < n
          → inner j ≡ div (sum r degree (λ i. params (j + i))) (of_nat degree)
      average j p q =
          let g : (ltb 0 j && ltb j (n - degree)) ≡ true = ground arith in
          unfold inner_open in (rw g refl)
