-- ===== src/Splines/Concat/Valid.antt =====
-- `concatCurves` and `matchDegree`: the arrays of the result fit together.
use geoml.Common.{
  ℕ, ◌+◌, ◌-◌, ◌≤◌, ◌≡◌, inl, inr, subst, Bool, if◌then◌else◌, ltb, List, [], ◌∷◌, map, length,
  Option, none, some, arith, Bool-cases,
}
use geoml.Common.Real.{Real}
use geoml.Common.Ring.{Ring}
use geoml.Splines.{push_back}
use geoml.Splines.Concat.{
  Curve, Arrays, CurveKernel, max_degree, match_degree, total_length, shift_knots, elevated,
}

unfoldable pub sum_mults : List ℕ → ℕ
sum_mults [] = 0
sum_mults (m ∷ ms) = m + sum_mults ms

-- A clamped B-spline of a degree: the end knots are as often as the degree and one more, and the
-- multiplicities together are one more than poles and degree.
pub record IsClamped {ℓ} {W P : Type ℓ} (degree : ℕ) (c : Curve W P) : Type 0 where
  pub has_degree : c.degree ≡ degree
  pub two_knots : 2 ≤ c.nb_knots
  pub two_poles : 2 ≤ c.nb_poles
  pub first : c.multiplicity 1 ≡ degree + 1
  pub last : c.multiplicity c.nb_knots ≡ degree + 1
  pub inner : sum_mults (push_back c.multiplicity (c.nb_knots - 2) 2) + degree + 1 ≡ c.nb_poles

pub data AllClamped {ℓ} {W P : Type ℓ} (degree : ℕ) : List (Curve W P) → Type ℓ where
  done : AllClamped degree []
  more :
      {c : Curve W P} {cs : List (Curve W P)}
      → IsClamped degree c
      → AllClamped degree cs
      → AllClamped degree (c ∷ cs)

-- Clamped, each curve of its own degree.
pub data EachClamped {ℓ} {W P : Type ℓ} : List (Curve W P) → Type ℓ where
  done : EachClamped []
  more :
      {c : Curve W P} {cs : List (Curve W P)}
      → IsClamped c.degree c
      → EachClamped cs
      → EachClamped (c ∷ cs)

-- `IncreaseDegree` keeps a clamped curve clamped.
pub record IsCurveKernel {ℓ} {W P : Type ℓ} (kernel : CurveKernel W P) : Type ℓ where
  pub increase_clamped :
      (c : Curve W P) (degree : ℕ)
      → IsClamped c.degree c
      → c.degree ≤ degree
      → IsClamped degree (kernel.increase_degree c degree)

-- The loop never goes below its first value.
pub max_degree_bounds {ℓ} :
    {W P : Type ℓ} (cs : List (Curve W P)) (best : ℕ) → best ≤ max_degree cs best
unfolding max_degree
max_degree_bounds [] best = omega arith
max_degree_bounds (c ∷ cs) best =
    ground (arith, max_degree_bounds cs best, max_degree_bounds cs c.degree)

data AtMost {ℓ} {W P : Type ℓ} (degree : ℕ) : List (Curve W P) → Type ℓ where
  done : AtMost degree []
  more :
      {c : Curve W P} {cs : List (Curve W P)}
      → c.degree ≤ degree
      → AtMost degree cs
      → AtMost degree (c ∷ cs)

max_degree-AtMost {ℓ} :
    {W P : Type ℓ} (cs : List (Curve W P)) (best : ℕ) → AtMost (max_degree cs best) cs
unfolding max_degree
max_degree-AtMost [] best = done
max_degree-AtMost (c ∷ cs) best =
    more
      (elim (Bool-cases (ltb best c.degree)) [
        | inl e ↦ rw e (max_degree_bounds cs c.degree)
        | inr e ↦ rw e (ground (arith, max_degree_bounds cs best))
      ])
      (max_degree-AtMost cs (if ltb best c.degree then c.degree else best))

-- One more for the first curve.
abbrev opening {ℓ} : {A : Type ℓ} → Option A → ℕ
opening none = 1
opening (some previous) = 0

module _ {ℓ} {W P : Type ℓ} (o : Real W) (r : Ring W) (kernel : CurveKernel W P) where
  -- What fits together: as many weights as points, as many multiplicities as knots, and the sum of
  -- the multiplicities.
  pub record Fits (a : Arrays W P) (poles knots mults : ℕ) : Type 0 where
    pub length_cpoints : length a.cpoints ≡ poles
    pub length_weights : length a.weights ≡ poles
    pub length_knots : length a.knots ≡ knots
    pub length_mults : length a.mults ≡ knots
    pub sum : sum_mults a.mults ≡ mults

  -- The curves as `concatCurves` puts them together: of one degree, each after the other.
  abbrev pub prepared : (tol : W) → Bool → List (Curve W P) → List (Curve W P)
  prepared tol by_length cs =
      shift_knots o r kernel tol by_length (total_length o r kernel cs r.zero) r.zero
        (map kernel.curve_length cs) (elevated o r kernel (max_degree cs 0) cs)

  match_at :
      (degree : ℕ) (cs : List (Curve W P))
      → IsCurveKernel kernel
      → EachClamped cs
      → AtMost degree cs
      → AllClamped degree (
          map
            (λ (c : Curve W P). if ltb c.degree degree then kernel.increase_degree c degree else c)
            cs)
  match_at degree [] laws done done = done
  match_at degree (c ∷ cs) laws (more v vs) (more b bs) =
      more
        (elim (Bool-cases (ltb c.degree degree)) [
          | inl e ↦ rw e (laws.increase_clamped c degree v b)
          | inr e ↦
              let q : c.degree ≡ degree = ground arith in
              rw e (subst (λ (k : ℕ). IsClamped k c) q v)
        ])
        (match_at degree cs laws vs bs)

  -- After `matchDegree` all curves are clamped curves of the greatest degree, where they are clamped
  -- before.
  pub match_degree-AllClamped :
      (cs : List (Curve W P))
      → IsCurveKernel kernel
      → EachClamped cs
      → AllClamped (max_degree cs 0) (match_degree o r kernel cs)
  unfolding match_degree
  match_degree-AllClamped cs laws v = match_at (max_degree cs 0) cs laws v (max_degree-AtMost cs 0)
