-- ===== src/Splines/Concat.antt =====
-- `matchDegree`, `matchParameterRange`, `reparametrizeBSpline` of a curve and `concatCurves`. A curve
-- has its knots and poles by their index from 1, as OpenCASCADE counts them; the curves of a list are
-- distinct objects, so that none is changed twice. OpenCASCADE's algorithms on curves are parameters.
pub mod Valid
use geoml.Common.{
  ℕ, zero, suc, ◌+◌, ◌-◌, ◌≤◌, ◌<◌, ◌≡◌, Bool, true, false, ◌&&◌, ◌||◌, not, if◌then◌else◌, ltb,
  List, [], ◌∷◌, ◌++◌, map, length, Option, none, some,
}
use geoml.Common.Real.{Real}
use geoml.Common.Ring.{Ring}
use geoml.Splines.{push_back, minus}

pub record Curve {ℓ} (W P : Type ℓ) : Type ℓ where
  pub degree : ℕ
  pub nb_knots : ℕ
  pub knot : ℕ → W
  pub multiplicity : ℕ → ℕ
  pub nb_poles : ℕ
  pub pole : ℕ → P
  pub weight : ℕ → W

-- The arrays that a B-spline is made of.
pub record Arrays {ℓ} (W P : Type ℓ) : Type ℓ where
  pub cpoints : List P
  pub weights : List W
  pub knots : List W
  pub mults : List ℕ

-- `null` is the null pointer, `same` the only curve of the list.
pub data Concatenated {ℓ} (W P : Type ℓ) : Type ℓ where
  null : Concatenated W P
  same : Curve W P → Concatenated W P
  joined : Arrays W P → (degree : ℕ) → Concatenated W P

-- What the code calls of OpenCASCADE, and its arithmetic. `reparametrize` is that of BSplCLib, on as
-- many knots as it is given; `half_way` is the middle of two points and `average` that of doubles.
pub record CurveKernel {ℓ} (W P : Type ℓ) : Type ℓ where
  pub distance : P → P → W
  pub half_way : P → P → P
  pub average : W → W → W
  pub div : W → W → W
  pub curve_length : Curve W P → W
  pub increase_degree : Curve W P → ℕ → Curve W P
  pub reparametrize : (umin umax : W) → ℕ → (ℕ → W) → ℕ → W
  pub first_parameter : Curve W P → W
  pub last_parameter : Curve W P → W

-- The loop for the maximum degree.
unfoldable pub max_degree {ℓ} : {W P : Type ℓ} → List (Curve W P) → ℕ → ℕ
max_degree [] best = best
max_degree (c ∷ cs) best = max_degree cs (if ltb best c.degree then c.degree else best)

-- The sizes of the arrays, less one.
unfoldable pub count_knots {ℓ} : {W P : Type ℓ} → List (Curve W P) → ℕ
count_knots [] = 0
count_knots (c ∷ cs) = c.nb_knots - 1 + count_knots cs

unfoldable pub count_poles {ℓ} : {W P : Type ℓ} → List (Curve W P) → ℕ
count_poles [] = 0
count_poles (c ∷ cs) = c.nb_poles - 1 + count_poles cs

module _ {ℓ} {W P : Type ℓ} (o : Real W) (r : Ring W) (kernel : CurveKernel W P) where
  -- `std::abs(a - b) > tol`
  abbrev pub differ : W → W → W → Bool
  differ tol a b = o.gt (if o.gt r.zero (minus r a b) then r.neg (minus r a b) else minus r a b) tol

  unfoldable pub reparametrize_bspline : W → Curve W P → (umin umax : W) → Curve W P
  reparametrize_bspline tol c umin umax =
      if differ tol (c.knot 1) umin || differ tol (c.knot c.nb_knots) umax
      then record c { knot = kernel.reparametrize umin umax c.nb_knots c.knot }
      else c

  -- The curves after the first get its range.
  unfoldable pub match_parameter_range : W → List (Curve W P) → List (Curve W P)
  unfolding reparametrize_bspline
  match_parameter_range tol [] = []
  match_parameter_range tol (c ∷ cs) =
      let umin = kernel.first_parameter c in
      let umax = kernel.last_parameter c in
      c
      ∷ map
          (λ (b : Curve W P).
            if differ tol (kernel.first_parameter b) umin
              || differ tol (kernel.last_parameter b) umax
            then reparametrize_bspline tol b umin umax
            else b)
          cs

  unfoldable pub match_degree : List (Curve W P) → List (Curve W P)
  unfolding max_degree
  match_degree cs =
      let d = max_degree cs 0 in
      map (λ (c : Curve W P). if ltb c.degree d then kernel.increase_degree c d else c) cs

  unfoldable pub total_length : List (Curve W P) → W → W
  total_length [] total = total
  total_length (c ∷ cs) total = total_length cs (r.add total (kernel.curve_length c))

  -- The check of the ends of neighbours, after curve `c`.
  unfoldable pub connected : W → Curve W P → List (Curve W P) → Bool
  connected tol c [] = true
  connected tol c (d ∷ ds) =
      let rest = connected tol d ds in
      if o.gt (kernel.distance (c.pole c.nb_poles) (d.pole 1)) tol then false else rest

  -- `lengths` are those of the curves before their degrees were raised.
  unfoldable pub shift_knots :
      (tol : W)
      → Bool
      → (total start : W) → (lengths : List W) → List (Curve W P)
      → List (Curve W P)
  unfolding reparametrize_bspline
  shift_knots tol by_length total start lengths [] = []
  shift_knots tol by_length total start [] (c ∷ cs) = []
  shift_knots tol by_length total start (l ∷ ls) (c ∷ cs) =
      let stop =
        if by_length
        then r.add start (kernel.div l total)
        else r.add start (minus r (kernel.last_parameter c) (kernel.first_parameter c)) in
      reparametrize_bspline tol c start stop ∷ shift_knots tol by_length total stop ls cs

  -- What the loop writes for curve `c`, after curve `previous`.
  unfoldable pub first_mult : ℕ → Option (Curve W P) → Curve W P → ℕ
  first_mult degree none c = c.multiplicity 1
  first_mult degree (some previous) c = degree

  unfoldable pub first_pole : Option (Curve W P) → Curve W P → P
  first_pole none c = c.pole 1
  first_pole (some previous) c = kernel.half_way (previous.pole previous.nb_poles) (c.pole 1)

  unfoldable pub first_weight : Option (Curve W P) → Curve W P → W
  first_weight none c = c.weight 1
  first_weight (some previous) c = kernel.average (previous.weight previous.nb_poles) (c.weight 1)

  -- All that is written from curve `c` on; `cs` are the curves after it.
  unfoldable pub concat_from : ℕ → Option (Curve W P) → Curve W P → List (Curve W P) → Arrays W P
  unfolding first_mult first_pole first_weight push_back
  concat_from degree previous c [] = record {
    cpoints = first_pole previous c ∷ push_back c.pole (c.nb_poles - 2) 2 ++ c.pole c.nb_poles ∷ [];
    weights =
        first_weight previous c ∷ push_back c.weight (c.nb_poles - 2) 2 ++ c.weight c.nb_poles ∷ [];
    knots = c.knot 1 ∷ push_back c.knot (c.nb_knots - 2) 2 ++ c.knot c.nb_knots ∷ [];
    mults =
        first_mult degree previous c ∷ push_back c.multiplicity (c.nb_knots - 2) 2
        ++ c.multiplicity c.nb_knots ∷ [];
  }
  concat_from degree previous c (d ∷ ds) =
      let rest = concat_from degree (some c) d ds in
      record {
        cpoints = first_pole previous c ∷ push_back c.pole (c.nb_poles - 2) 2 ++ rest.cpoints;
        weights = first_weight previous c ∷ push_back c.weight (c.nb_poles - 2) 2 ++ rest.weights;
        knots = c.knot 1 ∷ push_back c.knot (c.nb_knots - 2) 2 ++ rest.knots;
        mults =
            first_mult degree previous c ∷ push_back c.multiplicity (c.nb_knots - 2) 2
            ++ rest.mults;
      }

  abbrev pub elevated : ℕ → List (Curve W P) → List (Curve W P)
  elevated degree cs = map (λ (c : Curve W P). kernel.increase_degree c degree) cs

  unfoldable pub join : ℕ → List (Curve W P) → Concatenated W P
  unfolding concat_from
  join degree [] = null
  join degree (c ∷ cs) = joined (concat_from degree none c cs) degree

  -- `tol` is the default tolerance of reparametrizeBSpline.
  unfoldable pub concat_curves :
      (tol : W) → List (Curve W P) → (par_by_length : Bool) → (tolerance : W) → Concatenated W P
  unfolding max_degree total_length connected shift_knots join
  concat_curves tol [] by_length tolerance = null
  concat_curves tol (c ∷ []) by_length tolerance = same c
  concat_curves tol (c ∷ d ∷ cs) by_length tolerance =
      let all = c ∷ d ∷ cs in
      let degree = max_degree all 0 in
      let total = total_length all r.zero in
      if connected tolerance c (d ∷ cs)
      then join degree (
          shift_knots tol by_length total r.zero (map kernel.curve_length all)
            (elevated degree all))
      else null
