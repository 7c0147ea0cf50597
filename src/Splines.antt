-- ===== src/Splines.antt =====
-- src/geometry/BSplineAlgorithms.cpp: what the library computes itself about B-splines. Vectors of
-- parameters are functions of the index, read below their size; arithmetic is exact; OpenCASCADE's
-- curves are records, and its algorithms on them parameters.
pub mod Knots
pub mod Measure
pub mod Parameters
pub mod Concat
pub mod Compatible
use geoml.Common.{
  ℕ, zero, suc, ◌+◌, ◌-◌, ◌*◌, ◌%◌, ◌≤◌, ◌<◌, ◌≡◌, Bool, true, false, not, ◌&&◌, ◌||◌,
  if◌then◌else◌, ltb, leb, ◌==◌, List, [], ◌∷◌, ◌++◌, set, get_elem?, length, Option, none, some,
}
use geoml.Common.Real.{Real}
use geoml.Common.Ring.{Ring, sum}
use geoml.Common.Result.{Result, ok, err}

-- `too_few` and `bad_range` are the exceptions of the code and `length_error` is that of a vector of
-- more elements than it may have; `out_of_range` is an access outside a vector.
pub data SplineError : Type 0 where
  too_few : SplineError
  bad_range : SplineError
  out_of_range : SplineError
  length_error : SplineError

-- `knots.push_back(f(i))` for `n` indices from `i` on.
unfoldable pub push_back {ℓ} : {W : Type ℓ} → (ℕ → W) → (n i : ℕ) → List W
push_back f zero i = []
push_back f (suc n) i = f i ∷ push_back f n (i + 1)

module _ {ℓ} {W : Type ℓ} (r : Ring W) where
  abbrev pub minus : W → W → W
  minus a b = r.add a (r.neg b)

  unfoldable pub closed_knots : (ℕ → W) → (n_inner degree : ℕ) → List W
  unfolding push_back
  closed_knots inner n_inner degree =
      let offset = minus (inner 0) (inner (n_inner - 1)) in
      push_back (λ i. r.add offset (inner (n_inner - degree - 1 + i))) degree 0
      ++ (push_back inner n_inner 0
          ++ push_back (λ i. r.add (r.neg offset) (inner (i + 1))) degree 0)

module _ {ℓ} {W : Type ℓ} where
  unfoldable pub open_knots : (ℕ → W) → (n_inner degree : ℕ) → List W
  unfolding push_back
  open_knots inner n_inner degree =
      push_back (λ i. inner 0) degree 0
      ++ (push_back inner n_inner 0 ++ push_back (λ i. inner (n_inner - 1)) degree 0)

  unfoldable pub store : ℕ → Option W → List W → List W
  store i none knots = knots
  store i (some k) knots = set knots i k

  -- `knots[i] = knots[j]`
  unfoldable pub copy_knot : (i j : ℕ) → List W → List W
  unfolding store
  copy_knot i j knots = store i (get_elem? knots j) knots

module _ {ℓ} {W : Type ℓ} (r : Ring W) (div : W → W → W) (of_nat : ℕ → W) where
  abbrev half : W → W
  half a = r.mul (div r.one (of_nat 2)) a

  -- The difference vector; its entry at `m` is the last one.
  unfoldable pub dparm : (ℕ → W) → ℕ → W
  dparm params i = minus r (params (i + 1)) (params i)

  -- The inner knots of a closed curve of even degree, up to index `m`.
  unfoldable pub even_knot : (ℕ → W) → (m j : ℕ) → W
  unfolding dparm
  even_knot params m zero = params 0
  even_knot params m (suc zero) = r.add (params 0) (half (r.add (dparm params 0) (dparm params m)))
  even_knot params m (suc (suc k)) =
      r.add (even_knot params m (suc k)) (half (r.add (dparm params k) (dparm params (k + 1))))

  unfoldable pub inner_closed : (ℕ → W) → (n degree j : ℕ) → W
  unfolding even_knot
  inner_closed params n degree j =
      if degree % 2 == 0
      then if leb j (n - 2) || (j == 1) then even_knot params (n - 2) j else params (n - 1)
      else params j

  -- The averages, between the first and the last parameter.
  unfoldable pub inner_open : (ℕ → W) → (n degree j : ℕ) → W
  inner_open params n degree j =
      if ltb 0 j && ltb j (n - degree)
      then div (sum r degree (λ i. params (j + i))) (of_nat degree)
      else if j == n - degree
      then params (n - 1)
      else params 0

  -- The parameters of a closed curve after the call.
  unfoldable pub shifted : (ℕ → W) → (n degree i : ℕ) → W
  unfolding dparm
  shifted params n degree i =
      if degree % 2 == 0 then r.add (params i) (div (dparm params (n - 2)) (of_nat 2)) else params i

  -- The degree is at least one, and a `size_t` has 64 bits: `nCP - degree + 1` below 0 wraps to a number
  -- of elements for which a vector throws, and a vector of none has no front. For a closed curve there
  -- are as many inner knots as parameters. The result has the parameters too, since the code shifts them for a
  -- closed curve of even degree.
  unfoldable pub knots_from_curve_parameters :
      (params : ℕ → W) (n degree : ℕ) → Bool → Result SplineError (List W × (ℕ → W))
  unfolding inner_closed inner_open closed_knots open_knots copy_knot shifted
  knots_from_curve_parameters params n degree true =
      let knots = closed_knots r (inner_closed params n degree) n degree in
      if ltb n 2
      then err too_few
      else if leb n degree
      then err out_of_range
      else if leb degree 1
      then ok (
        copy_knot (length knots - 1) (length knots - 2) (copy_knot 0 1 knots),
        shifted params n degree,
      )
      else ok (knots, shifted params n degree)
  knots_from_curve_parameters params n degree false =
      if ltb n 2
      then err too_few
      else if ltb (n + 1) degree
      then err length_error
      else if n + 1 == degree
      then err out_of_range
      else ok (open_knots (inner_open params n degree) (n - degree + 1) degree, params)
