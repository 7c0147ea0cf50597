-- ===== src/Network/Interpolate.antt =====
-- src/geometry/curve-networks/InterpolateCurveNetwork.cpp: the intersections of the curves, their
-- sorting, and what the reparametrisation is given. Curves are a parameter, as are their intersections.
-- An entry of a matrix that was never written is `none`.
pub mod Entries
pub mod Prepared
use geoml.Common.{
  ℕ, zero, suc, ◌+◌, ◌-◌, ◌≤◌, ◌<◌, ◌≡◌, Bool, true, false, ◌&&◌, ◌||◌, not, if◌then◌else◌, ltb,
  ◌==◌, List, [], ◌∷◌, Option, none, some,
}
use geoml.Common.Real.{Real}
use geoml.Common.Ring.{Ring, sum}
use geoml.CommonFunctions.Values.{ClampError, clamp}
use geoml.Network.{CurveOps, Sorter, Matrix, SorterError, new_sorter, perform}
use geoml.Common.Result.{Result, ok, err, ◌>>=◌}

pub data NetworkError : Type 0 where
  too_few_profiles : NetworkError
  too_few_guides : NetworkError
  no_intersection : NetworkError
  too_many_intersections : NetworkError
  no_intersection_at_start : NetworkError

pub record Intersect {ℓ κ} (W : Type ℓ) (C : Type κ) : Type (ℓ ⊔ κ) where
  pub intersections : C → C → List (W × W)
  pub is_closed : C → Bool

-- The curves after the constructor; they are read below their numbers.
pub record Curves {ℓ} (C : Type ℓ) : Type ℓ where
  pub n_profiles : ℕ
  pub n_guides : ℕ
  pub profiles : ℕ → C
  pub guides : ℕ → C

-- `intersection_params_u`, `intersection_params_v` and `fail`.
pub record Found {ℓ} (W : Type ℓ) : Type ℓ where
  pub params_u : ℕ → ℕ → Option W
  pub params_v : ℕ → ℕ → Option W
  pub fail : Bool

-- The checks of the constructor.
unfoldable pub new_network {ℓ} : {C : Type ℓ} → Curves C → Result NetworkError (Curves C)
new_network c =
    if ltb c.n_profiles 2
    then err too_few_profiles
    else if ltb c.n_guides 2
    then err too_few_guides
    else ok c

-- A write, where there is one.
unfoldable pub write {ℓ} :
    {W : Type ℓ} → (ℕ → ℕ → Option W) → (i j : ℕ) → Option W → ℕ → ℕ → Option W
write m i j none = m
write m i j (some x) = λ p q. if (p == i) && (q == j) then some x else m p q

module _ {ℓ κ} {W : Type ℓ} {C : Type κ} (o : Real W) (calls : Intersect W C) (c : Curves C) where
  -- `std::min` and `std::max`
  abbrev pub smaller : W → W → W
  smaller a b = if o.gt a b then b else a

  abbrev pub larger : W → W → W
  larger a b = if o.gt b a then b else a

  -- What is left in the entry of u for two intersections: the guides' case writes last.
  unfoldable pub two_u : (j : ℕ) → W × W → W × W → Option W
  two_u j x y =
      if calls.is_closed (c.guides 0)
      then some x.0
      else if not (calls.is_closed (c.profiles 0))
      then none
      else if j == 0
      then some (smaller x.0 y.0)
      else if j == c.n_guides - 1
      then some (larger x.0 y.0)
      else none

  unfoldable pub two_v : (i : ℕ) → W × W → W × W → Option W
  two_v i x y =
      if calls.is_closed (c.guides 0) && (i == 0)
      then some (smaller x.1 y.1)
      else if calls.is_closed (c.guides 0) && (i == c.n_profiles - 1)
      then some (larger x.1 y.1)
      else if calls.is_closed (c.profiles 0)
      then some x.1
      else none

  -- The treatment of one pair of curves.
  unfoldable pub store_pair : (i j : ℕ) → List (W × W) → Found W → Result NetworkError (Found W)
  unfolding write two_u two_v
  store_pair i j [] f = ok (record f { fail = true })
  store_pair i j (x ∷ []) f = ok (record f {
    params_u = write f.params_u i j (some x.0);
    params_v = write f.params_v i j (some x.1);
  })
  store_pair i j (x ∷ y ∷ []) f = ok (record f {
    params_u = write f.params_u i j (two_u j x y);
    params_v = write f.params_v i j (two_v i x y);
  })
  store_pair i j (x ∷ y ∷ z ∷ rest) f = err too_many_intersections

  unfoldable pub intersect_row : (i n j : ℕ) → Found W → Result NetworkError (Found W)
  unfolding store_pair
  intersect_row i zero j f = ok f
  intersect_row i (suc n) j f =
      store_pair i j (calls.intersections (c.profiles i) (c.guides j)) f
      >>= (λ g. intersect_row i n (j + 1) g)

  unfoldable pub intersect_rows : (n i : ℕ) → Found W → Result NetworkError (Found W)
  unfolding intersect_row
  intersect_rows zero i f = ok f
  intersect_rows (suc n) i f = intersect_row i c.n_guides 0 f >>= (λ g. intersect_rows n (i + 1) g)

  unfoldable pub or_fail : Found W → Result NetworkError (Found W)
  or_fail f = if f.fail then err no_intersection else ok f

  unfoldable pub compute_intersections : Result NetworkError (Found W)
  unfolding intersect_rows or_fail
  compute_intersections =
      intersect_rows c.n_profiles 0
        (record { params_u = λ i j. none; params_v = λ i j. none; fail = false })
      >>= or_fail

-- Sizes with their order; the other fields are not used.
abbrev pub sizes : Real ℕ
sizes = record { gt = λ a b. ltb b a; dbl_min = 1; dbl_max = 0; add = λ a b. a + b; neg = λ a. a }

abbrev pub larger_size : ℕ → ℕ → ℕ
larger_size a b = if ltb a b then b else a

-- `max_cp_u` or `max_cp_v`: from the greatest number of control points of the curves of one direction,
-- and the number of curves of the other.
unfoldable pub control_points : (n_curves max_cp : ℕ) → Result ClampError ℕ
unfolding clamp
control_points n_curves max_cp =
    let min_cp = larger_size (n_curves + 2) 10 in
    clamp sizes (max_cp + 10) min_cp (larger_size min_cp 80)

-- `newParametersProfiles` and `newParametersGuides`: the averages over the `n` curves.
unfoldable pub averages {ℓ} :
    {W : Type ℓ} → Ring W → (div : W → W → W) → (of_nat : ℕ → W) → (n : ℕ) → (ℕ → ℕ → W) → ℕ → W
averages r div of_nat n params j = div (sum r n (λ i. params i j)) (of_nat n)

module _ {ℓ κ} {W : Type ℓ} {C : Type κ} (o : Real W) (curve : CurveOps W C) where
  -- `SortCurves`: the sorter gets the curves and both matrices, and is asked to sort.
  unfoldable pub sort_curves :
      Curves C → (params_u params_v : ℕ → ℕ → W) → Result SorterError (Sorter W C)
  unfolding new_sorter perform
  sort_curves c params_u params_v =
      let matrix : (ℕ → ℕ → W) → Matrix W =
        λ m. record { row_number = c.n_profiles; col_number = c.n_guides; entry = m } in
      new_sorter c.n_profiles c.n_guides (λ i. some (c.profiles i)) (λ j. some (c.guides j))
        (matrix params_u) (matrix params_v)
      >>= (λ s. perform o curve s)

module _ {ℓ} {W : Type ℓ} (near : W → W → Bool) (tiny : W → Bool) (zero_value : W) where
  -- `EliminateInaccuraciesNetworkIntersections` for one of the matrices: the loop over its first column
  -- and the loop over its last; `near` is a distance below 0.001, `tiny` an absolute value below
  -- 1e-10, and the knots are the first and the last of the first curve.
  unfoldable pub eliminate_inaccuracies :
      (n_cols : ℕ) → (first_knot last_knot : W) → (ℕ → ℕ → W) → ℕ → ℕ → W
  eliminate_inaccuracies n_cols first_knot last_knot m i j =
      let snapped =
        if (j == 0) && near (m i 0) first_knot
        then if tiny first_knot then zero_value else first_knot
        else m i j in
      if (j == n_cols - 1) && near snapped last_knot then last_knot else snapped
