-- ===== src/Network/Gordon.antt =====
-- src/geometry/curve-networks/GordonSurfaceBuilder.cpp: the checks of the network. Curves are a
-- parameter.
use geoml.Common.{ℕ, zero, suc, ◌+◌, ◌-◌, Bool, ◌||◌, if◌then◌else◌, ltb}
use geoml.Common.Real.{Real}
use geoml.Common.Result.{Result, ok, err, ◌>>=◌}

-- The exceptions, in the order of the code; `curve_range` is that of `assertRange`.
pub data GordonError : Type 0 where
  few_profiles : GordonError
  few_guides : GordonError
  curve_range : GordonError
  u_sticks_out : GordonError
  v_sticks_out : GordonError
  incompatible : GordonError

-- What the code calls on a curve `C`, a point `P` and doubles; `range_tol` is 1e-5, `one` the double.
pub record CurveCalls {ℓ} (C P W : Type ℓ) : Type ℓ where
  pub first_parameter : C → W
  pub last_parameter : C → W
  pub value : C → W → P
  pub distance : P → P → W
  pub far : W → W → W → Bool
  pub range_tol : W
  pub zero_value : W
  pub one_value : W

-- `profiles` and `guides` are read below their sizes; there are as many u parameters as guides and as
-- many v parameters as profiles.
pub record CurveNetwork {ℓ} (C W : Type ℓ) : Type ℓ where
  pub n_profiles : ℕ
  pub n_guides : ℕ
  pub profiles : ℕ → C
  pub guides : ℕ → C
  pub params_u : ℕ → W
  pub params_v : ℕ → W

module _ {ℓ} {C P W : Type ℓ} (o : Real W) (calls : CurveCalls C P W) where
  -- `std::abs(a - b) > tol` is `far a b tol`.
  unfoldable pub assert_range : C → (umin umax tol : W) → Result {0, 0} GordonError Unit
  assert_range c umin umax tol =
      if calls.far (calls.first_parameter c) umin tol || calls.far (calls.last_parameter c) umax tol
      then err curve_range
      else ok tt

  -- The loop over the curves from `i` on.
  unfoldable pub assert_ranges :
      (ℕ → C) → (n i : ℕ) → (umin umax : W) → Result {0, 0} GordonError Unit
  unfolding assert_range
  assert_ranges curves zero i umin umax = ok tt
  assert_ranges curves (suc n) i umin umax =
      assert_range (curves i) umin umax calls.range_tol
      >>= (λ done. assert_ranges curves n (i + 1) umin umax)

  -- One test of the double loop; `tol` is the scale times the tolerance.
  unfoldable pub check_pair :
      CurveNetwork C W → (tol : W) → (i j : ℕ) → Result {0, 0} GordonError Unit
  check_pair net tol i j =
      let p_prof = calls.value (net.profiles j) (net.params_u i) in
      let p_guid = calls.value (net.guides i) (net.params_v j) in
      if o.gt (calls.distance p_prof p_guid) tol then err incompatible else ok tt

  unfoldable pub check_row :
      CurveNetwork C W → (tol : W) → (i n j : ℕ) → Result {0, 0} GordonError Unit
  unfolding check_pair
  check_row net tol i zero j = ok tt
  check_row net tol i (suc n) j = check_pair net tol i j >>= (λ done. check_row net tol i n (j + 1))

  unfoldable pub check_rows :
      CurveNetwork C W → (tol : W) → (n i : ℕ) → Result {0, 0} GordonError Unit
  unfolding check_row
  check_rows net tol zero i = ok tt
  check_rows net tol (suc n) i =
      check_row net tol i net.n_profiles 0 >>= (λ done. check_rows net tol n (i + 1))

  unfoldable pub check_curve_network_compatibility :
      CurveNetwork C W → (tol : W) → Result {0, 0} GordonError Unit
  unfolding check_rows
  check_curve_network_compatibility net tol =
      if calls.far (net.params_u 0) calls.zero_value tol
        || calls.far (net.params_u (net.n_guides - 1)) calls.one_value tol
      then err u_sticks_out
      else if calls.far (net.params_v 0) calls.zero_value tol
          || calls.far (net.params_v (net.n_profiles - 1)) calls.one_value tol
      then err v_sticks_out
      else check_rows net tol net.n_guides 0

  -- The checks of `CreateGordonSurface`.
  unfoldable pub check_network : CurveNetwork C W → (tol : W) → Result {0, 0} GordonError Unit
  unfolding assert_ranges check_curve_network_compatibility
  check_network net tol =
      let rest : Result {0, 0} GordonError Unit =
        assert_ranges net.profiles net.n_profiles 0 (calls.first_parameter (net.profiles 0))
          (calls.last_parameter (net.profiles 0))
        >>= (λ profiles.
            assert_ranges net.guides net.n_guides 0 (calls.first_parameter (net.guides 0))
              (calls.last_parameter (net.guides 0))
            >>= (λ guides. check_curve_network_compatibility net tol)) in
      if ltb net.n_profiles 2
      then err few_profiles
      else if ltb net.n_guides 2
      then err few_guides
      else rest
