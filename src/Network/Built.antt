-- ===== src/Network/Built.antt =====
-- GordonSurfaceBuilder: which networks pass the checks.
use geoml.Common.{
  ℕ, zero, suc, ◌+◌, ◌-◌, ◌≤◌, ◌<◌, ◌≡◌, ◌↔◌, refl, sym, ◌∙◌, ap, Bool, true, false, ◌||◌,
  if◌then◌else◌, ltb, arith, ℕ_discrete,
}
use geoml.Common.Real.{Real, Le}
use geoml.Common.Result.{Result, ok, err, ◌>>=◌}
use geoml.Network.Gordon.{
  GordonError, few_profiles, few_guides, curve_range, u_sticks_out, v_sticks_out, incompatible,
  CurveCalls, CurveNetwork, assert_range, assert_ranges, check_pair, check_row, check_rows,
  check_curve_network_compatibility, check_network,
}

abbrev Check : Type 0
Check = Result {0, 0} GordonError Unit

then_iff : (c : Check) (d : Check) → ((c >>= (λ u. d)) ≡ ok tt) ↔ ((c ≡ ok tt) × (d ≡ ok tt))
then_iff (ok tt) d = (λ e. (refl, e), λ e. e.1)
then_iff (err x) d = (λ e. absurd cc, λ e. absurd cc)

-- A test that throws if it holds.
guard_iff :
    (b : Bool) (x : GordonError) (c : Check)
    → ((if b then err x else c) ≡ ok tt) ↔ ((b ≡ false) × (c ≡ ok tt))
guard_iff true x c = (λ e. absurd cc, λ e. absurd cc)
guard_iff false x c = (λ e. (refl, e), λ e. e.1)

-- A loop of checks that goes on while they pass.
module _ (check : ℕ → Check) (loop : ℕ → ℕ → Check) where
  loop_iff :
      ((i : ℕ) → loop 0 i ≡ ok tt)
      → ((n i : ℕ) → loop (suc n) i ≡ (check i >>= (λ u. loop n (i + 1))))
      → (n i : ℕ) → (loop n i ≡ ok tt) ↔ ((k : ℕ) → i ≤ k → k < i + n → check k ≡ ok tt)
  loop_iff stops steps zero i = (λ e k a b. absurd (omega arith), λ e. stops i)
  loop_iff stops steps (suc n) i =
      let rest = loop_iff stops steps n (i + 1) in
      let both = then_iff (check i) (loop n (i + 1)) in
      (
        λ e k a b.
            let (c, d) = both.0 (sym (steps n i) ∙ e) in
            elim (ℕ_discrete k i) [
              | yes q ↦ ap check q ∙ c
              | no ne ↦ rest.0 d k (omega arith) (omega arith)
            ],
        λ e.
            steps n i
            ∙ both.1 (
              e i (omega arith) (omega arith),
              rest.1 (λ k a b. e k (omega arith) (omega arith)),
            ),
      )

module _ {ℓ} {C P W : Type ℓ} (o : Real W) (calls : CurveCalls C P W) (net : CurveNetwork C W)
    (tol : W) where
  -- All curves have the range of the first.
  abbrev pub SameRange : (ℕ → C) → ℕ → Type 0
  SameRange curves n =
      (k : ℕ)
      → k < n
      → (calls.far (calls.first_parameter (curves k)) (calls.first_parameter (curves 0))
            calls.range_tol
          || calls.far (calls.last_parameter (curves k)) (calls.last_parameter (curves 0))
              calls.range_tol)
        ≡ false

  -- The ends of the parameters are 0 and 1.
  abbrev pub EndsMeet : (ℕ → W) → ℕ → Type 0
  EndsMeet params n =
      (calls.far (params 0) calls.zero_value tol || calls.far (params (n - 1)) calls.one_value tol)
      ≡ false

  -- Guide `i` and profile `j` meet at their parameters.
  abbrev pub Meet : (i j : ℕ) → Type 0
  Meet i j =
      Le o
        (calls.distance (calls.value (net.profiles j) (net.params_u i))
          (calls.value (net.guides i) (net.params_v j)))
        tol

  assert_ranges_iff :
      (curves : ℕ → C) (n : ℕ)
      → (assert_ranges o calls curves n 0
            (calls.first_parameter (curves 0))
            (calls.last_parameter (curves 0))
          ≡ ok tt)
        ↔ SameRange curves n
  unfolding assert_ranges assert_range
  assert_ranges_iff curves n =
      let umin = calls.first_parameter (curves 0) in
      let umax = calls.last_parameter (curves 0) in
      let loop =
        loop_iff (λ k. assert_range o calls (curves k) umin umax calls.range_tol)
          (λ m i. assert_ranges o calls curves m i umin umax) (λ i. refl) (λ m i. refl) n 0 in
      (
        λ e k h. ((guard_iff _ curve_range (ok tt)).0 (loop.0 e k (omega arith) (omega arith))).0,
        λ e. loop.1 (λ k a b. (guard_iff _ curve_range (ok tt)).1 (e k (omega arith), refl)),
      )

  check_rows_iff :
      (check_rows o calls net tol net.n_guides 0 ≡ ok tt)
      ↔ ((i j : ℕ) → i < net.n_guides → j < net.n_profiles → Meet i j)
  unfolding check_rows check_row check_pair
  check_rows_iff =
      let row : (i : ℕ)
          → (check_row o calls net tol i net.n_profiles 0 ≡ ok tt)
            ↔ ((k : ℕ) → 0 ≤ k → k < 0 + net.n_profiles → check_pair o calls net tol i k ≡ ok tt) =
        λ i.
          loop_iff (λ j. check_pair o calls net tol i j) (λ m j. check_row o calls net tol i m j)
            (λ j. refl) (λ m j. refl) net.n_profiles 0 in
      let rows =
        loop_iff (λ i. check_row o calls net tol i net.n_profiles 0)
          (λ m i. check_rows o calls net tol m i) (λ i. refl) (λ m i. refl) net.n_guides 0 in
      (
        λ e i j h k.
            ((guard_iff _ incompatible (ok tt)).0
              ((row i).0 (rows.0 e i (omega arith) (omega arith)) j (omega arith) (omega arith))).0,
        λ e. rows.1 (λ i a b. (row i).1 (λ j c d.
            (guard_iff _ incompatible (ok tt)).1 (e i j (omega arith) (omega arith), refl))),
      )

  -- A network passes the checks of GordonSurfaceBuilder just if it has two profiles and two guides at
  -- least, all profiles have the range of the first and all guides that of theirs, the intersection
  -- parameters go from 0 to 1 in both directions, and each guide meets each profile at their
  -- parameters, all within the tolerances.
  pub check_network_iff : (check_network o calls net tol ≡ ok tt) ↔ (
      (2 ≤ net.n_profiles)
      × (2 ≤ net.n_guides)
      × SameRange net.profiles net.n_profiles
      × SameRange net.guides net.n_guides
      × EndsMeet net.params_u net.n_guides
      × EndsMeet net.params_v net.n_profiles
      × ((i j : ℕ) → i < net.n_guides → j < net.n_profiles → Meet i j))
  unfolding check_network check_curve_network_compatibility
  check_network_iff =
      let a = guard_iff (ltb net.n_profiles 2) few_profiles _ in
      let b = guard_iff (ltb net.n_guides 2) few_guides _ in
      let c = then_iff _ _ in
      let d = then_iff _ _ in
      let e = guard_iff _ u_sticks_out _ in
      let f = guard_iff _ v_sticks_out _ in
      (
        λ h.
            let (h1, h2) = a.0 h in
            let (h3, h4) = b.0 h2 in
            let (h5, h6) = c.0 h4 in
            let (h7, h8) = d.0 h6 in
            let (h9, h10) = e.0 h8 in
            let (h11, h12) = f.0 h10 in
            (
              ground arith,
              ground arith,
              (assert_ranges_iff net.profiles net.n_profiles).0 h5,
              (assert_ranges_iff net.guides net.n_guides).0 h7,
              h9,
              h11,
              check_rows_iff.0 h12,
            ),
        λ h.
            let (h1, h2, h3, h4, h5, h6, h7) = h in
            a.1 (
              ground arith,
              b.1 (
                ground arith,
                c.1 (
                  (assert_ranges_iff net.profiles net.n_profiles).1 h3,
                  d.1 (
                    (assert_ranges_iff net.guides net.n_guides).1 h4,
                    e.1 (h5, f.1 (h6, check_rows_iff.1 h7)),
                  ),
                ),
              ),
            ),
      )
